-- ===== src/Rlp.antt =====
-- rlp: the recursive length prefix encoding, from rlp/parse.go and rlp/encodel.go.
pub mod Parse
pub mod Encode
pub mod Bytes
pub mod Bounds
pub mod Safety
pub mod Headers
pub mod Elements
pub mod Integers
pub mod Writes
pub mod Strings
pub mod Lengths
pub mod RoundTrip
pub mod Announce
pub mod AnnounceLengths
pub mod AnnounceWrites
pub mod AnnounceItems
pub mod AnnounceRoundTrip
pub mod Commitment
mod Examples
