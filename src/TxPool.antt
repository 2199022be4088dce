-- ===== src/TxPool.antt =====
-- The transaction pool's own rules, from txpool/pool.go.
pub mod Gas
pub mod Sender
pub mod SenderLaws
pub mod Queue
pub mod Ranks
pub mod Promote
mod Examples
