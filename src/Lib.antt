-- ===== src/Lib.antt =====
-- Parts of erigon-lib, the Go library that Erigon's nodes share, with the theorems that make them
-- correct.
--
-- Base has what the modules share: lists over native numbers, Boolean tests, the results of Go calls and
-- fixed-width integers.
--
-- Rlp is the package `rlp`. Rlp/Parse.antt is rlp/parse.go (`Prefix`, `List`, `String`, `U64`, `U32`,
-- `U256`, `ParseHash`, `ParseAnnouncements`) and Rlp/Encode.antt is rlp/encodel.go
-- (`EncodeListPrefix`, `EncodeU64`, `EncodeU32`, `EncodeString`, `EncodeHash`, `EncodeAnnouncements`
-- and the length functions). A payload is the list of its bytes, a position is the bit pattern of a Go
-- `int`, and an index or a slice out of range is `fault`, so that panics are values. An encoder takes
-- the buffer and gives it back written. The children Bytes, Headers, Elements, Integers, Strings and
-- Writes relate both to the bytes of an encoding; Bounds and Safety are about the parsers on any bytes;
-- Lengths, RoundTrip and the Announce modules are about the encoders and the parsers together.
-- Commitment.antt is rlp/commitment.go, the encodings that the state's root hashes; its writer is a
-- parameter, which `Keeps` asks to take all bytes.
--
-- Iter is the package `kv/iter`. Iter.antt has the interfaces `Unary` and `Dual` (a `Dual` is a `Unary`
-- of pairs) and `ToArr` of kv/iter/helpers.go; Array, Union, UnionKv, Intersect, Filter and Paginate are
-- the iterators of kv/iter/iter.go. An iterator is a state with `has_next` and `next`; `Streams it s o`
-- says that the loop over `HasNext` and `Next` sees the values, the end or the error of `o`. So an
-- iterator over iterators is specified by a function on such sequences. Order has the types that are
-- compared, Advance and UnionSpec carry the proofs of the iterators that read one value ahead.
--
-- TxPool is about txpool/pool.go: Gas.antt is `CalcIntrinsicGas` with `SafeMul` and `SafeAdd` of
-- common/math/integer.go, Sender.antt is `onSenderStateChange`, whose marks SenderLaws.antt explains,
-- Queue.antt has the orders `better` and `worse` of the sub-pools' queues, which Ranks.antt explains, and
-- Promote.antt is `promote` with the sub-pools: a queue of container/heap is a function that picks a
-- transaction, and `Picks` says what it promises, which Promote/Select.antt has an instance of.
-- A `uint256` is a number, with the wrap-around of the sums written out. Which sub-pool holds a transaction is its field
-- `currentSubPool`.
--
-- Chain is about chain/chain_config.go: Config.antt is the configuration and `CheckCompatible`,
-- Forks.antt is `CheckConfigForkOrder` and the tests for forks; Compat.antt, Agree.antt and ForkOrder.antt
-- say what they find. Rules.antt has `Rules`, the forks by time and the tests for the block of a fork,
-- Bor.antt the schedules of `BorConfig`, maps as lists of pairs. A `*big.Int` is an optional number; `Uint64` takes it modulo 2 ^ 64.
--
-- Etl is the package `etl`. Buffer.antt is `sortableBuffer` of etl/buffers.go and Entries.antt its two
-- map buffers, Buffers.antt the interface `Buffer` of the three; Provider.antt is etl/dataprovider.go
-- but for the flush, which is with the collector; Merge.antt is etl/heap.go and `mergeSortFiles`,
-- Collector.antt and LoadNext.antt are the `Collector` of etl/collector.go and the writes of its
-- `Load`, Transform.antt is etl/etl.go. Varint.antt has the numbers of encoding/binary that the files
-- use, Sorting.antt the stable sort that all is compared with. A collector has a buffer of any kind,
-- and over a `sortableBuffer` it `Holds` entries when its files and its buffer, one behind another,
-- sort to what these sort to; so the flushes are not seen in the result. The provider in memory reads
-- the collector's own buffer, as the shared pointer of the source does, and gets it as an argument. A
-- heap is the list of its elements in the one order in which it gives them.
--
-- The parts do not call each other: the clients of `rlp` are the transaction pool's parsers and the
-- sentry, those of `kv/iter` the key-value tables and the domain files, and the pool asks the chain's
-- configuration for the fork that is active.
--
-- Bounds: a slice has less than 2 ^ 48 bytes, as every allocation of a Go program; integers wrap around
-- at their width; rlp/commitment.go writes at most three bytes of a length, so its lengths are below 2 ^ 24; nonces are below 2 ^ 64 - 1, as the protocol wants them. The loops of
-- `IntersectIter`, of the filters and of `ToArr` run on fuel, a round for each unit; more fuel than the
-- inputs have values left is enough. `CheckCompatible` takes two rounds more than the height, since
-- every error but the last one rewinds to a lower block. A loop of `promote` takes a round for each transaction. `mergeSortFiles` takes a round for each entry.
--
-- Not modelled: the text of error messages (an error is the sentinel that it wraps, or the source's
-- case); `ReverseArray`, `EmptyUnary` and `EmptyDual` of kv/iter; `Close` methods, which do
-- nothing; the errors of the operating system, the logging, the leftover files of
-- `NewCollectorFromFiles` and the tables of etl, whose cursor calls are values;
-- `uint256.Int.SetBytes` and `Int.BitLen`, which are parameters; the index fields of the sub-pools'
-- heaps, and the pool's maps and database; the configurations of the engines other than Bor; and the packages other than those
-- above: the storage engine's bindings, gRPC and generated code, the downloader and the compressed
-- files, whose core is I/O.
pub mod Base
pub mod Rlp
pub mod Iter
pub mod TxPool
pub mod Chain
pub mod Etl
