-- ===== src/Lib.antt =====
-- go-opera, the node of an aBFT proof-of-stake network: a model of its own core logic, and what is
-- proved of it. The consensus itself, the EVM and the databases are libraries that it calls.
--
-- Validators emit events. A node checks each event (eventcheck), orders them by consensus, and
-- processes the confirmed ones block by block (gossip/blockproc) until the epoch is sealed and the
-- next group of validators takes over. In parallel, the validators of an epoch vote on the hashes
-- of the records of blocks and of epochs (LLR): a hash that has more than a third of the weight is
-- decided, and a full record with that hash is accepted from any peer (gossip/c_llr_callbacks.go).
--
-- The files and what they model:
--   Base               numbers, lists, maps as association lists, and Go's errors and panics as
--                      values: `Result` has `ok`, `err` and `panic`
--   Pos                the validators group of lachesis-base: a record of its methods, and `IsGroup`,
--                      the documented behaviour that the theorems rely on
--   Opera              opera/rules.go and the logs of the Driver contract
--   Inter              inter/event.go, inter_llr.go, inter_mps.go, gas_power_left.go and
--                      inter/iblockproc: the data
--   Utils.Bitmap       utils/bitmap/bitset.go, `New`, `Put`, `Del` and `Has`
--   Utils.Bits         utils/bits/bits.go, the writer and the reader of bits
--   Utils.Fast         utils/fast/buffer.go, the writer and the reader of bytes
--   Utils.Cser         utils/cser: read_writer.go; BigInts: its big integers, Arrays: Go's byte
--                      arrays, Binary: binary.go; Codec: what it is that an encoder is read back
--   Inter.Serializer   inter/event_serializer.go: the votes, Events: an event without its payload,
--                      Payloads: with it; Transactions: inter/transaction_serializer.go; Binary: all
--                      of them through the adapters of utils/cser
--   Gossip.VotesIndex  the vote weights of gossip/store_llr_block.go: a write-back cache, whose
--                      evictions may happen between any two operations, before a table
--   Gossip.Store       the tables of gossip/store_llr_block.go, store_llr_epoch.go,
--                      store_llr_state.go, store_decided_state.go and store_block.go that the LLR
--                      handlers use
--   Gossip.Llr         gossip/c_llr_callbacks.go: processing one vote; Handlers has
--                      `processBlockVotes`, `processEpochVote`, `ProcessFullBlockRecord` and
--                      `ProcessFullEpochRecord`; Ballots has the runs of votes as a step relation
--   Gossip.VerWatcher  gossip/blockproc/verwatcher/version_watcher.go
--   Gossip.BlockProc   Sealer: sealmodule/sealer.go, Events: eventmodule, DriverTxs: drivermodule
--   EventCheck         Basic: basiccheck and `IntrinsicGas` of evmcore, Epoch: epochcheck, GasPower:
--                      gaspowercheck, Checkers: all.go, ban.go, parentscheck and the three Enqueue
--   Scenarios          concrete inputs and what the theorems say of them
--
-- State is passed explicitly: an operation takes the store, the processor or the listener, and
-- returns the one after it. A machine integer is a natural number with its wrap-around written
-- out. The value of an operation that fails is the error alone: the store is the caller's.
--
-- Fuel: the search of `actualizeLowestIndex` is given one more than the number of the keys, which
-- is enough since each round passes a key. The loops of utils/bits are given the number of bits
-- plus one. Those of utils/cser are given ten rounds for the groups of seven bits of a uint64, eight
-- or the minimum for its bytes, and one more than the number of bytes for reading groups; the latter
-- has an error of its own for running out of fuel.
--
-- Parameters: lachesis-base (the group, its builder, the base checks), go-ethereum (hashes,
-- signatures, receipts, gas constants), RLP and JSON decoding. Not modelled: the EVM, the databases
-- and the caches that hold what a table holds, hashing, the network, the RPC, the transaction pool,
-- the emitter, and everything about goroutines, locks, metrics and logs. The runs of LLR votes are
-- those of one group of validators.
pub mod Base
pub mod EventCheck
pub mod Gossip
pub mod Inter
pub mod Opera
pub mod Pos
pub mod Scenarios
pub mod Utils
