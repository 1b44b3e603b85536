-- ===== src/Inter/Serializer/Binary.antt =====
-- inter/event_serializer.go: MarshalBinary and UnmarshalBinary of events, and the votes in the same
-- form.
use go_opera.Base.{ℕ, ◌^◌, ◌<◌, ◌≡◌, List, length, Result, ok}
use go_opera.Inter.Llr.{LlrBlockVotes, LlrEpochVote}
use go_opera.Inter.Serializer.{marshal_block_votes, unmarshal_block_votes}
use go_opera.Inter.Serializer.{marshal_epoch_vote, unmarshal_epoch_vote}
use go_opera.Inter.Serializer.Votes.{IsBlockVotes, block_votes-Coded, IsHash, epoch_vote-Coded}
use go_opera.Inter.Serializer.Events.{EventData, marshal_event, unmarshal_event}
use go_opera.Inter.Serializer.Events.RoundTrip.{IsEvent, event-Coded}
use go_opera.Inter.Serializer.Payloads.{Rlp, PayloadData, marshal_payload, unmarshal_payload}
use go_opera.Inter.Serializer.Payloads.RoundTrip.{IsPayload, payload-Coded}
use go_opera.Inter.Serializer.Transactions.{TxData, marshal_transaction, unmarshal_transaction}
use go_opera.Inter.Serializer.Transactions.RoundTrip.{IsTransaction, transaction-Coded}
use go_opera.Utils.Cser.{Writer, new_writer}
use go_opera.Utils.Cser.Adapter.{unmarshal-marshal}
use go_opera.Utils.Cser.Binary.{marshal_binary_adapter, unmarshal_binary_adapter}

-- The bit array that an encoder makes has less than 2^63 bytes, as every slice of Go.
abbrev pub HasSlices : (Writer → Result Writer) → Type 0
HasSlices put = (w : Writer) → put new_writer ≡ ok w → length w.bits_w.bytes < 2 ^ 63

-- A well-formed event, whatever its version, whose bit array is no longer than a slice can be, is
-- encoded without an error, and decoding the bytes gives the same event, whatever the array of their
-- slice holds behind them.
pub unmarshal_event-marshal_event :
    (empty_payload_hash : ℕ → ℕ) (e : EventData) (spare : List ℕ)
    → IsEvent empty_payload_hash e
    → HasSlices (marshal_event e)
    → (raw : List ℕ) × (marshal_binary_adapter (marshal_event e) ≡ ok raw)
      × (unmarshal_binary_adapter raw spare (unmarshal_event empty_payload_hash) ≡ ok e)
unmarshal_event-marshal_event empty e spare v slices =
    unmarshal-marshal (marshal_event e) (unmarshal_event empty) e spare (event-Coded empty e v)
      slices

-- Block votes of at most as many hashes as fit a message, with a bit array no longer than a slice
-- can be, are encoded, and decoding the bytes gives the same votes, whatever the array of their slice
-- holds behind them.
pub unmarshal_block_votes-marshal_block_votes :
    (bvs : LlrBlockVotes) (spare : List ℕ)
    → IsBlockVotes bvs
    → HasSlices (marshal_block_votes bvs)
    → (raw : List ℕ) × (marshal_binary_adapter (marshal_block_votes bvs) ≡ ok raw)
      × (unmarshal_binary_adapter raw spare unmarshal_block_votes ≡ ok bvs)
unmarshal_block_votes-marshal_block_votes bvs spare v slices =
    unmarshal-marshal (marshal_block_votes bvs) unmarshal_block_votes bvs spare
      (block_votes-Coded bvs v) slices

-- An epoch vote whose numbers have the sizes of its fields, with a bit array no longer than a slice
-- can be, is encoded, and decoding the bytes gives the same vote, whatever the array of their slice
-- holds behind them.
pub unmarshal_epoch_vote-marshal_epoch_vote :
    (ers : LlrEpochVote) (spare : List ℕ)
    → ers.epoch < 2 ^ 32
    → IsHash ers.vote
    → HasSlices (marshal_epoch_vote ers)
    → (raw : List ℕ) × (marshal_binary_adapter (marshal_epoch_vote ers) ≡ ok raw)
      × (unmarshal_binary_adapter raw spare unmarshal_epoch_vote ≡ ok ers)
unmarshal_epoch_vote-marshal_epoch_vote ers spare epoch_lt vote_lt slices =
    unmarshal-marshal (marshal_epoch_vote ers) unmarshal_epoch_vote ers spare
      (epoch_vote-Coded ers epoch_lt vote_lt) slices

-- A transaction of one of the three types, whose numbers have the sizes that its fields have, with a
-- gas limit of at least 256 if it is a legacy one and a bit array no longer than a slice can be, is
-- encoded, and decoding the bytes gives the same transaction, whatever the array of their slice holds
-- behind them.
pub unmarshal_transaction-marshal_transaction :
    (tx : TxData) (spare : List ℕ)
    → IsTransaction tx
    → HasSlices (marshal_transaction tx)
    → (raw : List ℕ) × (marshal_binary_adapter (marshal_transaction tx) ≡ ok raw)
      × (unmarshal_binary_adapter raw spare unmarshal_transaction ≡ ok tx)
unmarshal_transaction-marshal_transaction tx spare v slices =
    unmarshal-marshal (marshal_transaction tx) unmarshal_transaction tx spare
      (transaction-Coded tx v) slices

-- An event with its payload, with flags that are right, at most as many transactions of version 0
-- as fit a message and located block votes, whose bit array is no longer than a slice can be, is
-- encoded, and decoding the bytes gives the same, whatever the array of their slice holds behind
-- them, if RLP gives back its transactions from version 1 on and its misbehaviour proofs.
pub unmarshal_payload-marshal_payload :
    (rlp : Rlp) (empty_payload_hash : ℕ → ℕ) (p : PayloadData) (spare : List ℕ)
    → IsPayload rlp empty_payload_hash p
    → HasSlices (marshal_payload rlp p)
    → (raw : List ℕ) × (marshal_binary_adapter (marshal_payload rlp p) ≡ ok raw)
      × (unmarshal_binary_adapter raw spare (unmarshal_payload rlp empty_payload_hash) ≡ ok p)
unmarshal_payload-marshal_payload rlp empty p spare v slices =
    unmarshal-marshal (marshal_payload rlp p) (unmarshal_payload rlp empty) p spare
      (payload-Coded rlp empty p v) slices
