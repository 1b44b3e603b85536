-- ===== src/Inter/Event.antt =====
-- The event interfaces of inter/event.go, as records of what their methods return, and the
-- methods of go-ethereum's transactions that the checks call.
use go_opera.Base.{ℕ, Option, List, Bool, ℤ}
use go_opera.Inter.GasPowerLeft.{GasPowerLeft}
use go_opera.Inter.Llr.{LlrBlockVotes, LlrEpochVote}
use go_opera.Inter.Mps.{MisbehaviourProof}

-- `types.Transaction`. `access_list` has the number of storage keys of each entry, `none` is nil.
pub record Transaction : Type 0 where
  pub value : ℤ
  pub gas_price : ℤ
  pub gas_fee_cap : ℤ
  pub gas_tip_cap : ℤ
  pub data_bytes : List ℕ
  pub access_list : Option (List ℕ)
  pub to_is_nil : Bool
  pub gas : ℕ
  pub tx_type : ℕ

-- `EventI` and `EventPayloadI`. `self_parent` and `is_self_parent` are methods of lachesis-base.
pub record Event : Type 0 where
  pub id : ℕ
  pub epoch : ℕ
  pub seq : ℕ
  pub creator : ℕ
  pub parents : List ℕ
  pub self_parent : Option ℕ
  pub is_self_parent : ℕ → Bool
  pub version : ℕ
  pub net_fork_id : ℕ
  pub creation_time : ℕ
  pub median_time : ℕ
  pub extra : List ℕ
  pub gas_power_left : GasPowerLeft
  pub gas_power_used : ℕ
  pub hash_to_sign : ℕ
  pub payload_hash : ℕ
  pub sig : List ℕ
  pub txs : List Transaction
  pub epoch_vote : LlrEpochVote
  pub block_votes : LlrBlockVotes
  pub misbehaviour_proofs : List MisbehaviourProof
