-- ===== src/Gossip/Llr.antt =====
-- gossip/c_llr_callbacks.go: LLR votes of validators decide the hash of each block's and of each
-- epoch's record, and full records are accepted if they match. `mayCommit`, which flushes the store
-- to the disk, and the metrics and logs are left out.
pub mod Handlers
pub mod LowestIndex
pub mod Voting
pub mod EpochVoting
pub mod Frontier
pub mod Ballots
pub mod Safety
pub mod Runs
use go_opera.Base.{ℕ, zero, suc, ◌+◌, ◌-◌, ◌/◌, List, [], ◌∷◌, ◌++◌, Bool, true, false, not, ◌&&◌}
use go_opera.Base.{
  if◌then◌else◌, leb, ltb, nat_beq, nat_bne, u32, u64, sub32, lookup, insert, nat_eq, length,
}
use go_opera.Base.{Option, some, none, Result, ok, err, ◌>>=◌, ◌>>◌, fail_if, Error, is_some}
use go_opera.Pos.{Validators}
use go_opera.Opera.{Upgrades}
use go_opera.Opera.Driver.{Log, DriverAbi}
use go_opera.Inter.Llr.{
  EventLocator, LlrBlockVotes, LlrSignedBlockVotes, LlrSignedEpochVote, last_block,
}
use go_opera.Inter.BlockProc.{BlockState, EpochState}
use go_opera.Gossip.VotesIndex.{VotesIndex, add_llr_vote_weight}
use go_opera.Gossip.Store.{
  Store, LlrState, EvmWrite, set_tx, set_tx_position, set_raw_receipts, index_logs, set_block_votes,
  has_block_votes, set_epoch_vote, has_epoch_vote, get_llr_block_result, set_llr_block_result,
  get_llr_epoch_result, set_llr_epoch_result, get_history_epoch_state,
  has_history_block_epoch_state, set_history_block_epoch_state, get_block, set_block, has_block,
  set_block_index, set_epoch_block, add_upgrade_height,
}
use go_opera.Gossip.VerWatcher.{on_new_log}

-- `for exists(current) { current++ }`, on fuel.
unfoldable pub skip_existing : ℕ → ℕ → (ℕ → Bool) → ℕ
skip_existing zero current exists = current
skip_existing (suc fuel) current exists = elim (exists current) [
  | true ↦ skip_existing fuel (u64 (current + 1)) exists
  | false ↦ current
]

unfoldable pub actualize_lowest_index : ℕ → (current upd : ℕ) → (ℕ → Bool) → ℕ
unfolding skip_existing
actualize_lowest_index fuel current upd exists =
    if nat_beq current upd then skip_existing fuel (u64 (current + 1)) exists else current

-- The state with a vote's result set, and the lowest undecided block moved past it.
unfoldable pub decide_block : Store → (block bv : ℕ) → Store
decide_block s block bv =
    let s' = set_llr_block_result s block bv in
    record s' {
      llr_state = record s'.llr_state {
        lowest_block_to_decide =
            actualize_lowest_index (suc (length s'.block_results))
              s'.llr_state.lowest_block_to_decide block (λ u. is_some (get_llr_block_result s' u));
      };
    }

-- A vote for another hash than the decided one is only logged.
unfoldable pub process_block_vote : Store → (block epoch bv val : ℕ) → Validators → Result Store
process_block_vote s block epoch bv val vals = do
  (new_weight, ix) ←
      add_llr_vote_weight s.block_votes_index (record { block = block; epoch = epoch; v = bv }) val
        vals.len (vals.get_weight_by_idx val)
  let s' : Store = record s { block_votes_index = ix }
  ok (
      if leb (u32 (vals.total_weight / 3 + 1)) new_weight
      then elim (get_llr_block_result s' block) [ none ↦ decide_block s' block bv | some _ ↦ s' ]
      else s')

unfoldable pub process_votes_from :
    Store → (block epoch : ℕ) → List ℕ → ℕ → Validators → Result Store
process_votes_from s block epoch [] val vals = ok s
process_votes_from s block epoch (bv ∷ votes) val vals = do
  s' ← process_block_vote s block epoch bv val vals
  process_votes_from s' (u64 (block + 1)) epoch votes val vals

-- Go reads a missing key of a map as 0.
abbrev pub or_zero : Option ℕ → ℕ
or_zero none = 0
or_zero (some n) = n

abbrev pub raise_last : List (ℕ × ℕ) → (vid last : ℕ) → List (ℕ × ℕ)
raise_last m vid last = if ltb (or_zero (lookup vid m)) last then insert vid last m else m

-- The epoch's number is a uint32, and the search runs on uint64.
unfoldable pub decide_epoch : Store → (epoch ev : ℕ) → Store
decide_epoch s epoch ev =
    let s' = set_llr_epoch_result s epoch ev in
    record s' {
      llr_state = record s'.llr_state {
        lowest_epoch_to_decide = u32 (
            actualize_lowest_index (suc (length s'.epoch_results))
              s'.llr_state.lowest_epoch_to_decide epoch
              (λ u. is_some (get_llr_epoch_result s' (u32 u))));
      };
    }

unfoldable pub process_raw_epoch_vote : Store → (epoch ev val : ℕ) → Validators → Result Store
process_raw_epoch_vote s epoch ev val vals = do
  (new_weight, ix) ←
      add_llr_vote_weight s.epoch_votes_index (record { block = 0; epoch = epoch; v = ev }) val
        vals.len (vals.get_weight_by_idx val)
  let s' : Store = record s { epoch_votes_index = ix }
  ok (
      if leb (u32 (vals.total_weight / 3 + 1)) new_weight
      then elim (get_llr_epoch_result s' epoch) [ none ↦ decide_epoch s' epoch ev | some _ ↦ s' ]
      else s')

-- A transaction and a receipt by what the code uses of them.
pub record Receipt : Type 0 where
  pub id : ℕ
  pub logs : List Log

-- `ibr.LlrIdxFullBlockRecord`, its transactions by their hashes.
pub record FullBlockRecord : Type 0 where
  pub idx : ℕ
  pub atropos : ℕ
  pub root : ℕ
  pub txs : List ℕ
  pub receipts : List Receipt
  pub time : ℕ
  pub gas_used : ℕ

-- `ier.LlrIdxFullEpochRecord`
pub record FullEpochRecord : Type 0 where
  pub idx : ℕ
  pub block_state : BlockState
  pub epoch_state : EpochState

-- Hashing, and go-ethereum's decoding of stored receipts, are outside the repository.
pub record Hashing : Type 0 where
  pub locator_id : EventLocator → ℕ
  pub block_record_hash : FullBlockRecord → ℕ
  pub epoch_record_hash : FullEpochRecord → ℕ
  pub unwrap_receipts : List Receipt → List Receipt
