-- ===== src/Gossip/Store.antt =====
-- The part of gossip's `Store` that LLR votes and records read and write: tables as association
-- lists with an entry for each key. The LRU caches in front of the tables hold what the tables
-- hold, so they are left out, but for the vote weights (Gossip/VotesIndex). What is written to the
-- EVM store is kept as a log of the writes.
use go_opera.Base.{ℕ, ◌-◌, ◌^◌, List, [], ◌∷◌, ◌++◌, Bool, true, false, ◌&&◌, ◌≡◌, ◌↔◌}
use go_opera.Base.{Option, some, none, arith, nat_beq, if◌then◌else◌, Eq, nat_eq, lookup, insert}
use go_opera.Inter.Llr.{LlrSignedBlockVotes, LlrSignedEpochVote, last_block}
use go_opera.Inter.BlockProc.{BlockState, EpochState}
use go_opera.Opera.{UpgradeHeight}
use go_opera.Gossip.VotesIndex.{VotesIndex}

-- gossip/store_llr_state.go
pub record LlrState : Type 0 where
  pub lowest_epoch_to_decide : ℕ
  pub lowest_epoch_to_fill : ℕ
  pub lowest_block_to_decide : ℕ
  pub lowest_block_to_fill : ℕ

-- The key of a signed block votes record: its epoch, its last block and its event's id.
pub record BlockVotesKey : Type 0 where
  pub epoch : ℕ
  pub last_block : ℕ
  pub id : ℕ

abbrev pub bvs_key_eq : BlockVotesKey → BlockVotesKey → Bool
bvs_key_eq a b = nat_beq a.epoch b.epoch && (nat_beq a.last_block b.last_block && nat_beq a.id b.id)

pub bvs_key_eq_iff : (a b : BlockVotesKey) → (bvs_key_eq a b ≡ true) ↔ (a ≡ b)
bvs_key_eq_iff a b = ground arith

instance abbrev pub bvs_key_Eq : Eq BlockVotesKey
bvs_key_Eq = record { beq = bvs_key_eq; beq_iff = bvs_key_eq_iff }

pub record EpochVoteKey : Type 0 where
  pub epoch : ℕ
  pub id : ℕ

abbrev pub ev_key_eq : EpochVoteKey → EpochVoteKey → Bool
ev_key_eq a b = nat_beq a.epoch b.epoch && nat_beq a.id b.id

pub ev_key_eq_iff : (a b : EpochVoteKey) → (ev_key_eq a b ≡ true) ↔ (a ≡ b)
ev_key_eq_iff a b = ground arith

instance abbrev pub ev_key_Eq : Eq EpochVoteKey
ev_key_Eq = record { beq = ev_key_eq; beq_iff = ev_key_eq_iff }

-- inter.Block
pub record Block : Type 0 where
  pub time : ℕ
  pub atropos : ℕ
  pub events : List ℕ
  pub txs : List ℕ
  pub internal_txs : List ℕ
  pub skipped_txs : List ℕ
  pub gas_used : ℕ
  pub root : ℕ

pub record BlockEpochState : Type 0 where
  pub block_state : BlockState
  pub epoch_state : EpochState

-- A write to the EVM store: a transaction's body, its position, a block's raw receipts, and the
-- logs of those receipts.
pub data EvmWrite : Type 0 where
  set_tx : ℕ → EvmWrite
  set_tx_position : (tx block block_offset : ℕ) → EvmWrite
  set_raw_receipts : ℕ → List ℕ → EvmWrite
  index_logs : ℕ → EvmWrite

pub record Store : Type 0 where
  pub block_votes_index : VotesIndex
  pub epoch_votes_index : VotesIndex
  pub block_results : List (ℕ × ℕ)
  pub epoch_results : List (ℕ × ℕ)
  pub block_votes : List (BlockVotesKey × LlrSignedBlockVotes)
  pub epoch_votes : List (EpochVoteKey × LlrSignedEpochVote)
  pub last_bvs : List (ℕ × ℕ)
  pub last_evs : List (ℕ × ℕ)
  pub llr_state : LlrState
  pub current : BlockEpochState
  pub history : List (ℕ × BlockEpochState)
  pub genesis_block : Block
  pub blocks : List (ℕ × Block)
  pub block_index : List (ℕ × ℕ)
  pub epoch_blocks : List (ℕ × ℕ)
  pub upgrade_heights : List UpgradeHeight
  pub evm : List EvmWrite
  pub network_version : ℕ

unfoldable pub set_block_votes : Store → ℕ → LlrSignedBlockVotes → Store
set_block_votes s id bvs = record s {
  block_votes =
      insert (record { epoch = bvs.val.epoch; last_block = last_block bvs.val; id = id }) bvs
        s.block_votes;
}

unfoldable pub has_block_votes : Store → (epoch last_block id : ℕ) → Bool
has_block_votes s epoch last_block id =
    elim (lookup (record { epoch = epoch; last_block = last_block; id = id }) s.block_votes) [
      | none ↦ false
      | some _ ↦ true
    ]

unfoldable pub set_epoch_vote : Store → ℕ → LlrSignedEpochVote → Store
set_epoch_vote s id ev = record s {
  epoch_votes = insert (record { epoch = ev.val.epoch; id = id }) ev s.epoch_votes;
}

unfoldable pub has_epoch_vote : Store → (epoch id : ℕ) → Bool
has_epoch_vote s epoch id = elim (lookup (record { epoch = epoch; id = id }) s.epoch_votes) [
  | none ↦ false
  | some _ ↦ true
]

unfoldable pub get_llr_block_result : Store → ℕ → Option ℕ
get_llr_block_result s block = lookup block s.block_results

unfoldable pub set_llr_block_result : Store → ℕ → ℕ → Store
set_llr_block_result s block bv = record s { block_results = insert block bv s.block_results }

unfoldable pub get_llr_epoch_result : Store → ℕ → Option ℕ
get_llr_epoch_result s epoch = lookup epoch s.epoch_results

unfoldable pub set_llr_epoch_result : Store → ℕ → ℕ → Store
set_llr_epoch_result s epoch ev = record s { epoch_results = insert epoch ev s.epoch_results }

-- `GetHistoryEpochState` looks at the current state first.
unfoldable pub get_history_epoch_state : Store → ℕ → Option EpochState
get_history_epoch_state s epoch =
    if nat_beq s.current.epoch_state.epoch epoch
    then some s.current.epoch_state
    else elim (lookup epoch s.history) [ none ↦ none | some bes ↦ some bes.epoch_state ]

unfoldable pub has_history_block_epoch_state : Store → ℕ → Bool
has_history_block_epoch_state s epoch = elim (lookup epoch s.history) [
  | none ↦ false
  | some _ ↦ true
]

unfoldable pub set_history_block_epoch_state : Store → ℕ → BlockState → EpochState → Store
set_history_block_epoch_state s epoch bs es = record s {
  history = insert epoch (record { block_state = bs; epoch_state = es }) s.history;
}

-- Block 0 is a fake genesis block, which is not in the table.
unfoldable pub get_block : Store → ℕ → Option Block
get_block s n = if nat_beq n 0 then some s.genesis_block else lookup n s.blocks

unfoldable pub set_block : Store → ℕ → Block → Store
set_block s n b = record s { blocks = insert n b s.blocks }

-- The key is `math.MaxUint64 - b`.
unfoldable pub set_epoch_block : Store → ℕ → ℕ → Store
set_epoch_block s b e = record s { epoch_blocks = insert (2 ^ 64 - 1 - b) e s.epoch_blocks }

unfoldable pub add_upgrade_height : Store → UpgradeHeight → Store
add_upgrade_height s h = record s { upgrade_heights = s.upgrade_heights ++ (h ∷ []) }

unfoldable pub has_block : Store → ℕ → Bool
has_block s n = elim (lookup n s.blocks) [ none ↦ false | some _ ↦ true ]

unfoldable pub set_block_index : Store → ℕ → ℕ → Store
set_block_index s atropos n = record s { block_index = insert atropos n s.block_index }
