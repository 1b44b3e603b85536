-- ===== src/Gossip/Llr/Handlers.antt =====
-- The handlers of gossip/c_llr_callbacks.go. Each is given the store and returns the store after
-- it, or an error; the store of a handler that fails is the one that it was given.
pub mod Votes
pub mod EpochVotes
pub mod Records
use go_opera.Base.{ℕ, zero, suc, ◌+◌, ◌-◌, List, [], ◌∷◌, ◌++◌, Bool, true, false, not, ◌&&◌, map}
use go_opera.Base.{if◌then◌else◌, leb, ltb, nat_beq, nat_bne, u32, u64, sub32, length}
use go_opera.Base.{
  Option, some, none, Result, ok, err, ◌>>=◌, ◌>>◌, fail_if, Error, is_some, expect_or,
}
use go_opera.Opera.{Upgrades}
use go_opera.Opera.Driver.{Log, DriverAbi}
use go_opera.Pos.{Validators}
use go_opera.Inter.Llr.{LlrSignedBlockVotes, LlrSignedEpochVote, last_block}
use go_opera.Inter.BlockProc.{BlockState, EpochState}
use go_opera.Gossip.Store.{
  Store, EvmWrite, set_tx, set_tx_position, set_raw_receipts, index_logs, set_block_votes,
  has_block_votes, set_epoch_vote, has_epoch_vote, get_llr_block_result, get_llr_epoch_result,
  get_history_epoch_state, has_history_block_epoch_state, set_history_block_epoch_state, get_block,
  set_block, has_block, set_block_index, set_epoch_block, add_upgrade_height,
}
use go_opera.Gossip.Llr.{
  Hashing, FullBlockRecord, FullEpochRecord, Receipt, process_votes_from, process_raw_epoch_vote,
  raise_last, actualize_lowest_index,
}
use go_opera.Gossip.VerWatcher.{on_new_log}

unfoldable pub process_block_votes : Hashing → Store → LlrSignedBlockVotes → Result Store
process_block_votes h s bvs =
    let id = h.locator_id bvs.signed.locator in
    let last = last_block bvs.val in
    let vid = bvs.signed.locator.creator in
    let counted : Result Store = (do
      fail_if (has_block_votes s bvs.val.epoch last id) Error.already_processed_bvs
      es ← expect_or Error.unknown_epoch_bvs (get_history_epoch_state s bvs.signed.locator.epoch)
      fail_if (not (es.validators.exists vid)) Error.validator_not_exist
      s' ←
          process_votes_from s bvs.val.start bvs.val.epoch bvs.val.votes (es.validators.get_idx vid)
            es.validators
      let s'' : Store = set_block_votes s' id bvs
      ok (record s'' { last_bvs = raise_last s''.last_bvs vid last })) in
    if nat_beq (length bvs.val.votes) 0 then ok s else counted

unfoldable pub process_epoch_vote : Hashing → Store → LlrSignedEpochVote → Result Store
process_epoch_vote h s ev =
    let id = h.locator_id ev.signed.locator in
    let vid = ev.signed.locator.creator in
    let counted : Result Store = (do
      fail_if (has_epoch_vote s ev.val.epoch id) Error.already_processed_ev
      es ← expect_or Error.unknown_epoch_ev (get_history_epoch_state s (sub32 ev.val.epoch 1))
      fail_if (not (es.validators.exists vid)) Error.validator_not_exist
      s' ←
          process_raw_epoch_vote s ev.val.epoch ev.val.vote (es.validators.get_idx vid)
            es.validators
      let s'' : Store = set_epoch_vote s' id ev
      ok (record s'' { last_evs = raise_last s''.last_evs vid ev.val.epoch })) in
    if nat_beq ev.val.epoch 0 then ok s else counted

-- Both loops over `br.Txs`, the receipts between them.
abbrev tx_bodies : List ℕ → List EvmWrite
tx_bodies txs = map set_tx txs

tx_places : ℕ → ℕ → List ℕ → List EvmWrite
tx_places block i [] = []
tx_places block i (tx ∷ txs) =
    set_tx tx ∷ set_tx_position tx block (u32 i) ∷ tx_places block (i + 1) txs

-- `indexRawReceipts`, if there are receipts.
receipt_writes : Hashing → FullBlockRecord → List EvmWrite
receipt_writes h br =
    if nat_beq (length br.receipts) 0
    then []
    else set_raw_receipts br.idx (map (λ r. r.id) br.receipts)
      ∷ map (λ r. index_logs r.id) (h.unwrap_receipts br.receipts)

unfoldable pub write_full_block_record : Hashing → Store → FullBlockRecord → Store
unfolding tx_places receipt_writes
write_full_block_record h s br =
    let s1 : Store = record s {
      evm = s.evm ++ (tx_bodies br.txs ++ (receipt_writes h br ++ tx_places br.idx 0 br.txs));
    } in
    set_block_index
      (set_block s1 br.idx (record {
        time = br.time;
        atropos = br.atropos;
        events = [];
        txs = br.txs;
        internal_txs = [];
        skipped_txs = [];
        gas_used = br.gas_used;
        root = br.root;
      }))
      br.atropos br.idx

-- `verWatcher.OnNewLog` on each log of each receipt.
unfoldable pub watch_logs : DriverAbi → ℕ → List Log → Result ℕ
watch_logs abi version [] = ok version
watch_logs abi version (l ∷ logs) = do
  version' ← on_new_log abi version l
  watch_logs abi version' logs

unfoldable pub watch_receipts : DriverAbi → ℕ → List Receipt → Result ℕ
watch_receipts abi version [] = ok version
watch_receipts abi version (r ∷ receipts) = do
  version' ← watch_logs abi version r.logs
  watch_receipts abi version' receipts

unfoldable pub update_lowest_block_to_fill : Store → ℕ → Store
update_lowest_block_to_fill s block = record s {
  llr_state = record s.llr_state {
    lowest_block_to_fill =
        actualize_lowest_index (suc (length s.blocks)) s.llr_state.lowest_block_to_fill block
          (λ u. is_some (get_block s u));
  };
}

unfoldable pub update_lowest_epoch_to_fill : Store → ℕ → Store
update_lowest_epoch_to_fill s epoch = record s {
  llr_state = record s.llr_state {
    lowest_epoch_to_fill = u32 (
        actualize_lowest_index (suc (length s.history)) s.llr_state.lowest_epoch_to_fill epoch
          (λ u. has_history_block_epoch_state s (u32 u)));
  };
}

-- The `DriverAbi` is `none` where the service has no version watcher.
unfoldable pub process_full_block_record :
    Hashing → Option DriverAbi → Store → FullBlockRecord → Result Store
process_full_block_record h watcher s br = do
  fail_if (has_block s br.idx) Error.already_processed_br
  res ← expect_or Error.undecided_br (get_llr_block_result s br.idx)
  fail_if (nat_bne (h.block_record_hash br) res) Error.br_hash_mismatch
  let s1 : Store = write_full_block_record h s br
  version ← elim watcher [
    | none ↦ ok s1.network_version
    | some abi ↦ watch_receipts abi s1.network_version br.receipts
  ]
  ok (update_lowest_block_to_fill (record s1 { network_version = version }) br.idx)

unfoldable pub write_full_epoch_record : Store → FullEpochRecord → Store
write_full_epoch_record s er =
    set_epoch_block (set_history_block_epoch_state s er.idx er.block_state er.epoch_state)
      (u64 (er.block_state.last_block.idx + 1)) er.idx

abbrev same_flag : Bool → Bool → Bool
same_flag true b = b
same_flag false b = not b

abbrev upgrades_eq : Upgrades → Upgrades → Bool
upgrades_eq a b =
    same_flag a.berlin b.berlin && (same_flag a.london b.london && same_flag a.llr b.llr)

unfoldable pub write_upgrade_height : Store → BlockState → EpochState → Option EpochState → Store
write_upgrade_height s bs es prev_es =
    let added =
      add_upgrade_height s
        (record { upgrades = es.rules.upgrades; height = u64 (bs.last_block.idx + 1) }) in
    elim prev_es [
      | none ↦ added
      | some prev ↦ if upgrades_eq es.rules.upgrades prev.rules.upgrades then s else added
    ]

unfoldable pub process_full_epoch_record : Hashing → Store → FullEpochRecord → Result Store
process_full_epoch_record h s er = do
  fail_if (has_history_block_epoch_state s er.idx) Error.already_processed_er
  res ← expect_or Error.undecided_er (get_llr_epoch_result s er.idx)
  fail_if (nat_bne (h.epoch_record_hash er) res) Error.er_hash_mismatch
  let s1 : Store = write_full_epoch_record s er
  let prev : Option EpochState = get_history_epoch_state s1 (sub32 er.epoch_state.epoch 1)
  let s2 : Store = write_upgrade_height s1 er.block_state er.epoch_state prev
  ok (update_lowest_epoch_to_fill s2 er.idx)
