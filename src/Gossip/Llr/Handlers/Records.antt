-- ===== src/Gossip/Llr/Handlers/Records.antt =====
-- What `ProcessFullBlockRecord` and `ProcessFullEpochRecord` promise: only a decided record is
-- written, once.
use go_opera.Base.{ok-injective}
use go_opera.Base.{ℕ, ◌≤◌, [], Bool, true, false, ◌≡◌, ◌≢◌, refl, sym}
use go_opera.Base.{if◌then◌else◌, nat_beq, nat_bne, nat_beq_iff, sub32, arith, ◌∙◌, ap}
use go_opera.Base.{Option, some, none, Result, ok, err, ◌>>=◌, ◌>>◌, fail_if, Error}
use go_opera.Base.{expect_or, lookup, lookup-insert, nat_eq, >>=-eq-ok, fail_if-ok}
use go_opera.Pos.{Validators, IsGroup}
use go_opera.Opera.Driver.{DriverAbi}
use go_opera.Inter.BlockProc.{BlockState, EpochState}
use go_opera.Gossip.Store.{
  Store, Block, set_block, has_block, set_block_index, get_llr_block_result, get_llr_epoch_result,
  has_history_block_epoch_state, set_history_block_epoch_state, BlockEpochState, add_upgrade_height,
  get_history_epoch_state, set_epoch_block,
}
use go_opera.Gossip.Llr.{Hashing, FullBlockRecord, FullEpochRecord}
use go_opera.Gossip.Llr.Handlers.{
  process_full_block_record, write_full_block_record, update_lowest_block_to_fill, watch_receipts,
  process_full_epoch_record, write_full_epoch_record, write_upgrade_height,
  update_lowest_epoch_to_fill,
}
use go_opera.Gossip.Llr.Voting.{quorum, key_of}
use go_opera.Gossip.Llr.Runs.{IsStart, Run-decides, ballot_weight}
use go_opera.Gossip.Llr.Ballots.{Run, ballots}
use mathlib.Core.Path.{subst}

nat_bne-false : (a b : ℕ) → nat_bne a b ≡ false → a ≡ b
nat_bne-false a b h = ground arith

-- The three guards of both handlers.
guards-ok :
    (b : Bool) (x y z : Error) (o : Option ℕ) (hash : ℕ) (k : Result Store) (t : Store)
    → (do fail_if b x; res ← expect_or y o; fail_if (nat_bne hash res) z; k) ≡ ok t
    → (b ≡ false) × (o ≡ some hash) × (k ≡ ok t)
guards-ok true x y z o hash k t h = cc
guards-ok false x y z none hash k t h = cc
guards-ok false x y z (some res) hash k t h =
    let (same, rest) = fail_if-ok (nat_bne hash res) z k h in
    (refl, ap some (sym (nat_bne-false hash res same)), rest)

-- The watcher's new version of the network.
abbrev pub watched : Option DriverAbi → Store → FullBlockRecord → Result ℕ
watched none s br = ok s.network_version
watched (some abi) s br = watch_receipts abi s.network_version br.receipts

-- The block of a record.
abbrev pub block_of : FullBlockRecord → Block
block_of br = record {
  time = br.time;
  atropos = br.atropos;
  events = [];
  txs = br.txs;
  internal_txs = [];
  skipped_txs = [];
  gas_used = br.gas_used;
  root = br.root;
}

-- What the acceptance of a record of a block requires and does.
pub record BlockAccepted (h : Hashing) (s : Store) (br : FullBlockRecord) (t : Store) : Type 0 where
  pub is_new : has_block s br.idx ≡ false
  pub decided : get_llr_block_result s br.idx ≡ some (h.block_record_hash br)
  pub stored : lookup br.idx t.blocks ≡ some (block_of br)
  pub others : (n : ℕ) → n ≢ br.idx → lookup n t.blocks ≡ lookup n s.blocks
  pub indexed : lookup br.atropos t.block_index ≡ some br.idx
  pub results_kept : t.block_results ≡ s.block_results

if-same : {A : Type 0} (a b : A) (n : ℕ) → (if nat_beq n n then a else b) ≡ a
if-same a b n = ground (arith, nat_beq_iff n n)

if-other : {A : Type 0} (a b : A) (n m : ℕ) → n ≢ m → (if nat_beq m n then a else b) ≡ b
if-other a b n m ne = ground (arith, nat_beq_iff m n)

accepted_store :
    (h : Hashing) (s : Store) (br : FullBlockRecord) (version : ℕ)
    → has_block s br.idx ≡ false
    → get_llr_block_result s br.idx ≡ some (h.block_record_hash br)
    → BlockAccepted h s br (
        update_lowest_block_to_fill
          (record (write_full_block_record h s br) { network_version = version })
          br.idx)
unfolding update_lowest_block_to_fill write_full_block_record set_block set_block_index
accepted_store h s br version is_new decided = record {
  is_new = is_new;
  decided = decided;
  stored = rw (lookup-insert br.idx br.idx (block_of br) s.blocks) (if-same _ _ br.idx);
  others = λ n ne. rw (lookup-insert br.idx n (block_of br) s.blocks) (if-other _ _ _ _ ne);
  indexed = ground (arith, lookup-insert br.atropos br.atropos br.idx s.block_index);
  results_kept = refl;
}

-- A record that is accepted is the decided one and the first for its block: its hash is the
-- block's result, its block is stored under its number and found by its atropos, and no other
-- block and no result changes.
pub process_full_block_record_lem :
    (h : Hashing) (watcher : Option DriverAbi) (s t : Store) (br : FullBlockRecord)
    → process_full_block_record h watcher s br ≡ ok t
    → BlockAccepted h s br t
unfolding process_full_block_record
process_full_block_record_lem h watcher s t br accepted =
    let s1 : Store = write_full_block_record h s br in
    let (is_new, decided, rest) = guards-ok (has_block s br.idx) _ _ _ _ _ _ t accepted in
    let (version, known, same) =
      >>=-eq-ok
        (elim watcher [
          | none ↦ ok s1.network_version
          | some abi ↦ watch_receipts abi s1.network_version br.receipts
        ])
        (λ version.
          ok (update_lowest_block_to_fill (record s1 { network_version = version }) br.idx))
        rest in
    subst (BlockAccepted h s br) (ok-injective same) (accepted_store h s br version is_new decided)

-- A record of a block is accepted after a run of votes only if, in some epoch, validators of more
-- than a third of the group's weight, each counted once, voted for the record's hash in that run.
pub accepted_record_is_backed :
    (h : Hashing) (watcher : Option DriverAbi) (vals : Validators) (s t u : Store)
    (br : FullBlockRecord)
    → IsGroup vals
    → IsStart vals s
    → (run : Run vals s t) → process_full_block_record h watcher t br ≡ ok u
    → (epoch : ℕ) × (quorum vals
        ≤ ballot_weight vals (ballots run) (key_of br.idx epoch (h.block_record_hash br)))
accepted_record_is_backed h watcher vals s t u br group start run accepted =
    (Run-decides vals s t group start run).0 br.idx (h.block_record_hash br)
      (process_full_block_record_lem h watcher t u br accepted).decided

has_block_of : (s : Store) (n : ℕ) {b : Block} → lookup n s.blocks ≡ some b → has_block s n ≡ true
unfolding has_block
has_block_of s n h = rw (h, has_block) refl

-- A second record of a block, whatever it holds, is refused.
pub second_block_record_is_refused :
    (h : Hashing) (watcher : Option DriverAbi) (s t : Store) (br br' : FullBlockRecord)
    → process_full_block_record h watcher s br ≡ ok t
    → br'.idx ≡ br.idx
    → process_full_block_record h watcher t br' ≡ err Error.already_processed_br
unfolding process_full_block_record
second_block_record_is_refused h watcher s t br br' accepted same =
    let done = process_full_block_record_lem h watcher s t br accepted in
    rw (has_block_of t br'.idx (ap (λ n. lookup n t.blocks) same ∙ done.stored)) refl

-- The states of a record.
abbrev pub epoch_of : FullEpochRecord → BlockEpochState
epoch_of er = record { block_state = er.block_state; epoch_state = er.epoch_state }

-- What the acceptance of a record of an epoch requires and does.
pub record EpochAccepted (h : Hashing) (s : Store) (er : FullEpochRecord) (t : Store) : Type 0 where
  pub is_new : has_history_block_epoch_state s er.idx ≡ false
  pub decided : get_llr_epoch_result s er.idx ≡ some (h.epoch_record_hash er)
  pub stored : lookup er.idx t.history ≡ some (epoch_of er)
  pub others : (n : ℕ) → n ≢ er.idx → lookup n t.history ≡ lookup n s.history
  pub current_kept : t.current ≡ s.current

write_upgrade_height_history :
    (s : Store) (bs : BlockState) (es : EpochState) (prev : Option EpochState)
    → ((write_upgrade_height s bs es prev).history ≡ s.history)
      × ((write_upgrade_height s bs es prev).current ≡ s.current)
unfolding write_upgrade_height add_upgrade_height
write_upgrade_height_history s bs es none = (refl, refl)
write_upgrade_height_history s bs es (some prev) = ground arith

-- The store that the handler leaves.
abbrev pub after_epoch_record : Store → FullEpochRecord → Store
after_epoch_record s er =
    let s1 : Store = write_full_epoch_record s er in
    update_lowest_epoch_to_fill
      (write_upgrade_height s1 er.block_state er.epoch_state
        (get_history_epoch_state s1 (sub32 er.epoch_state.epoch 1)))
      er.idx

epoch_accepted :
    (h : Hashing) (s : Store) (er : FullEpochRecord)
    → has_history_block_epoch_state s er.idx ≡ false
    → get_llr_epoch_result s er.idx ≡ some (h.epoch_record_hash er)
    → EpochAccepted h s er (after_epoch_record s er)
unfolding update_lowest_epoch_to_fill write_full_epoch_record set_epoch_block
    set_history_block_epoch_state
epoch_accepted h s er is_new decided =
    let s1 : Store = write_full_epoch_record s er in
    let (same, current) =
      write_upgrade_height_history s1 er.block_state er.epoch_state
        (get_history_epoch_state s1 (sub32 er.epoch_state.epoch 1)) in
    record {
      is_new = is_new;
      decided = decided;
      stored = rw (same, lookup-insert er.idx er.idx (epoch_of er) s.history) (if-same _ _ er.idx);
      others =
          λ n ne. rw (same, lookup-insert er.idx n (epoch_of er) s.history) (if-other _ _ _ _ ne);
      current_kept = current;
    }

-- An epoch's record that is accepted is the decided one and the first for its epoch: its hash is
-- the epoch's result, its states are the epoch's history, and no other epoch's history and not the
-- current state change.
pub process_full_epoch_record_lem :
    (h : Hashing) (s t : Store) (er : FullEpochRecord)
    → process_full_epoch_record h s er ≡ ok t
    → EpochAccepted h s er t
unfolding process_full_epoch_record
process_full_epoch_record_lem h s t er accepted =
    let (is_new, decided, same) =
      guards-ok (has_history_block_epoch_state s er.idx) _ _ _ _ _ _ t accepted in
    subst (EpochAccepted h s er) (ok-injective same) (epoch_accepted h s er is_new decided)
