-- ===== src/Scenarios/Records.antt =====
-- The record of the decided block, and that of an epoch.
use go_opera.Base.{ℕ, ◌≤◌, [], ◌∷◌, ◌≡◌, refl}
use go_opera.Base.{none, Result, ok, err, panic, Error, lookup, insert, nat_eq}
use go_opera.Gossip.Store.{
  Store, has_block, get_llr_block_result, set_block, set_block_index, get_llr_epoch_result,
  has_history_block_epoch_state, set_history_block_epoch_state, set_epoch_block,
  get_history_epoch_state, add_upgrade_height,
}
use go_opera.Gossip.Llr.{FullBlockRecord, FullEpochRecord}
use go_opera.Gossip.Llr.Voting.{quorum, key_of}
use go_opera.Gossip.Llr.Ballots.{ballots}
use go_opera.Gossip.Llr.Runs.{ballot_weight}
use go_opera.Gossip.Llr.Handlers.{
  process_full_block_record, write_full_block_record, update_lowest_block_to_fill,
  process_full_epoch_record, write_full_epoch_record, write_upgrade_height,
  update_lowest_epoch_to_fill,
}
use go_opera.Gossip.Llr.Handlers.Records.{
  BlockAccepted, process_full_block_record_lem, accepted_record_is_backed,
  second_block_record_is_refused, EpochAccepted, process_full_epoch_record_lem,
}
use go_opera.Scenarios.{group, group-IsGroup, empty_store, block_state, epoch_state}
use go_opera.Scenarios.Votes.{store3, empty-IsStart, run, hashing}

abbrev record1 : FullBlockRecord
record1 = record {
  idx = 1;
  atropos = 66;
  root = 77;
  txs = 500 ∷ [];
  receipts = record { id = 9; logs = [] } ∷ [];
  time = 96;
  gas_used = 21000;
}

-- Whether the store is the result.
abbrev or_else : Result Store → Store → Store
or_else (ok s) t = s
or_else (err e) t = t
or_else panic t = t

abbrev filled : Store
filled = or_else (process_full_block_record hashing none store3 record1) store3

accepted : process_full_block_record hashing none store3 record1 ≡ ok filled
unfolding process_full_block_record has_block get_llr_block_result lookup insert
    write_full_block_record set_block set_block_index update_lowest_block_to_fill
accepted = refl

process_full_block_record_lem_example : BlockAccepted hashing store3 record1 filled
process_full_block_record_lem_example =
    process_full_block_record_lem hashing none store3 filled record1 accepted

accepted_record_is_backed_example :
    (epoch : ℕ) × (quorum group ≤ ballot_weight group (ballots run) (key_of 1 epoch 77))
accepted_record_is_backed_example =
    accepted_record_is_backed hashing none group empty_store store3 filled record1 group-IsGroup
      empty-IsStart run accepted

-- The same record but for its root.
abbrev record2 : FullBlockRecord
record2 = record record1 { root = 78 }

second_block_record_is_refused_example :
    process_full_block_record hashing none filled record2 ≡ err Error.already_processed_br
second_block_record_is_refused_example =
    second_block_record_is_refused hashing none store3 filled record1 record2 accepted refl

abbrev decided_epoch : Store
decided_epoch = record empty_store { epoch_results = (2, 2) ∷ [] }

abbrev epoch_record : FullEpochRecord
epoch_record = record {
  idx = 2;
  block_state = block_state;
  epoch_state = record epoch_state { epoch = 2 };
}

abbrev epoch_filled : Store
epoch_filled = or_else (process_full_epoch_record hashing decided_epoch epoch_record) decided_epoch

epoch_accepted : process_full_epoch_record hashing decided_epoch epoch_record ≡ ok epoch_filled
unfolding process_full_epoch_record has_history_block_epoch_state get_llr_epoch_result lookup insert
    write_full_epoch_record set_history_block_epoch_state set_epoch_block get_history_epoch_state
    write_upgrade_height add_upgrade_height update_lowest_epoch_to_fill
epoch_accepted = refl

process_full_epoch_record_lem_example :
    EpochAccepted hashing decided_epoch epoch_record epoch_filled
process_full_epoch_record_lem_example =
    process_full_epoch_record_lem hashing decided_epoch epoch_filled epoch_record epoch_accepted
