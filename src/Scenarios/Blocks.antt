-- ===== src/Scenarios/Blocks.antt =====
-- The events of a block, and the end of an epoch.
use go_opera.Base.{ℕ, ◌-◌, ◌≤◌, List, [], ◌∷◌, true, false, ◌≡◌, refl, arith, ◌↔◌, ◌⊎◌}
use go_opera.Base.{none, Result, ok, err, panic}
use go_opera.Pos.{Validators}
use go_opera.Inter.Event.{Event}
use go_opera.Inter.BlockProc.{BlockCtx, BlockState, EpochState}
use go_opera.Gossip.BlockProc.Events
use go_opera.Gossip.BlockProc.Events.{Processor, finalize}
use go_opera.Gossip.BlockProc.Events.Block.{process_events}
use go_opera.Gossip.BlockProc.Events.Final.{BlockFinalized, finalize-process_events}
use go_opera.Gossip.BlockProc.Sealer
use go_opera.Gossip.BlockProc.Sealer.{Sealer, seal_epoch, epoch_sealing, states_from, next_states}
use go_opera.Gossip.BlockProc.Sealer.States.{IsSealable}
use go_opera.Gossip.BlockProc.Sealer.Laws.{
  EpochSealed, seal_epoch_lem, epoch_sealing-seal_epoch, seal_epoch-IsSealable,
}
use go_opera.Scenarios.{group, group-IsGroup, block_state, epoch_state}

-- An event of a validator with nothing but its sequence number, gas and time.
abbrev pub event : (creator seq gas time : ℕ) → Event
event creator seq gas time = record {
  id = seq;
  epoch = 1;
  seq = seq;
  creator = creator;
  parents = [];
  self_parent = none;
  is_self_parent = λ id. false;
  version = 1;
  net_fork_id = 0;
  creation_time = time;
  median_time = time;
  extra = [];
  gas_power_left = record { short = 50; long = 50 };
  gas_power_used = gas;
  hash_to_sign = 0;
  payload_hash = 0;
  sig = [];
  txs = [];
  epoch_vote = record { epoch = 0; vote = 0 };
  block_votes = record { start = 0; epoch = 0; votes = [] };
  misbehaviour_proofs = [];
}

abbrev block : BlockCtx
block = record { idx = 7; time = 110; atropos = 67 }

-- Two events of validator 1, one of 2, and one of the cheater 3.
abbrev events : List Event
events = event 1 1 10 100 ∷ event 1 2 10 105 ∷ event 2 1 10 103 ∷ event 3 1 10 102 ∷ []

finalize-process_events_example :
    (p : Processor) × (bs' : BlockState) × (process_events
        (Events.start block_state epoch_state)
        events
      ≡ ok p)
    × (finalize p block ≡ ok bs')
    × BlockFinalized block_state epoch_state block events bs'
finalize-process_events_example =
    finalize-process_events block_state epoch_state block events refl (omega arith)
      (omega arith, (omega arith, (omega arith, (omega arith, tt)))) (omega arith, tt)

-- The builder gives the group of before.
abbrev build : List (ℕ × ℕ) → Validators
build weights = group

abbrev sealer : Sealer
sealer = record { block = block; es = epoch_state; bs = block_state }

sealer-IsSealable : IsSealable sealer
sealer-IsSealable = record { group = group-IsGroup; states = refl }

seal_epoch_lem_example :
    (bs : BlockState) × (es : EpochState) × (seal_epoch build sealer ≡ ok (bs, es))
    × EpochSealed build sealer bs es
seal_epoch_lem_example = seal_epoch_lem build sealer sealer-IsSealable

abbrev or_else :
    Result (BlockState × EpochState) → BlockState × EpochState → BlockState × EpochState
or_else (ok p) q = p
or_else (err e) q = q
or_else panic q = q

abbrev states : BlockState × EpochState
states = or_else (seal_epoch build sealer) (block_state, epoch_state)

sealed : seal_epoch build sealer ≡ ok states
unfolding seal_epoch states_from next_states
sealed = refl

abbrev next_block : BlockCtx
next_block = record { idx = 8; time = 120; atropos = 68 }

epoch_sealing-seal_epoch_example :
    (epoch_sealing (Sealer.start next_block states.0 states.1) ≡ true) ↔ (
      (states.1.rules.epochs.max_epoch_gas ≡ 0)
      ⊎ ((states.1.rules.epochs.max_epoch_duration ≤ next_block.time - sealer.block.time)
          ⊎ (2 ≤ sealer.bs.advance_epochs)))
epoch_sealing-seal_epoch_example =
    epoch_sealing-seal_epoch build sealer next_block states.0 states.1 sealer-IsSealable sealed
      (omega arith) (omega arith)

seal_epoch-IsSealable_example : IsSealable (Sealer.start next_block states.0 states.1)
seal_epoch-IsSealable_example =
    seal_epoch-IsSealable build sealer next_block states.0 states.1 sealer-IsSealable group-IsGroup
      sealed
