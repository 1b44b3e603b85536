-- ===== src/Gossip/BlockProc/Events.antt =====
-- gossip/blockproc/eventmodule/confirmed_events_processor.go: the confirmed events of a block
-- update the states of their validators.
pub mod Laws
pub mod Block
pub mod Updates
pub mod Final
use go_opera.Base.{ℕ, zero, suc, ◌+◌, ◌-◌, List, [], ◌∷◌, Bool, true, false}
use go_opera.Base.{if◌then◌else◌, leb, ltb, u64, sub64, length, get_elem?, set, replicate}
use go_opera.Base.{Option, some, none, Result, ok, ◌>>=◌, expect}
use go_opera.Inter.Event.{Event}
use go_opera.Inter.BlockProc.{BlockCtx, BlockState, EpochState, ValidatorBlockState, EventInfo}

-- `inter.MaxTimestamp`
abbrev pub max_timestamp : ℕ → ℕ → ℕ
max_timestamp x y = if ltb y x then x else y

-- `ValidatorEventsProcessor`
pub record Processor : Type 0 where
  pub es : EpochState
  pub bs : BlockState
  pub validator_highest_events : List (Option Event)

unfoldable pub start : BlockState → EpochState → Processor
start bs es = record {
  es = es;
  bs = bs;
  validator_highest_events = replicate es.validators.len none;
}

-- `prev == nil || e.Seq() > prev.Seq()`
abbrev pub is_higher : Event → Option Event → Bool
is_higher e none = true
is_higher e (some prev) = ltb prev.seq e.seq

unfoldable pub process_confirmed_event : Processor → Event → Result Processor
process_confirmed_event p e = do
  let creator_idx = p.es.validators.get_idx e.creator
  prev ← expect (get_elem? p.validator_highest_events creator_idx)
  ok (record p {
    validator_highest_events =
        if is_higher e prev
        then set p.validator_highest_events creator_idx (some e)
        else p.validator_highest_events;
    bs = record p.bs { epoch_gas = u64 (p.bs.epoch_gas + e.gas_power_used) };
  })

-- `validatorHighestEvents[GetIdx(v)] = nil` for each cheater.
unfoldable pub drop_cheaters : (ℕ → ℕ) → List ℕ → List (Option Event) → Result (List (Option Event))
drop_cheaters get_idx [] events = ok events
drop_cheaters get_idx (v ∷ cheaters) events = do
  _ ← expect (get_elem? events (get_idx v))
  drop_cheaters get_idx cheaters (set events (get_idx v) none)

-- The state of a validator after its highest event of the block.
unfoldable pub after_event :
    EpochState → BlockCtx → ValidatorBlockState → Event → ValidatorBlockState
after_event es block info e =
    let prev_online_time =
      if es.rules.upgrades.berlin
      then max_timestamp info.last_online_time es.epoch_start
      else info.last_online_time in
    let uptime =
      if leb block.idx (u64 (info.last_block + es.rules.economy.block_missed_slack))
      then (if ltb prev_online_time e.median_time
          then u64 (info.uptime + (e.median_time - prev_online_time))
          else info.uptime)
      else info.uptime in
    record info {
      uptime = uptime;
      last_gas_power_left = e.gas_power_left;
      last_online_time = e.median_time;
      last_block = block.idx;
      last_event = record { id = e.id; gas_power_left = e.gas_power_left; time = e.median_time };
    }

-- The second loop of `Finalize`, from index `i` on.
unfoldable pub finalize_from :
    EpochState
    → BlockCtx
    → ℕ
    → List (Option Event)
    → List ValidatorBlockState
    → Result (List ValidatorBlockState)
finalize_from es block i [] states = ok states
finalize_from es block i (none ∷ events) states = finalize_from es block (suc i) events states
finalize_from es block i (some e ∷ events) states = do
  info ← expect (get_elem? states i)
  finalize_from es block (suc i) events (set states i (after_event es block info e))

unfoldable pub finalize : Processor → BlockCtx → Result BlockState
finalize p block = do
  events ← drop_cheaters p.es.validators.get_idx p.bs.epoch_cheaters p.validator_highest_events
  states ← finalize_from p.es block 0 events p.bs.validator_states
  ok (record p.bs { validator_states = states })
