-- ===== src/Gossip/BlockProc/Events/Updates.antt =====
-- gossip/blockproc/eventmodule/confirmed_events_processor.go: the state of a validator at the end of
-- a block, described without the code's own steps.
use go_opera.Base.{
  ℕ, ◌+◌, ◌-◌, ◌<◌, ◌≤◌, Bool, true, false, ◌≡◌, refl, arith, u64, ltb, if◌then◌else◌,
}
use go_opera.Base.{Option, some, none, ◌⊎◌, inl, inr, Bool-cases}
use go_opera.Inter.Event.{Event}
use go_opera.Inter.BlockProc.{BlockCtx, EpochState, ValidatorBlockState}
use go_opera.Gossip.BlockProc.Events.{after_event}
use go_opera.Gossip.BlockProc.Events.Laws.{updated, unless}

-- The time since when a validator is online: from Berlin on, not before the epoch.
pub record IsSince (es : EpochState) (info : ValidatorBlockState) (since : ℕ) : Type 0 where
  pub before_berlin : es.rules.upgrades.berlin ≡ false → since ≡ info.last_online_time
  pub from_berlin :
      es.rules.upgrades.berlin ≡ true
      → (info.last_online_time ≤ since)
        × (es.epoch_start ≤ since)
        × ((since ≡ info.last_online_time) ⊎ (since ≡ es.epoch_start))

-- `new` is the state `info` after the event `e`: the validator was last seen with the event, its
-- uptime grows by the time it was online if it missed no more blocks than the rules allow, and what
-- it is owed stays.
pub record EventTaken (es : EpochState) (block : BlockCtx) (e : Event)
    (info new : ValidatorBlockState) : Type 0 where
  pub seen_with :
      (new.last_event.id ≡ e.id)
      × (new.last_event.gas_power_left ≡ e.gas_power_left)
      × (new.last_event.time ≡ e.median_time)
  pub gas_left : new.last_gas_power_left ≡ e.gas_power_left
  pub seen_at : (new.last_online_time ≡ e.median_time) × (new.last_block ≡ block.idx)
  pub owed : (new.dirty_gas_refund ≡ info.dirty_gas_refund) × (new.originated ≡ info.originated)
  pub since : ℕ
  pub since_IsSince : IsSince es info since
  pub was_online :
      block.idx ≤ u64 (info.last_block + es.rules.economy.block_missed_slack)
      → since < e.median_time
      → new.uptime ≡ u64 (info.uptime + (e.median_time - since))
  pub was_offline :
      (u64 (info.last_block + es.rules.economy.block_missed_slack) < block.idx)
        ⊎ (e.median_time ≤ since)
      → new.uptime ≡ info.uptime

-- The state of a validator after a block, given its highest event of the block, if any.
pub data StateAfter (es : EpochState) (block : BlockCtx) (cheats : Bool) (o : Option Event)
    (info new : ValidatorBlockState) : Type 0 where
  cheater : cheats ≡ true → new ≡ info → StateAfter es block cheats o info new
  idle : cheats ≡ false → o ≡ none → new ≡ info → StateAfter es block cheats o info new
  active :
      (e : Event)
      → cheats ≡ false
      → o ≡ some e
      → EventTaken es block e info new
      → StateAfter es block cheats o info new

since_of : EpochState → ValidatorBlockState → ℕ
since_of es info =
    if es.rules.upgrades.berlin
    then (if ltb es.epoch_start info.last_online_time
        then info.last_online_time
        else es.epoch_start)
    else info.last_online_time

since_of-IsSince :
    (es : EpochState) (info : ValidatorBlockState) → IsSince es info (since_of es info)
unfolding since_of
since_of-IsSince es info = elim (Bool-cases (ltb es.epoch_start info.last_online_time)) [
  | inl later ↦ record {
    before_berlin = λ old. rw old refl;
    from_berlin = λ new. rw (new, later) (omega arith, ground arith, inl refl);
  }
  | inr earlier ↦ record {
    before_berlin = λ old. rw old refl;
    from_berlin = λ new. rw (new, earlier) (ground arith, omega arith, inr refl);
  }
]

after_event-EventTaken :
    (es : EpochState) (block : BlockCtx) (e : Event) (info : ValidatorBlockState)
    → EventTaken es block e info (after_event es block info e)
unfolding after_event since_of
after_event-EventTaken es block e info = record {
  seen_with = (refl, refl, refl);
  gas_left = refl;
  seen_at = (refl, refl);
  owed = (refl, refl);
  since = since_of es info;
  since_IsSince = since_of-IsSince es info;
  was_online = λ in_time later. ground arith;
  was_offline = λ missed. ground arith;
}

pub updated-StateAfter :
    (es : EpochState) (block : BlockCtx) (cheats : Bool) (o : Option Event)
    (info : ValidatorBlockState)
    → StateAfter es block cheats o info (updated es block (unless cheats o) info)
updated-StateAfter es block true o info = cheater refl refl
updated-StateAfter es block false none info = idle refl refl refl
updated-StateAfter es block false (some e) info =
    active e refl refl (after_event-EventTaken es block e info)
