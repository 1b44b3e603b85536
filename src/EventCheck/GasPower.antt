-- ===== src/EventCheck/GasPower.antt =====
-- eventcheck/gaspowercheck/gas_power_check.go: how much gas an event of a validator may use. Go's
-- big integers are numbers, and their division by zero is a panic.
pub mod Bounds
use go_opera.Base.{
  ℕ, ◌+◌, ◌-◌, ◌*◌, ◌/◌, ◌%◌, ◌^◌, List, Bool, true, false, if◌then◌else◌, ltb, nat_beq,
}
use go_opera.Base.{nat_bne, u64, Option, some, none, Result, ok, err, panic, ◌>>=◌, ◌>>◌, Check}
use go_opera.Base.{fail_if, Error, expect, get_elem?, is_none}
use go_opera.Pos.{Validators}
use go_opera.Inter.GasPowerLeft.{GasPowerLeft, GasConfigIdx, short_term_gas, long_term_gas, gas_at}
use go_opera.Inter.Event.{Event}
use go_opera.Inter.BlockProc.{EventInfo, EpochState}
use go_opera.Opera.{EconomyRules, GasPowerRules}

pub record ValidatorState : Type 0 where
  pub prev_epoch_event : EventInfo
  pub gas_refund : ℕ

pub record Config : Type 0 where
  pub idx : GasConfigIdx
  pub alloc_per_sec : ℕ
  pub max_alloc_period : ℕ
  pub min_ensured_alloc : ℕ
  pub startup_alloc_period : ℕ
  pub min_startup_gas : ℕ

-- `Configs` has the short-term and the long-term config.
pub record ValidationContext : Type 0 where
  pub epoch : ℕ
  pub short_config : Config
  pub long_config : Config
  pub epoch_start : ℕ
  pub validators : Validators
  pub validator_states : List ValidatorState

-- `uint64(time.Second)`, in nanoseconds.
abbrev pub second : ℕ
second = 1000000000

pub record PerSec : Type 0 where
  pub per_sec : ℕ
  pub max_gas_power : ℕ
  pub startup : ℕ

abbrev pub at_least : ℕ → ℕ → ℕ
at_least lo x = if ltb x lo then lo else x

unfoldable pub calc_validator_gas_power_per_sec : ℕ → Validators → Config → Result PerSec
calc_validator_gas_power_per_sec validator validators config =
    let stake = validators.get validator in
    let per_sec = u64 (config.alloc_per_sec * stake / validators.total_weight) in
    if nat_beq stake 0
    then ok (record { per_sec = 0; max_gas_power = 0; startup = 0 })
    else if nat_beq validators.total_weight 0
    then panic
    else ok (record {
      per_sec = per_sec;
      max_gas_power =
          at_least config.min_ensured_alloc (u64 (per_sec * (config.max_alloc_period / second)));
      startup =
          at_least config.min_startup_gas (u64 (per_sec * (config.startup_alloc_period / second)));
    })

-- The gas power once the rates are known. `first` is `e.SelfParent() == nil`.
unfoldable pub gas_power_at : PerSec → (first : Bool) → (e_time prev_time prev_gas : ℕ) → ℕ
gas_power_at rate first e_time prev_time prev_gas =
    let prev_gas' = if first then at_least rate.startup prev_gas else prev_gas in
    let prev_time' = if ltb e_time prev_time then e_time else prev_time in
    let allocated = (e_time - prev_time') * rate.per_sec / second in
    let gas_power = u64 (u64 allocated + prev_gas') in
    if ltb rate.max_gas_power gas_power then rate.max_gas_power else gas_power

unfoldable pub calc_validator_gas_power :
    Event → (e_time prev_time prev_gas : ℕ) → Validators → Config → Result ℕ
calc_validator_gas_power e e_time prev_time prev_gas validators config = do
  rate ← calc_validator_gas_power_per_sec e.creator validators config
  ok (gas_power_at rate (is_none e.self_parent) e_time prev_time prev_gas)

-- What the validator had, and since when: `selfParent` is nil where the event has none.
unfoldable pub prev_gas_and_time :
    Event → Option Event → ValidationContext → Config → Result (ℕ × ℕ)
prev_gas_and_time e self_parent ctx config = elim e.self_parent [
  | some _ ↦ do p ← expect self_parent; ok (gas_at p.gas_power_left config.idx, p.median_time)
  | none ↦ do
    st ← expect (get_elem? ctx.validator_states (ctx.validators.get_idx e.creator))
    let info = st.prev_epoch_event
    ok (
        if nat_bne info.id 0
        then (u64 (gas_at info.gas_power_left config.idx + st.gas_refund), info.time)
        else (u64 (0 + st.gas_refund), ctx.epoch_start))
]

unfoldable pub calc_gas_power_of : Event → Option Event → ValidationContext → Config → Result ℕ
unfolding prev_gas_and_time calc_validator_gas_power
calc_gas_power_of e self_parent ctx config = do
  (prev_gas, prev_time) ← prev_gas_and_time e self_parent ctx config
  calc_validator_gas_power e e.median_time prev_time prev_gas ctx.validators config

-- `CalcGasPower`
unfoldable pub calc_gas_power : ValidationContext → Event → Option Event → Result GasPowerLeft
calc_gas_power ctx e self_parent = do
  fail_if (nat_bne ctx.epoch e.epoch) Error.not_relevant
  short ← calc_gas_power_of e self_parent ctx ctx.short_config
  long ← calc_gas_power_of e self_parent ctx ctx.long_config
  ok (record { short = short; long = long })

-- `Validate`
unfoldable pub validate : ValidationContext → Event → Option Event → Check
validate ctx e self_parent = do
  gas_powers ← calc_gas_power ctx e self_parent
  fail_if (nat_bne (u64 (e.gas_power_left.short + e.gas_power_used)) gas_powers.short)
      Error.wrong_gas_power_left
  fail_if (nat_bne (u64 (e.gas_power_left.long + e.gas_power_used)) gas_powers.long)
      Error.wrong_gas_power_left

-- gossip/checker_helpers.go: the configs of the network's rules.
unfoldable pub config_of : GasConfigIdx → GasPowerRules → EconomyRules → Config
config_of i rules cfg = record {
  idx = i;
  alloc_per_sec = rules.alloc_per_sec;
  max_alloc_period = rules.max_alloc_period;
  min_ensured_alloc = cfg.gas.max_event_gas;
  startup_alloc_period = rules.startup_alloc_period;
  min_startup_gas = rules.min_startup_gas;
}
