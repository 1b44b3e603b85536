-- ===== src/EventCheck/GasPower/Bounds.antt =====
-- What an accepted event may have used: never more than its validator had and was allocated since.
use go_opera.Base.{ok-injective}
use go_opera.Base.{ℕ, ◌+◌, ◌-◌, ◌*◌, ◌/◌, ◌≤◌, Bool, true, false, ◌≡◌, sym, arith}
use go_opera.Base.{if◌then◌else◌, ltb, nat_bne, u64, Option, some}
use go_opera.Base.{Result, ok, err, panic, ◌>>=◌, ◌>>◌, fail_if, IsU64, is_none, >>=-eq-ok}
use go_opera.Base.{Error, ap, ◌∙◌}
use native.Mathlib.Nat.{mod-eq_of_lt}
use go_opera.Inter.GasPowerLeft.{GasPowerLeft, gas_at}
use go_opera.Inter.Event.{Event}
use go_opera.EventCheck.GasPower.{
  PerSec, Config, ValidationContext, second, gas_power_at, calc_validator_gas_power_per_sec,
  calc_validator_gas_power, prev_gas_and_time, calc_gas_power_of, calc_gas_power, validate,
}

-- What the elapsed time gives at a rate.
abbrev pub allocated : PerSec → (e_time prev_time : ℕ) → ℕ
allocated rate e_time prev_time = (e_time - prev_time) * rate.per_sec / second

-- A gas power within what the validator's rate allows after the self-parent `p`.
pub record WithinRate (e p : Event) (ctx : ValidationContext) (config : Config) (g : ℕ)
    : Type 0 where
  pub rate : PerSec
  pub known : calc_validator_gas_power_per_sec e.creator ctx.validators config ≡ ok rate
  pub le_max : g ≤ rate.max_gas_power
  pub le_sum : g ≤ gas_at p.gas_power_left config.idx + allocated rate e.median_time p.median_time

elapsed :
    (e_time prev_time : ℕ)
    → e_time - (if ltb e_time prev_time then e_time else prev_time) ≡ e_time - prev_time
elapsed e_time prev_time = ground arith

-- The gas power is at most the maximum, and at most what there was and what was allocated since,
-- whether or not the sum wraps around.
gas_power_at-le :
    (rate : PerSec) (e_time prev_time prev_gas : ℕ)
    → (gas_power_at rate false e_time prev_time prev_gas ≤ rate.max_gas_power)
      × (gas_power_at rate false e_time prev_time prev_gas
          ≤ prev_gas + allocated rate e_time prev_time)
unfolding gas_power_at
gas_power_at-le rate e_time prev_time prev_gas =
    rw (elapsed e_time prev_time, gas_power_at) (ground arith, ground arith)

prev_gas_and_time_eq :
    (e p : Event) (ctx : ValidationContext) (config : Config) (id : ℕ)
    → e.self_parent ≡ some id
    → prev_gas_and_time e (some p) ctx config
      ≡ ok (gas_at p.gas_power_left config.idx, p.median_time)
unfolding prev_gas_and_time
prev_gas_and_time_eq e p ctx config id h = ground arith

has_self_parent : (o : Option ℕ) (id : ℕ) → o ≡ some id → is_none o ≡ false
has_self_parent o id h = ground arith

calc_gas_power_of_eq :
    (e p : Event) (ctx : ValidationContext) (config : Config) (id : ℕ)
    → e.self_parent ≡ some id
    → calc_gas_power_of e (some p) ctx config ≡ (
        calc_validator_gas_power_per_sec e.creator ctx.validators config >>= λ rate.
        ok (
          gas_power_at rate false e.median_time p.median_time (gas_at p.gas_power_left config.idx)))
unfolding calc_gas_power_of calc_validator_gas_power
calc_gas_power_of_eq e p ctx config id has_parent =
    rw (prev_gas_and_time_eq e p ctx config id has_parent)
      (rw (has_self_parent e.self_parent id has_parent))

-- The gas power of an event with a self-parent lies within what its validator's rate allows.
calc_gas_power_of-le :
    (e p : Event) (ctx : ValidationContext) (config : Config) (id g : ℕ)
    → e.self_parent ≡ some id
    → calc_gas_power_of e (some p) ctx config ≡ ok g
    → WithinRate e p ctx config g
calc_gas_power_of-le e p ctx config id g has_parent h =
    let (rate, known, same) =
      >>=-eq-ok _ _ (sym (calc_gas_power_of_eq e p ctx config id has_parent) ∙ h) in
    let (max, sum) =
      gas_power_at-le rate e.median_time p.median_time (gas_at p.gas_power_left config.idx) in
    record {
      rate = rate;
      known = known;
      le_max = rw (sym (ok-injective same)) max;
      le_sum = rw (sym (ok-injective same)) sum;
    }

-- A check of two results against two expected values passes only if they are those.
validate_inv_go :
    (b : Bool) (x : Error) (m n : Result ℕ) (short long : ℕ)
    → (do
      fail_if b x
      s ← m
      l ← n
      fail_if (nat_bne short s) Error.wrong_gas_power_left
      fail_if (nat_bne long l) Error.wrong_gas_power_left)
      ≡ ok tt
    → (m ≡ ok short) × (n ≡ ok long)
validate_inv_go false x (ok s) (ok l) short long h = ground arith
validate_inv_go true x m n short long h = cc
validate_inv_go false x (err y) n short long h = cc
validate_inv_go false x panic n short long h = cc
validate_inv_go false x (ok s) (err y) short long h = cc
validate_inv_go false x (ok s) panic short long h = cc

reassociate :
    (b : Bool) (x : Error) (m n : Result ℕ) (k : GasPowerLeft → Result (Unit {0}))
    → ((do fail_if b x; s ← m; l ← n; ok (record { short = s; long = l })) >>= k) ≡ ok tt
    → (do fail_if b x; s ← m; l ← n; k (record { short = s; long = l })) ≡ ok tt
reassociate b x m n k h = ground arith

validate_inv :
    (ctx : ValidationContext) (e : Event) (self_parent : Option Event)
    → validate ctx e self_parent ≡ ok tt
    → (calc_gas_power_of e self_parent ctx ctx.short_config
        ≡ ok (u64 (e.gas_power_left.short + e.gas_power_used)))
      × (calc_gas_power_of e self_parent ctx ctx.long_config
          ≡ ok (u64 (e.gas_power_left.long + e.gas_power_used)))
unfolding validate calc_gas_power
validate_inv ctx e self_parent h =
    validate_inv_go (nat_bne ctx.epoch e.epoch) Error.not_relevant _ _ _ _ (
      reassociate (nat_bne ctx.epoch e.epoch) Error.not_relevant
        (calc_gas_power_of e self_parent ctx ctx.short_config)
        (calc_gas_power_of e self_parent ctx ctx.long_config)
        (λ x.
          fail_if (nat_bne (u64 (e.gas_power_left.short + e.gas_power_used)) x.short)
            Error.wrong_gas_power_left
          >> fail_if (nat_bne (u64 (e.gas_power_left.long + e.gas_power_used)) x.long)
              Error.wrong_gas_power_left)
        h)

-- An accepted event with a self-parent spends no gas from nothing: for the short and for the long
-- term, what it has left and what it used are together at most what its self-parent had left and
-- the allocation of the validator's rate for the time since, and at most the rate's maximum. The
-- sums of the event must fit 64 bits, which the basic check makes sure of.
pub validate_conserves :
    (ctx : ValidationContext) (e p : Event) (id : ℕ)
    → e.self_parent ≡ some id
    → IsU64 (e.gas_power_left.short + e.gas_power_used)
    → IsU64 (e.gas_power_left.long + e.gas_power_used)
    → validate ctx e (some p) ≡ ok tt
    → WithinRate e p ctx ctx.short_config (e.gas_power_left.short + e.gas_power_used)
      × WithinRate e p ctx ctx.long_config (e.gas_power_left.long + e.gas_power_used)
validate_conserves ctx e p id has_parent fits_short fits_long h =
    let (short, long) = validate_inv ctx e (some p) h in
    (
      calc_gas_power_of-le e p ctx ctx.short_config id _ has_parent
          (short ∙ ap ok (mod-eq_of_lt fits_short)),
      calc_gas_power_of-le e p ctx ctx.long_config id _ has_parent
          (long ∙ ap ok (mod-eq_of_lt fits_long)),
    )
