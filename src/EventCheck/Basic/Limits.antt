-- ===== src/EventCheck/Basic/Limits.antt =====
-- What the basic check accepts.
use go_opera.Base.{ℕ, ◌+◌, ◌-◌, ◌<◌, ◌≤◌, Bool, true, ◌≡◌, ◌≢◌, ◌↔◌, ◌⊎◌, arith, length}
use go_opera.Base.{ok, fail_if-ok, >>-eq-ok, leb, max_int64, IsU64, Error}
use go_opera.Base.{nat_bne, ◌||◌, Check}
use go_opera.Inter.Llr.{LlrBlockVotes}
use go_opera.Inter.GasPowerLeft.{GasPowerLeft, max}
use go_opera.Inter.Event.{Event}
use go_opera.EventCheck.Basic.{GasParams, check_bvs}
use go_opera.EventCheck.Basic.Mps.{validate}

-- Block votes within the limits: either none at all, or votes of a past or present epoch for
-- blocks from a number on.
pub record BlockVotesWithin (event_epoch : ℕ) (bvs : LlrBlockVotes) (greedy : Bool) : Type 0 where
  pub epoch : bvs.epoch ≤ event_epoch
  pub small_start : bvs.start < 4611686018427387903
  pub small_epoch : bvs.epoch < 2147483646
  pub few : length bvs.votes ≤ 64
  pub all_or_nothing :
      ((bvs.start ≡ 0) × (length bvs.votes ≡ 0) × (bvs.epoch ≡ 0))
      ⊎ ((bvs.start ≢ 0) × (length bvs.votes ≢ 0) × (bvs.epoch ≢ 0))
  pub not_empty : greedy ≡ true → bvs.epoch ≢ 0

within :
    (event_epoch : ℕ) (bvs : LlrBlockVotes) (greedy : Bool)
    → check_bvs event_epoch bvs greedy ≡ ok tt
    → BlockVotesWithin event_epoch bvs greedy
unfolding check_bvs
within event_epoch bvs greedy h = record {
  epoch = ground arith;
  small_start = ground arith;
  small_epoch = ground arith;
  few = ground arith;
  all_or_nothing = ground arith;
  not_empty = ground arith;
}

accepted :
    (event_epoch : ℕ) (bvs : LlrBlockVotes) (greedy : Bool)
    → BlockVotesWithin event_epoch bvs greedy
    → check_bvs event_epoch bvs greedy ≡ ok tt
unfolding check_bvs
accepted event_epoch bvs greedy w =
    ground (arith, w.epoch, w.small_start, w.small_epoch, w.few, w.all_or_nothing, w.not_empty)

-- Block votes pass their check exactly if they are within the limits.
pub check_bvs_iff :
    (event_epoch : ℕ) (bvs : LlrBlockVotes) (greedy : Bool)
    → (check_bvs event_epoch bvs greedy ≡ ok tt) ↔ BlockVotesWithin event_epoch bvs greedy
check_bvs_iff event_epoch bvs greedy =
    (within event_epoch bvs greedy, accepted event_epoch bvs greedy)

max-ge : (g : GasPowerLeft) → (g.short ≤ max g) × (g.long ≤ max g)
unfolding max
max-ge g = (ground arith, ground arith)

-- What the check says of the gas of an event.
pub validate-gas :
    (g : GasParams) (base_validate : Event → Check) (e : Event)
    → validate g base_validate e ≡ ok tt
    → IsU64 (e.gas_power_left.short + e.gas_power_used)
      × IsU64 (e.gas_power_left.long + e.gas_power_used)
unfolding validate
validate-gas g base_validate e h =
    let (_, h1) = fail_if-ok (nat_bne e.net_fork_id 0) Error.wrong_net_fork_id _ h in
    let (_, h2) = >>-eq-ok (base_validate e) _ h1 in
    let (small, _) =
      fail_if-ok
        (leb (max_int64 - 1) e.gas_power_used || leb (max_int64 - 1) (max e.gas_power_left))
        Error.huge_value _ h2 in
    let (short, long) = max-ge e.gas_power_left in (ground arith, ground arith)
