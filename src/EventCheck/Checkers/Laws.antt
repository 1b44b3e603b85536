-- ===== src/EventCheck/Checkers/Laws.antt =====
-- What an event that passes all checks may have used.
use go_opera.Base.{ℕ, ◌+◌, List, [], ◌∷◌, ◌≡◌, refl, Option, some, get_elem?, arith}
use go_opera.Base.{ok, ◌>>◌, Check, >>-eq-ok, >>=-eq-ok}
use go_opera.Base.{◌<◌, true, some-injective}
use go_opera.Inter.Event.{Event}
use go_opera.EventCheck.Basic.Mps
use go_opera.EventCheck.Basic.Limits.{validate-gas}
use go_opera.EventCheck.Epoch
use go_opera.EventCheck.GasPower
use go_opera.EventCheck.GasPower.Bounds.{WithinRate, validate_conserves}
use go_opera.EventCheck.Checkers.{Environment, validate, validate_parents, self_parent_of}
use mathlib.Core.Path.{subst}

self_parent_of-some :
    (e : Event) (parents : List Event) (id : ℕ) (p : Option Event)
    → e.self_parent ≡ some id
    → self_parent_of e parents ≡ ok p
    → (q : Event) × (get_elem? parents 0 ≡ some q) × (p ≡ some q)
unfolding self_parent_of
self_parent_of-some e [] id p has h = absurd (ground arith)
self_parent_of-some e (q ∷ parents) id p has h = (q, refl, ground arith)

validate_parents-time :
    (base : Event → List Event → Check) (e q : Event) (parents : List Event) (id : ℕ)
    → e.self_parent ≡ some id
    → get_elem? parents 0 ≡ some q
    → validate_parents base e parents ≡ ok tt
    → (q.creation_time < e.creation_time) × (e.is_self_parent q.id ≡ true)
unfolding validate_parents
validate_parents-time base e q [] id has found h = absurd (cc)
validate_parents-time base e q (r ∷ parents) id has found h =
    subst (λ z. (z.creation_time < e.creation_time) × (e.is_self_parent z.id ≡ true))
      (some-injective found) (ground arith, ground arith)

-- An event with a self-parent that passes all checks was created after it, and spends no gas from
-- nothing: for the short and for the long term, what it has left and what it used are together at
-- most what its self-parent, the first of its parents, had left and the allocation of the
-- validator's rate for the time since, and at most the rate's maximum. None of the sums wraps.
pub accepted_event_conserves :
    (env : Environment) (e : Event) (parents : List Event) (id : ℕ)
    → e.self_parent ≡ some id
    → validate env e parents ≡ ok tt
    → (p : Event) × (get_elem? parents 0 ≡ some p)
      × (e.is_self_parent p.id ≡ true)
      × (p.creation_time < e.creation_time)
      × WithinRate e p env.gas_power env.gas_power.short_config
          (e.gas_power_left.short + e.gas_power_used)
      × WithinRate e p env.gas_power env.gas_power.long_config
          (e.gas_power_left.long + e.gas_power_used)
unfolding validate
accepted_event_conserves env e parents id has h =
    let ((_, basic), h1) = >>-eq-ok (Mps.validate env.gas_params env.base_basic e) _ h in
    let (_, h2) = >>-eq-ok (Epoch.validate env.base_epoch env.rules env.epoch e) _ h1 in
    let ((_, times), h3) = >>-eq-ok (validate_parents env.base_parents e parents) _ h2 in
    let (o, known, h4) =
      >>=-eq-ok (self_parent_of e parents) (λ o. GasPower.validate env.gas_power e o >> env.heavy e)
        h3 in
    let (p, found, is_p) = self_parent_of-some e parents id o has known in
    let ((_, gas), _) = >>-eq-ok (GasPower.validate env.gas_power e o) _ h4 in
    let (short, long) = validate-gas env.gas_params env.base_basic e basic in
    let (later, is_self_parent) =
      validate_parents-time env.base_parents e p parents id has found times in
    let (within_short, within_long) =
      validate_conserves env.gas_power e p id has short long
        (subst (λ o. GasPower.validate env.gas_power e o ≡ ok tt) is_p gas) in
    (p, found, is_self_parent, later, within_short, within_long)
