-- ===== src/EventCheck/Checkers.antt =====
-- eventcheck/all.go, eventcheck/ban.go and the packages parentscheck, bvallcheck, evallcheck and
-- parentlesscheck: how the checks are composed. The base checkers and the heavy check's
-- signatures are parameters.
pub mod Laws
use go_opera.Base.{ℕ, List, [], ◌∷◌, Bool, true, false, not, if◌then◌else◌, leb, Option, some, none}
use go_opera.Base.{Result, ok, err, panic, ◌>>=◌, ◌>>◌, Check, fail_if, Error, expect, get_elem?}
use go_opera.Opera.{Rules}
use go_opera.Inter.Event.{Event}
use go_opera.EventCheck.Basic.{GasParams}
use go_opera.EventCheck.Basic.Mps
use go_opera.EventCheck.Epoch
use go_opera.EventCheck.GasPower
use go_opera.EventCheck.GasPower.{ValidationContext}

-- parentscheck.Validate
unfoldable pub validate_parents : (Event → List Event → Check) → Event → List Event → Check
validate_parents base_validate e parents =
    let self_parent_checks = (do
      self_parent ← expect (get_elem? parents 0)
      fail_if (not (e.is_self_parent self_parent.id)) Error.wrong_self_parent
      fail_if (leb e.creation_time self_parent.creation_time) Error.past_time) in
    do base_validate e parents; elim e.self_parent [ none ↦ ok tt | some _ ↦ self_parent_checks ]

-- The checks that lachesis-base implements, the heavy check, and what the readers return.
pub record Environment : Type 0 where
  pub gas_params : GasParams
  pub base_basic : Event → Check
  pub base_epoch : Event → Check
  pub base_parents : Event → List Event → Check
  pub heavy : Event → Check
  pub rules : Rules
  pub epoch : ℕ
  pub gas_power : ValidationContext

-- `selfParent` is nil, unless the event has a self-parent: then it is `parents[0]`.
unfoldable pub self_parent_of : Event → List Event → Result (Option Event)
self_parent_of e parents = elim e.self_parent [
  | none ↦ ok none
  | some _ ↦ do p ← expect (get_elem? parents 0); ok (some p)
]

-- `Checkers.Validate`
unfoldable pub validate : Environment → Event → List Event → Check
validate env e parents = do
  Mps.validate env.gas_params env.base_basic e
  Epoch.validate env.base_epoch env.rules env.epoch e
  validate_parents env.base_parents e parents
  self_parent ← self_parent_of e parents
  GasPower.validate env.gas_power e self_parent
  env.heavy e

-- Errors for which a peer is not banned.
unfoldable pub is_ban : Error → Bool
is_ban Error.not_relevant = false
is_ban Error.already_connected_event = false
is_ban Error.already_processed_bvs = false
is_ban Error.already_processed_br = false
is_ban Error.already_processed_ev = false
is_ban Error.already_processed_er = false
is_ban Error.unknown_epoch_bvs = false
is_ban Error.undecided_br = false
is_ban Error.unknown_epoch_ev = false
is_ban Error.undecided_er = false
is_ban Error.spilled_event = false
is_ban Error.duplicate_event = false
is_ban _ = true

-- `Enqueue` of parentlesscheck, bvallcheck and evallcheck: a light check, and the heavy one only
-- if it passes. The heavy check's verdict is handed to the same callback.
unfoldable pub enqueue : {A : Type 0} → (A → Check) → (A → Check) → A → Check
enqueue light heavy x = do light x; heavy x
