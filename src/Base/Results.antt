-- ===== src/Base/Results.antt =====
-- Go's `error` results and panics as values, and the errors of the modelled packages.
use Prim.Native.Nat.{ℕ}
use mathlib.Core.Path.{◌≡◌, refl, ap}
use mathlib.Core.Logic.{◌≢◌}
use mathlib.Core.Bool.{Bool, true, false}
use mathlib.Core.Option.{Option, none, some}

-- `other` stands for an error that code outside the repository returns,
-- and `out_of_fuel` is no error of the code: a loop ended that may go on in Go.
pub data Error : Type 0 where
  wrong_net_fork_id zero_time negative_value intrinsic_gas tip_above_fee_cap : Error
  wrong_mp no_crime_in_mp wrong_creator_mp mp_too_late malformed_mp : Error
  future_bvs_epoch future_ev_epoch malformed_bvs malformed_ev too_many_bvs empty_ev empty_bvs :
      Error
  huge_value not_relevant auth wrong_self_parent : Error
  too_many_parents too_big_gas_used wrong_gas_used underpriced too_big_extra wrong_version : Error
  unsupported_tx_type past_time wrong_gas_power_left gas_uint_overflow out_of_gas : Error
  wrong_event_sig malformed_tx_sig wrong_payload_hash pubkey_changed : Error
  unknown_epoch_event_locator impossible_bvs_epoch unknown_epoch_bvs unknown_epoch_ev : Error
  already_processed_bvs already_processed_br already_processed_ev already_processed_er : Error
  undecided_br undecided_er validator_not_exist br_hash_mismatch er_hash_mismatch : Error
  non_canonical_encoding malformed_encoding too_large_alloc : Error
  already_connected_event spilled_event duplicate_event terminated : Error
  ser_malformed_event too_low_epoch unknown_version unknown_tx_type too_low_gas_limit : Error
  out_of_fuel : Error
  other : ℕ → Error

-- `panic` is a Go run-time panic: an index out of range, or an explicit call.
pub data Result {ℓ} (A : Type ℓ) : Type ℓ where
  ok : A → Result A
  err : Error → Result A
  panic : Result A

-- What follows an error or a panic is not run.
infixl 5 ◌>>◌
abbrev pub ◌>>◌ {ℓ κ} : {A : Type ℓ} {B : Type κ} → Result A → Result B → Result B
panic >> rest = panic
err why >> rest = err why
ok _ >> rest = rest

infixl 5 ◌>>=◌
abbrev pub ◌>>=◌ {ℓ κ} : {A : Type ℓ} {B : Type κ} → Result A → (A → Result B) → Result B
panic >>= next = panic
err why >>= next = err why
ok value >>= next = next value

-- A check: `nil`, an error, or a panic.
abbrev pub Check : Type 0
Check = Result (Unit {0})

-- `if b { return e }`
abbrev pub fail_if : Bool → Error → Check
fail_if true e = err e
fail_if false e = ok tt

-- A lookup that panics when there is nothing.
abbrev pub expect {ℓ} : {A : Type ℓ} → Option A → Result A
expect none = panic
expect (some a) = ok a

-- `p == nil`, `p != nil`
abbrev pub is_none {ℓ} : {A : Type ℓ} → Option A → Bool
is_none none = true
is_none (some a) = false

abbrev pub is_some {ℓ} : {A : Type ℓ} → Option A → Bool
is_some none = false
is_some (some a) = true

-- A lookup that fails with an error when there is nothing.
abbrev pub expect_or {ℓ} : {A : Type ℓ} → Error → Option A → Result A
expect_or e none = err e
expect_or e (some a) = ok a

pub fail_if-ok {ℓ} :
    {A : Type ℓ} (b : Bool) (e : Error) (k : Result A) {x : A}
    → (fail_if b e >> k) ≡ ok x
    → (b ≡ false) × (k ≡ ok x)
fail_if-ok true e k h = cc
fail_if-ok false e k h = (refl, h)

-- A step that succeeds.
pub >>=-ok {ℓ κ} :
    {A : Type ℓ} {B : Type κ} {m : Result A} {a : A} (f : A → Result B) → m ≡ ok a → (m >>= f) ≡ f a
>>=-ok f e = ap (λ t. t >>= f) e

pub >>=-assoc {ℓ κ μ} :
    {A : Type ℓ} {B : Type κ} {C : Type μ} (m : Result A) (f : A → Result B) (g : B → Result C)
    → ((m >>= f) >>= g) ≡ (m >>= (λ a. f a >>= g))
>>=-assoc (ok a) f g = refl
>>=-assoc (err e) f g = refl
>>=-assoc panic f g = refl

pub >>-eq-ok {ℓ κ} :
    {A : Type ℓ} {B : Type κ} (m : Result A) (k : Result B) {x : B}
    → (m >> k) ≡ ok x
    → ((a : A) × (m ≡ ok a)) × (k ≡ ok x)
>>-eq-ok (ok a) k h = ((a, refl), h)
>>-eq-ok (err e) k h = cc
>>-eq-ok panic k h = cc

pub >>=-eq-ok {ℓ κ} :
    {A : Type ℓ} {B : Type κ} (m : Result A) (f : A → Result B) {x : B}
    → (m >>= f) ≡ ok x
    → (a : A) × (m ≡ ok a) × (f a ≡ ok x)
>>=-eq-ok (ok a) f h = (a, refl, h)
>>=-eq-ok (err e) f h = cc
>>=-eq-ok panic f h = cc

-- `nil` of a check carries no value.
pub Check-ok : (m : Check) (x : Unit {0}) → m ≡ ok x → m ≡ ok tt
Check-ok m x h = h

pub ok-injective {ℓ} : {A : Type ℓ} {a b : A} → ok a ≡ ok b → a ≡ b
ok-injective h = cc

pub some-injective {ℓ} : {A : Type ℓ} {a b : A} → some a ≡ some b → a ≡ b
some-injective h = cc

-- A chain panics only if a step of it does.
pub >>-no_panic {ℓ κ} :
    {A : Type ℓ} {B : Type κ} (m : Result A) (k : Result B)
    → m ≢ panic
    → ((a : A) → m ≡ ok a → k ≢ panic)
    → (m >> k) ≢ panic
>>-no_panic (ok a) k calm rest = rest a refl
>>-no_panic (err e) k calm rest = λ h. cc
>>-no_panic panic k calm rest = absurd (calm refl)

pub >>=-no_panic {ℓ κ} :
    {A : Type ℓ} {B : Type κ} (m : Result A) (f : A → Result B)
    → m ≢ panic
    → ((a : A) → m ≡ ok a → f a ≢ panic)
    → (m >>= f) ≢ panic
>>=-no_panic (ok a) f calm rest = rest a refl
>>=-no_panic (err e) f calm rest = λ h. cc
>>=-no_panic panic f calm rest = absurd (calm refl)

pub fail_if-no_panic : (b : Bool) (e : Error) → fail_if b e ≢ panic
fail_if-no_panic true e h = cc
fail_if-no_panic false e h = cc

-- A check, then more.
pub fail_if-then_no_panic {ℓ} :
    {A : Type ℓ} (b : Bool) (e : Error) (k : Result A)
    → (b ≡ false → k ≢ panic)
    → (fail_if b e >> k) ≢ panic
fail_if-then_no_panic true e k rest = λ h. cc
fail_if-then_no_panic false e k rest = rest refl
