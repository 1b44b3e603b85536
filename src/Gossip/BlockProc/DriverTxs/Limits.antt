-- ===== src/Gossip/BlockProc/DriverTxs/Limits.antt =====
-- The limit of the epochs to advance, over all logs of a block.
use go_opera.Base.{ℕ, ◌≤◌, List, [], ◌∷◌, ◌≡◌, ◌&&◌, arith, if◌then◌else◌}
use go_opera.Base.{leb, ltb, nat_beq, nat_bne, u32, u64, length, get_elem?, take, drop, nat_eq}
use go_opera.Base.{
  Option, some, none, Option-cases, Bool-cases, inl, inr, Result, ok, err, panic, ◌>>=◌, expect,
  >>=-eq-ok,
}
use go_opera.Base.{ok-injective}
use go_opera.Opera.Driver.{Log, DriverAbi, set_bytes}
use go_opera.Inter.BlockProc.{Profile}
use go_opera.Gossip.BlockProc.DriverTxs.{
  Listener, RulesUpdate, decode_data_bytes, update_rules, update_weight, update_pub_key,
  with_profiles, current_rules, advance, on_advance_epochs, on_rules, on_pub_key, on_new_log,
}
use mathlib.Core.Path.{subst}

-- At most 2^16 epochs are left to advance.
abbrev pub IsLimited : Listener → Type 0
IsLimited p = p.bs.advance_epochs ≤ 65536

advance-le : (old n : ℕ) → advance old n ≤ 65536
unfolding advance
advance-le old n = ground arith

on_advance_epochs-IsLimited :
    (abi : DriverAbi) (topic : ℕ) (p : Listener) (l : Log)
    → IsLimited p
    → IsLimited (on_advance_epochs abi topic p l)
unfolding on_advance_epochs
on_advance_epochs-IsLimited abi topic p l h =
    ground (arith, advance-le p.bs.advance_epochs (set_bytes (take 3 (drop 29 l.data_bytes))))

-- What a result that is no error satisfies.
abbrev Gives : Result Listener → Type 0
Gives (ok p) = IsLimited p
Gives (err e) = Unit
Gives panic = Unit

-- The rules are updated, or not, and the epochs are advanced.
updated_rules-IsLimited :
    (abi : DriverAbi) (unmarshal : RulesUpdate) (topic : ℕ) (p : Listener) (l : Log)
    (m : Result (Option (List ℕ)))
    → IsLimited p
    → Gives (do
      diff ← m
      ok (elim diff [
        | none ↦ p
        | some bytes ↦ elim (update_rules unmarshal (current_rules p) bytes) [
          | none ↦ p
          | some rules ↦
              on_advance_epochs abi topic
                (record p { bs = record p.bs { dirty_rules = some rules } })
                l
        ]
      ]))
updated_rules-IsLimited abi unmarshal topic p l (err e) h = tt
updated_rules-IsLimited abi unmarshal topic p l panic h = tt
updated_rules-IsLimited abi unmarshal topic p l (ok none) h = h
updated_rules-IsLimited abi unmarshal topic p l (ok (some bytes)) h =
    elim (Option-cases (update_rules unmarshal (current_rules p) bytes)) [
      | inl failed ↦ rw failed h
      | inr (rules, updated) ↦ rw updated (
          on_advance_epochs-IsLimited abi topic
            (record p { bs = record p.bs { dirty_rules = some rules } }) l h)
    ]

on_rules-IsLimited :
    (abi : DriverAbi) (unmarshal : RulesUpdate) (topic : ℕ) (p : Listener) (l : Log)
    → IsLimited p
    → Gives (on_rules abi unmarshal topic p l)
unfolding on_rules
on_rules-IsLimited abi unmarshal topic p l h =
    elim (Bool-cases (nat_beq topic abi.update_network_rules && leb 64 (length l.data_bytes))) [
      | inl mine ↦
          rw mine
            (updated_rules-IsLimited abi unmarshal topic p l (decode_data_bytes l.data_bytes) h)
      | inr other ↦ rw other (on_advance_epochs-IsLimited abi topic p l h)
    ]

new_profiles-IsLimited :
    (abi : DriverAbi) (unmarshal : RulesUpdate) (topic : ℕ) (p : Listener) (l : Log)
    (o : Option (List (ℕ × Profile)))
    → IsLimited p
    → Gives (elim o [
      | none ↦ ok p
      | some profiles ↦ on_rules abi unmarshal topic (with_profiles p profiles) l
    ])
new_profiles-IsLimited abi unmarshal topic p l none h = h
new_profiles-IsLimited abi unmarshal topic p l (some profiles) h =
    on_rules-IsLimited abi unmarshal topic (with_profiles p profiles) l h

updated_pub_key-IsLimited :
    (abi : DriverAbi) (unmarshal : RulesUpdate) (topic : ℕ) (p : Listener) (l : Log) (id : Option ℕ)
    (m : Result (Option (List ℕ)))
    → IsLimited p
    → Gives (do
      id' ← expect id
      pubkey ← m
      elim pubkey [
        | none ↦ ok p
        | some bytes ↦ elim (update_pub_key p.bs.next_validator_profiles (u32 (u64 id')) bytes) [
          | none ↦ ok p
          | some profiles ↦ on_rules abi unmarshal topic (with_profiles p profiles) l
        ]
      ])
updated_pub_key-IsLimited abi unmarshal topic p l none m h = tt
updated_pub_key-IsLimited abi unmarshal topic p l (some id) (err e) h = tt
updated_pub_key-IsLimited abi unmarshal topic p l (some id) panic h = tt
updated_pub_key-IsLimited abi unmarshal topic p l (some id) (ok none) h = h
updated_pub_key-IsLimited abi unmarshal topic p l (some id) (ok (some bytes)) h =
    new_profiles-IsLimited abi unmarshal topic p l
      (update_pub_key p.bs.next_validator_profiles (u32 (u64 id)) bytes) h

on_pub_key-IsLimited :
    (abi : DriverAbi) (unmarshal : RulesUpdate) (topic : ℕ) (p : Listener) (l : Log)
    → IsLimited p
    → Gives (on_pub_key abi unmarshal topic p l)
unfolding on_pub_key
on_pub_key-IsLimited abi unmarshal topic p l h =
    elim (Bool-cases (nat_beq topic abi.update_validator_pubkey && ltb 1 (length l.topics))) [
      | inl mine ↦ rw mine (
          updated_pub_key-IsLimited abi unmarshal topic p l (get_elem? l.topics 1)
            (decode_data_bytes l.data_bytes) h)
      | inr other ↦ rw other (on_rules-IsLimited abi unmarshal topic p l h)
    ]

weighted-IsLimited :
    (abi : DriverAbi) (unmarshal : RulesUpdate) (topic : ℕ) (p : Listener) (l : Log) (id : Option ℕ)
    → IsLimited p
    → Gives (do
      id' ← expect id
      on_pub_key abi unmarshal topic
          (with_profiles p (
            update_weight p.bs.next_validator_profiles
              (u32 (u64 id'))
              (set_bytes (take 32 l.data_bytes))))
          l)
weighted-IsLimited abi unmarshal topic p l none h = tt
weighted-IsLimited abi unmarshal topic p l (some id) h =
    on_pub_key-IsLimited abi unmarshal topic
      (with_profiles p (
        update_weight p.bs.next_validator_profiles (u32 (u64 id))
          (set_bytes (take 32 l.data_bytes))))
      l h

on_topic-IsLimited :
    (abi : DriverAbi) (unmarshal : RulesUpdate) (p : Listener) (l : Log) (topic : Option ℕ)
    → IsLimited p
    → Gives (do
      topic' ← expect topic
      if nat_beq topic' abi.update_validator_weight
            && (ltb 1 (length l.topics) && leb 32 (length l.data_bytes))
          then (do
            id ← expect (get_elem? l.topics 1)
            on_pub_key abi unmarshal topic'
                (with_profiles p (
                  update_weight p.bs.next_validator_profiles
                    (u32 (u64 id))
                    (set_bytes (take 32 l.data_bytes))))
                l)
          else on_pub_key abi unmarshal topic' p l)
on_topic-IsLimited abi unmarshal p l none h = tt
on_topic-IsLimited abi unmarshal p l (some topic) h =
    elim (Bool-cases (
      nat_beq topic abi.update_validator_weight
      && (ltb 1 (length l.topics) && leb 32 (length l.data_bytes)))) [
        | inl mine ↦ rw mine (weighted-IsLimited abi unmarshal topic p l (get_elem? l.topics 1) h)
        | inr other ↦ rw other (on_pub_key-IsLimited abi unmarshal topic p l h)
      ]

on_new_log-IsLimited :
    (abi : DriverAbi) (unmarshal : RulesUpdate) (p : Listener) (l : Log)
    → IsLimited p
    → Gives (on_new_log abi unmarshal p l)
unfolding on_new_log
on_new_log-IsLimited abi unmarshal p l h =
    elim (Bool-cases (nat_bne l.address abi.contract_address)) [
      | inl foreign ↦ rw foreign h
      | inr mine ↦ rw mine (on_topic-IsLimited abi unmarshal p l (get_elem? l.topics 0) h)
    ]

-- The logs of a block, one after the other.
unfoldable pub on_new_logs : DriverAbi → RulesUpdate → Listener → List Log → Result Listener
on_new_logs abi unmarshal p [] = ok p
on_new_logs abi unmarshal p (l ∷ logs) = do
  p' ← on_new_log abi unmarshal p l
  on_new_logs abi unmarshal p' logs

-- Whatever logs are emitted, of the Driver or not, at most 2^16 epochs are left to advance after
-- them if that was so before.
pub on_new_logs-IsLimited :
    (abi : DriverAbi) (unmarshal : RulesUpdate) (p q : Listener) (logs : List Log)
    → IsLimited p
    → on_new_logs abi unmarshal p logs ≡ ok q
    → IsLimited q
unfolding on_new_logs
on_new_logs-IsLimited abi unmarshal p q [] h e = subst IsLimited (ok-injective e) h
on_new_logs-IsLimited abi unmarshal p q (l ∷ logs) h e =
    let (p', first, rest) =
      >>=-eq-ok (on_new_log abi unmarshal p l) (λ p'. on_new_logs abi unmarshal p' logs) e in
    on_new_logs-IsLimited abi unmarshal p' q logs
      (subst Gives first (on_new_log-IsLimited abi unmarshal p l h)) rest
