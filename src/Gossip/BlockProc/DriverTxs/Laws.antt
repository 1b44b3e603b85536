-- ===== src/Gossip/BlockProc/DriverTxs/Laws.antt =====
-- What the logs of the Driver contract can do to the block state.
use go_opera.Base.{ℕ, ◌+◌, ◌-◌, List, [], ◌≡◌, refl, arith}
use go_opera.Base.{if◌then◌else◌, leb, ltb, nat_beq, u64, IsU64, length}
use go_opera.Base.{lookup, lookup-insert, lookup-remove, nat_eq, take, drop, ◌&&◌, ◌||◌}
use go_opera.Base.{Option, some, none, Option-cases, Bool-cases, inl, inr, ok, panic}
use go_opera.Opera.Driver.{set_bytes}
use go_opera.Inter.BlockProc.{Profile}
use go_opera.Gossip.BlockProc.DriverTxs.{decode_data_bytes, update_weight}

-- The profile of a validator after its weight was set.
abbrev pub weighted : Option Profile → ℕ → Option Profile
weighted o weight = if nat_beq weight 0 then none else elim o [
  | none ↦ some (record { weight = weight; pub_key = record { key_type = 0; raw = [] } })
  | some profile ↦ some (record profile { weight = weight })
]

-- Setting a validator's weight removes it if the weight is zero, and else gives it that weight,
-- keeping its key, or no key if it is new. No other validator changes.
pub lookup-update_weight :
    (profiles : List (ℕ × Profile)) (id weight j : ℕ)
    → lookup j (update_weight profiles id weight)
      ≡ (if nat_beq id j then weighted (lookup id profiles) weight else lookup j profiles)
unfolding update_weight
lookup-update_weight profiles id weight j = elim (Bool-cases (nat_beq weight 0)) [
  | inl zero_weight ↦ rw (zero_weight, lookup-remove id j profiles) refl
  | inr some_weight ↦ elim (Option-cases (lookup id profiles)) [
    | inl absent ↦
        rw
          (
            some_weight,
            absent,
            lookup-insert id j
                (record { weight = weight; pub_key = record { key_type = 0; raw = [] } }) profiles,
          )
          refl
    | inr (profile, found) ↦
        rw (some_weight, found, lookup-insert id j (record profile { weight = weight }) profiles)
          refl
  ]
]

-- The offset and the size that a log's bytes announce.
abbrev pub offset_of : List ℕ → ℕ
offset_of data_bytes = u64 (set_bytes (take 8 (drop 24 data_bytes)))

abbrev pub size_of : List ℕ → ℕ
size_of data_bytes = u64 (set_bytes (take 8 (drop (u64 (offset_of data_bytes + 24)) data_bytes)))

decode_tests :
    (len start size mid lo hi : ℕ) (xs : List ℕ)
    → mid ≡ start + 24
    → lo ≡ start + 32
    → hi ≡ start + 32 + size
    → (if ltb len 32
        then ok none
        else if ltb len lo
        then ok none
        else if ltb len mid || ltb lo mid
        then panic
        else if ltb len hi
        then ok none
        else if ltb hi lo
        then panic
        else ok (some (take (hi - lo) (drop lo xs))))
      ≡ (if leb 32 len && leb (start + 32 + size) len
          then ok (some (take size (drop (start + 32) xs)))
          else ok none)
decode_tests len start size mid lo hi xs is_mid is_lo is_hi =
    let width : start + 32 + size - (start + 32) ≡ size = omega arith in
    rw (is_mid, is_lo, is_hi, width) (ground arith)

-- As long as the end that a log's bytes announce fits 64 bits, decoding never panics: it gives the
-- announced number of bytes after the announced offset if the log has them all and has 32 bytes
-- at least, and else an error.
pub decode_data_bytes_lem :
    (data_bytes : List ℕ)
    → IsU64 (offset_of data_bytes + 32 + size_of data_bytes)
    → decode_data_bytes data_bytes ≡ (
        if leb 32 (length data_bytes)
          && leb (offset_of data_bytes + 32 + size_of data_bytes) (length data_bytes)
        then ok (some (take (size_of data_bytes) (drop (offset_of data_bytes + 32) data_bytes)))
        else ok none)
unfolding decode_data_bytes
decode_data_bytes_lem data_bytes fits =
    let start = offset_of data_bytes in
    let size = size_of data_bytes in
    decode_tests (length data_bytes) start size (u64 (start + 24)) (u64 (start + 32))
      (u64 (u64 (start + 32) + size)) data_bytes (omega arith) (omega arith) (omega arith)
