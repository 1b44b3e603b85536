-- ===== src/Inter/Serializer/Transactions/RoundTrip.antt =====
-- inter/transaction_serializer.go: a transaction is read back as it was written.
use go_opera.Base.{ℕ, ◌+◌, ◌*◌, ◌^◌, ◌≤◌, ◌<◌, ◌≡◌, ◌≢◌, refl, sym, arith, ap, ◌∙◌}
use go_opera.Base.{List, [], ◌++◌, Bool, true, false, some, length}
use go_opera.Base.{Result, ok, >>=-assoc, leb, ltb, nat_beq, inl, inr, Bool-cases}
use go_opera.Inter.Serializer.{max_msg_size}
use go_opera.Inter.Serializer.Transactions.{
  TxData, encode_sig, decode_sig, marshal_type, unmarshal_type, marshal_tx_fields,
  unmarshal_tx_fields, marshal_transaction, unmarshal_transaction,
}
use go_opera.Inter.Serializer.Transactions.Parts.{
  IsPriced, IsExtended, decode_sig-encode_sig, length-encode_sig, to-Coded, prices-Coded,
  extension-Coded,
}
use go_opera.Utils.Bits
use go_opera.Utils.Bits.Stream.{low_bits, low_bits_split, low_bits-mod}
use go_opera.Utils.Bits.Reading.{view_lem}
use go_opera.Utils.Bits.Reading
use go_opera.Utils.Cser.{Reader, read_u8, write_u8, read_u64, write_u64}
use go_opera.Utils.Cser.BigInts.RoundTrip.{IsBigInt, big_int-Coded}
use go_opera.Utils.Cser.Codec.{
  Coded, Coded-as, Coded-then, Coded-post, Coded-pair, after_pair, Coded-marked,
}
use go_opera.Utils.Cser.Fields.{
  u8-Coded, u64-Coded, u64-Coded_sized, field-Coded, fixed_bytes-Coded, slice_bytes-Coded,
}
use mathlib.Core.List.{append-nil}
use mathlib.Core.Path.{ap₂}

-- A transaction that can be written.
pub record IsTransaction (tx : TxData) : Type 0 where
  pub legacy_gas : tx.tx_type ≡ 0 → 256 ≤ tx.gas
  pub nonce_lt : tx.nonce < 2 ^ 64
  pub gas_lt : tx.gas < 2 ^ 64
  pub priced : IsPriced tx
  pub value_IsBigInt : IsBigInt tx.value
  pub to_lt : (a : ℕ) → tx.to ≡ some a → a < 256 ^ 20
  pub data_le : length tx.data_bytes ≤ max_msg_size
  pub v_IsBigInt : IsBigInt tx.v
  pub r_lt : tx.r < 256 ^ 32
  pub s_lt : tx.s < 256 ^ 32
  pub extended : IsExtended tx

tx_fields-Coded :
    (tx : TxData)
    → IsTransaction tx
    → Coded (marshal_tx_fields tx) (unmarshal_tx_fields tx.tx_type tx.nonce tx.gas) tx
unfolding marshal_tx_fields unmarshal_tx_fields
tx_fields-Coded tx v =
    let sig = encode_sig tx.r tx.s in
    let back : decode_sig sig ≡ (tx.r, tx.s) = decode_sig-encode_sig tx.r tx.s v.r_lt v.s_lt in
    Coded-then _ (prices-Coded tx v.priced) (
      Coded-then _ (big_int-Coded tx.value v.value_IsBigInt) (
        Coded-then _ (to-Coded tx.to v.to_lt) (
          Coded-then _
            (slice_bytes-Coded tx.data_bytes max_msg_size v.data_le (omega (arith, v.data_le)))
            (Coded-then _ (big_int-Coded tx.v v.v_IsBigInt) (
              Coded-then _ (fixed_bytes-Coded sig 64 (length-encode_sig tx.r tx.s v.r_lt v.s_lt))
                (Coded-post _ (extension-Coded tx v.extended) (λ r. rw back refl)))))))

-- The marker and the type of a newer transaction.
type-Coded :
    (tx : TxData)
    → tx.tx_type ≢ 0
    → Coded (marshal_type tx.tx_type tx.gas) unmarshal_type tx.tx_type
unfolding marshal_type unmarshal_type
type-Coded tx new =
    let is_new : nat_beq tx.tx_type 0 ≡ false = ground arith in
    let (marker, bits) = field-Coded 6 0 (omega arith) (omega arith) (omega arith) in
    let next : ℕ × Reader → Result (ℕ × Reader) = λ p. read_u8 p.1 in
    Coded-as
      (λ w. rw is_new (sym (>>=-assoc (Bits.write w.bits_w 6 0) _ (λ w'. write_u8 w' tx.tx_type))))
      (λ r. refl)
      (Coded-marked next unmarshal_type 6 0 [] marker (bits ∙ sym (append-nil _))
        (u8-Coded tx.tx_type)
        (λ r s ahead.
          rw (view_lem r.bits_r 6 0 s (omega arith) (omega arith) ahead)
            (sym (>>=-assoc (Bits.read r.bits_r 6) _ next))))

-- Without a marker the transaction is a legacy one.
unmarked :
    (r : Reader) (k : ℕ) (s : List Bool)
    → 0 < k
    → k < 2 ^ 6
    → Reading.Ahead r.bits_r (low_bits 6 k ++ s)
    → unmarshal_type r ≡ ok (0, r)
unfolding unmarshal_type
unmarked r k s positive small ahead =
    let marked : nat_beq k 0 ≡ false = ground arith in
    rw (view_lem r.bits_r 6 k s small (omega arith) ahead, marked) refl

new_tx-Coded :
    (tx : TxData)
    → IsTransaction tx
    → tx.tx_type ≢ 0
    → Coded (marshal_transaction tx) unmarshal_transaction tx
unfolding marshal_transaction unmarshal_transaction
new_tx-Coded tx v new =
    let known : ltb 2 tx.tx_type ≡ false = ground (arith, v.extended.tx_type_le) in
    Coded-as (λ w. rw known refl) (λ r. refl)
      (Coded-then _ (type-Coded tx new) (
        Coded-then _ (u64-Coded tx.nonce v.nonce_lt)
          (Coded-then _ (u64-Coded tx.gas v.gas_lt) (tx_fields-Coded tx v))))

-- Two sizes of three bits side by side.
sizes_together : (a b : ℕ) → a < 2 ^ 3 → low_bits 3 a ++ low_bits 3 b ≡ low_bits 6 (a + b * 8)
sizes_together a b h = sym (
    low_bits_split 3 3 6 (a + b * 8) (omega arith)
    ∙ ap₂ (λ (x y : ℕ). low_bits 3 x ++ low_bits 3 y) refl (omega arith)
    ∙ ap (λ t. t ++ low_bits 3 b)
        (sym (low_bits-mod 3 (a + b * 8)) ∙ ap (low_bits 3) (omega arith)))

legacy_tx-Coded :
    (tx : TxData)
    → IsTransaction tx
    → tx.tx_type ≡ 0
    → Coded (marshal_transaction tx) unmarshal_transaction tx
unfolding marshal_transaction unmarshal_transaction marshal_type
legacy_tx-Coded tx v old =
    let (nonce, (k, k_lt, _, nonce_bits)) = u64-Coded_sized tx.nonce v.nonce_lt in
    let (gas, (m, m_lt, high, gas_bits)) = u64-Coded_sized tx.gas v.gas_lt in
    let positive : 0 < m = high (v.legacy_gas old) in
    let known : ltb 2 tx.tx_type ≡ false = ground (arith, old) in
    let is_old : nat_beq tx.tx_type 0 ≡ true = ground (arith, old) in
    let enough : leb tx.gas 255 ≡ false = ground (arith, v.legacy_gas old) in
    let (both, bits) = Coded-pair nonce gas in
    let next : (ℕ × ℕ) × Reader → Result (TxData × Reader) =
      λ p. unmarshal_tx_fields tx.tx_type (p.0).0 (p.0).1 p.1 in
    Coded-as
      (λ w.
        rw (known, is_old, enough)
          (sym
            (>>=-assoc (write_u64 w tx.nonce) (λ w'. write_u64 w' tx.gas) (marshal_tx_fields tx))))
      (λ r. refl)
      (Coded-marked next unmarshal_transaction 6 (k + m * 8) [] both
        (bits
          ∙ ap₂ (λ (x y : List Bool). x ++ y) nonce_bits gas_bits
          ∙ sizes_together k m k_lt
          ∙ sym (append-nil _))
        (tx_fields-Coded tx v)
        (λ r s ahead.
          rw (unmarked r (k + m * 8) s (omega arith) (omega arith) ahead, old)
            (after_pair (read_u64 r) read_u64 (λ p. unmarshal_tx_fields 0 (p.0).0 (p.0).1 p.1))))

pub transaction-Coded :
    (tx : TxData) → IsTransaction tx → Coded (marshal_transaction tx) unmarshal_transaction tx
transaction-Coded tx v = elim (Bool-cases (nat_beq tx.tx_type 0)) [
  | inl old ↦ legacy_tx-Coded tx v (ground arith)
  | inr new ↦ new_tx-Coded tx v (ground arith)
]
