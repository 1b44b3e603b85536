-- ===== src/Inter/Serializer/Transactions/Parts.antt =====
-- inter/transaction_serializer.go: the parts of a transaction that depend on its type, and the
-- signature, are read back.
use go_opera.Base.{ℕ, zero, suc, ◌/◌, ◌^◌, ◌≤◌, ◌<◌, ◌≡◌, ◌≢◌, refl, sym, arith, ap, ◌∙◌}
use go_opera.Base.{List, [], ◌∷◌, ◌++◌, true, false, Option, some, none, All, length, length-append}
use go_opera.Base.{ok, ◌>>=◌, ltb, nat_beq, inl, inr, Bool-cases, take, drop, u32, ℤ, pos}
use go_opera.Inter.Serializer.{max_msg_size}
use go_opera.Inter.Serializer.Transactions.{
  TxData, AccessTuple, encode_sig, decode_sig, marshal_caps, unmarshal_caps, marshal_prices,
  unmarshal_prices, has_chain, marshal_chain, unmarshal_chain,
}
use go_opera.Inter.Serializer.Transactions.{
  marshal_to, unmarshal_to, marshal_access_list, unmarshal_access_list, marshal_extension,
  unmarshal_extension,
}
use go_opera.Inter.Serializer.Votes.{IsHash, hashes-Coded}
use go_opera.Utils.Cser.{write_u32, read_u32}
use go_opera.Utils.Cser.BigInts.{write_big_int, read_big_int}
use go_opera.Utils.Cser.Arrays.{array-Coded}
use go_opera.Utils.Cser.BigInts.{be_bytes, set_bytes, padded_bytes}
use go_opera.Utils.Cser.BigInts.RoundTrip.{
  IsBigInt, big_int-Coded, set_bytes-be_bytes, length-be_bytes, set_bytes-padded_bytes,
  length-padded_bytes,
}
use go_opera.Utils.Cser.Codec.{Coded, Coded-as, Coded-check, Coded-then, Coded-post, Coded-pure}
use go_opera.Utils.Cser.Fields.{u32-Coded, bool-Coded}
use mathlib.Core.Path.{ap₂}

take-length : (n : ℕ) (xs ys : List ℕ) → length xs ≡ n → take n (xs ++ ys) ≡ xs
take-length zero [] ys e = refl
take-length zero (x ∷ xs) ys e = absurd (omega arith)
take-length (suc n) [] ys e = absurd (omega arith)
take-length (suc n) (x ∷ xs) ys e = ap (λ t. x ∷ t) (take-length n xs ys (omega arith))

drop-length : (n : ℕ) (xs ys : List ℕ) → length xs ≡ n → drop n (xs ++ ys) ≡ ys
drop-length zero [] ys e = refl
drop-length zero (x ∷ xs) ys e = absurd (omega arith)
drop-length (suc n) [] ys e = absurd (omega arith)
drop-length (suc n) (x ∷ xs) ys e = drop-length n xs ys (omega arith)

take-all : (n : ℕ) (xs : List ℕ) → length xs ≡ n → take n xs ≡ xs
take-all zero [] e = refl
take-all zero (x ∷ xs) e = absurd (omega arith)
take-all (suc n) [] e = absurd (omega arith)
take-all (suc n) (x ∷ xs) e = ap (λ t. x ∷ t) (take-all n xs (omega arith))

word : ℕ → List ℕ
word r = take 32 (padded_bytes (be_bytes r) 32)

length-padded : (r : ℕ) → r < 256 ^ 32 → length (padded_bytes (be_bytes r) 32) ≡ 32
length-padded r h = length-padded_bytes (be_bytes r) 32 (length-be_bytes 32 r h)

length-word : (r : ℕ) → r < 256 ^ 32 → length (word r) ≡ 32
unfolding word
length-word r h = ap length (take-all 32 _ (length-padded r h)) ∙ length-padded r h

set_bytes-word : (r : ℕ) → r < 256 ^ 32 → set_bytes (word r) 0 ≡ r
unfolding word
set_bytes-word r h =
    ap (λ t. set_bytes t 0) (take-all 32 _ (length-padded r h))
    ∙ set_bytes-padded_bytes (be_bytes r) 32
    ∙ set_bytes-be_bytes r

pub decode_sig-encode_sig :
    (r s : ℕ) → r < 256 ^ 32 → s < 256 ^ 32 → decode_sig (encode_sig r s) ≡ (r, s)
unfolding decode_sig encode_sig word
decode_sig-encode_sig r s hr hs =
    let low : take 32 (word r ++ word s) ≡ word r =
      take-length 32 (word r) (word s) (length-word r hr) in
    let high : take 32 (drop 32 (word r ++ word s)) ≡ word s =
      ap (take 32) (drop-length 32 (word r) (word s) (length-word r hr))
      ∙ take-all 32 (word s) (length-word s hs) in
    ap₂ (λ (a b : ℕ). (a, b)) (ap (λ t. set_bytes t 0) low ∙ set_bytes-word r hr)
      (ap (λ t. set_bytes t 0) high ∙ set_bytes-word s hs)

pub length-encode_sig : (r s : ℕ) → r < 256 ^ 32 → s < 256 ^ 32 → 64 ≡ length (encode_sig r s)
unfolding encode_sig word
length-encode_sig r s hr hs =
    omega (arith, length-append (word r) (word s), length-word r hr, length-word s hs)

pub to-Coded :
    (to : Option ℕ) → ((a : ℕ) → to ≡ some a → a < 256 ^ 20) → Coded (marshal_to to) unmarshal_to to
unfolding marshal_to unmarshal_to
to-Coded none small = Coded-post _ (bool-Coded false) (λ r. refl)
to-Coded (some a) small =
    Coded-then _ (bool-Coded true) (Coded-post _ (array-Coded 20 a (small a refl)) (λ r. refl))

-- The prices that the type has, and no others.
pub record IsPriced (tx : TxData) : Type 0 where
  pub price : IsBigInt tx.gas_price
  pub tip_cap : IsBigInt tx.gas_tip_cap
  pub fee_cap : IsBigInt tx.gas_fee_cap
  pub dynamic : tx.tx_type ≡ 2 → tx.gas_price ≡ pos 0
  pub plain : tx.tx_type ≢ 2 → (tx.gas_tip_cap ≡ pos 0) × (tx.gas_fee_cap ≡ pos 0)

caps-Coded :
    (tx : TxData)
    → IsPriced tx
    → tx.tx_type ≡ 2
    → Coded (marshal_caps tx) unmarshal_caps (tx.gas_price, tx.gas_tip_cap, tx.gas_fee_cap)
unfolding marshal_caps unmarshal_caps
caps-Coded tx v dynamic = Coded-then _ (big_int-Coded tx.gas_tip_cap v.tip_cap) (
    Coded-post _ (big_int-Coded tx.gas_fee_cap v.fee_cap)
      (λ r. ap (λ t. ok ((t, tx.gas_tip_cap, tx.gas_fee_cap), r)) (sym (v.dynamic dynamic))))

price-Coded :
    (tx : TxData)
    → IsPriced tx
    → tx.tx_type ≢ 2
    → Coded {A = ℤ × ℤ × ℤ}
        (λ w. write_big_int w tx.gas_price)
        (λ r. read_big_int r >>= (λ p. ok ((p.0, pos 0, pos 0), p.1)))
        (tx.gas_price, tx.gas_tip_cap, tx.gas_fee_cap)
price-Coded tx v plain =
    let (no_tip, no_fee) = v.plain plain in
    Coded-post _ (big_int-Coded tx.gas_price v.price)
      (λ r. ap₂ (λ (t f : ℤ). ok ((tx.gas_price, t, f), r)) (sym no_tip) (sym no_fee))

pub prices-Coded :
    (tx : TxData)
    → IsPriced tx
    → Coded
        (marshal_prices tx)
        (unmarshal_prices tx.tx_type)
        (tx.gas_price, tx.gas_tip_cap, tx.gas_fee_cap)
unfolding marshal_prices unmarshal_prices
prices-Coded tx v = elim (Bool-cases (nat_beq tx.tx_type 2)) [
  | inl dynamic ↦
      Coded-as (λ w. rw dynamic refl) (λ r. rw dynamic refl) (caps-Coded tx v (ground arith))
  | inr plain ↦ Coded-as (λ w. rw plain refl) (λ r. rw plain refl) (price-Coded tx v (ground arith))
]

pub record IsTuple (t : AccessTuple) : Type 0 where
  pub address_lt : t.address < 256 ^ 20
  pub keys_le : length t.storage_keys ≤ max_msg_size / 32
  pub keys_IsHash : All IsHash t.storage_keys

-- The length of a list of at most the size of a message.
pub count-Coded : (n : ℕ) → n ≤ max_msg_size → Coded (λ w. write_u32 w (u32 n)) read_u32 n
count-Coded n h = let few : u32 n ≡ n = omega arith in rw few (u32-Coded n (omega arith))

pub access_list-Coded :
    (ts : List AccessTuple)
    → All IsTuple ts
    → Coded (marshal_access_list ts) (unmarshal_access_list (length ts)) ts
unfolding marshal_access_list unmarshal_access_list
access_list-Coded [] all = Coded-pure []
access_list-Coded (t ∷ ts) (v, all) =
    let k = length t.storage_keys in
    let allowed : ltb (max_msg_size / 32) k ≡ false = ground (arith, v.keys_le) in
    Coded-then _ (array-Coded 20 t.address v.address_lt) (
      Coded-then _ (count-Coded k (omega (arith, v.keys_le))) (
        Coded-check _ _ allowed (
          Coded-then _ (hashes-Coded t.storage_keys v.keys_IsHash)
            (Coded-post _ (access_list-Coded ts all) (λ r. refl)))))

-- The chain and the access list that the newer types have.
pub record IsExtended (tx : TxData) : Type 0 where
  pub tx_type_le : tx.tx_type ≤ 2
  pub legacy : tx.tx_type ≡ 0 → (tx.chain_id ≡ pos 0) × (tx.access_list ≡ [])
  pub chain_id_IsBigInt : IsBigInt tx.chain_id
  pub list_le : length tx.access_list ≤ max_msg_size / 24
  pub list_IsTuple : All IsTuple tx.access_list

chain-Coded :
    (tx : TxData)
    → IsExtended tx
    → Coded (marshal_chain tx) unmarshal_chain (tx.chain_id, tx.access_list)
unfolding marshal_chain unmarshal_chain
chain-Coded tx v =
    let k = length tx.access_list in
    let allowed : ltb (max_msg_size / 24) k ≡ false = ground (arith, v.list_le) in
    Coded-then _ (big_int-Coded tx.chain_id v.chain_id_IsBigInt) (
      Coded-then _ (count-Coded k (omega (arith, v.list_le))) (
        Coded-check _ _ allowed
          (Coded-post _ (access_list-Coded tx.access_list v.list_IsTuple) (λ r. refl))))

pub extension-Coded :
    (tx : TxData)
    → IsExtended tx
    → Coded (marshal_extension tx) (unmarshal_extension tx.tx_type) (tx.chain_id, tx.access_list)
unfolding marshal_extension unmarshal_extension
extension-Coded tx v = elim (Bool-cases (nat_beq tx.tx_type 0)) [
  | inl old ↦
      let (no_chain, no_list) = v.legacy (ground arith) in
      let not_new : has_chain tx.tx_type ≡ false = ground arith in
      Coded-as (λ w. rw not_new refl)
        (λ r.
          rw old
            (ap₂ (λ (c : ℤ) (l : List AccessTuple). ok ((c, l), r)) (sym no_chain) (sym no_list)))
        (Coded-pure (tx.chain_id, tx.access_list))
  | inr other ↦
      let new : has_chain tx.tx_type ≡ true = ground (arith, v.tx_type_le) in
      Coded-as (λ w. rw new refl) (λ r. rw (other, new) refl) (chain-Coded tx v)
]
