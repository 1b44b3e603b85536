-- ===== src/Gossip/VotesIndex.antt =====
-- The weights of LLR votes in gossip/store_llr_block.go: a write-back cache before a table.
-- The cache is `simplewlru` of lachesis-base: which entry it evicts, and when, is its choice, so
-- `evict` is an operation of its own that may come between any two others. A value's key in the
-- table is the concatenation of the fixed-width fields of its `VotesCacheID`, so the model keeps
-- that record as the key, and the four weight bytes and the bitmap that follow them as a pair.
pub mod View
pub mod Weights
use go_opera.Base.{ℕ, ◌+◌, List, [], ◌∷◌, map, Bool, true, false, ◌&&◌, if◌then◌else◌, ◌≡◌, ◌↔◌}
use go_opera.Base.{Option, some, none, Result, ok, ◌>>=◌, arith, nat_beq, u32}
use go_opera.Base.{Eq, lookup, insert, remove}
use go_opera.Utils.Bitmap.{new, put, has}

pub record VotesCacheId : Type 0 where
  pub block : ℕ
  pub epoch : ℕ
  pub v : ℕ

abbrev pub id_eq : VotesCacheId → VotesCacheId → Bool
id_eq a b = nat_beq a.block b.block && (nat_beq a.epoch b.epoch && nat_beq a.v b.v)

pub id_eq_iff : (a b : VotesCacheId) → (id_eq a b ≡ true) ↔ (a ≡ b)
id_eq_iff a b = ground arith

instance abbrev pub id_Eq : Eq VotesCacheId
id_Eq = record { beq = id_eq; beq_iff = id_eq_iff }

pub record VotesCacheValue : Type 0 where
  pub weight : ℕ
  pub voters : List ℕ
  pub mutated : Bool

pub record VotesIndex : Type 0 where
  pub cache : List (VotesCacheId × VotesCacheValue)
  pub table : List (VotesCacheId × (ℕ × List ℕ))

-- `getLlrVoteWeight`: the weight and the set (`none` is nil), and the index, whose cache is filled
-- on a miss.
unfoldable pub get_llr_vote_weight : VotesIndex → VotesCacheId → (ℕ × Option (List ℕ)) × VotesIndex
get_llr_vote_weight ix k = elim (lookup k ix.cache) [
  | some c ↦ ((c.weight, some c.voters), ix)
  | none ↦ elim (lookup k ix.table) [
    | none ↦ ((0, none), ix)
    | some e ↦ (
      (e.0, some e.1),
      record ix {
        cache = insert k (record { weight = e.0; voters = e.1; mutated = false }) ix.cache;
      },
    )
  ]
]

-- `set != nil && set.Has(int(validator))`
unfoldable pub already_voted : Option (List ℕ) → ℕ → Result Bool
already_voted none validator = ok false
already_voted (some s) validator = has s validator

-- `if set == nil { set = bitmap.New(int(validatorsNum)) }`
unfoldable pub set_or_new : Option (List ℕ) → ℕ → List ℕ
set_or_new none validators_num = new validators_num
set_or_new (some s) validators_num = s

-- `addLlrVoteWeight`. `pos.Weight` is a uint32, so the addition wraps.
unfoldable pub add_llr_vote_weight : VotesIndex → VotesCacheId → ℕ → ℕ → ℕ → Result (ℕ × VotesIndex)
add_llr_vote_weight ix k validator validators_num diff =
    let ((weight, voters), ix') = get_llr_vote_weight ix k in
    do
      counted ← already_voted voters validator
      let recorded = do
        voters' ← put (set_or_new voters validators_num) validator
        ok (
          u32 (weight + diff),
          record ix' {
            cache =
                insert k (record { weight = u32 (weight + diff); voters = voters'; mutated = true })
                  ix'.cache;
          },
        )
      if counted then ok (weight, ix') else recorded

-- `flushLlrVoteWeight`
unfoldable pub flush_llr_vote_weight :
    List (VotesCacheId × (ℕ × List ℕ))
    → VotesCacheId
    → VotesCacheValue
    → List (VotesCacheId × (ℕ × List ℕ))
flush_llr_vote_weight table k c = insert k (c.weight, c.voters) table

-- One round of `FlushMutated`.
unfoldable pub flush_key : VotesIndex → VotesCacheId → VotesIndex
unfolding flush_llr_vote_weight
flush_key ix k = elim (lookup k ix.cache) [
  | none ↦ ix
  | some c ↦
      if c.mutated
      then record {
        cache = insert k (record c { mutated = false }) ix.cache;
        table = flush_llr_vote_weight ix.table k c;
      }
      else ix
]

unfoldable pub flush_keys : List VotesCacheId → VotesIndex → VotesIndex
flush_keys [] ix = ix
flush_keys (k ∷ ks) ix = flush_keys ks (flush_key ix k)

-- `FlushMutated` over `c.votes.Keys()`.
unfoldable pub flush_mutated : VotesIndex → VotesIndex
flush_mutated ix = flush_keys (map (λ e. e.0) ix.cache) ix

-- An eviction, with the callback that `NewVotesCache` installs.
unfoldable pub evict : VotesIndex → VotesCacheId → VotesIndex
unfolding flush_llr_vote_weight
evict ix k = elim (lookup k ix.cache) [
  | none ↦ ix
  | some c ↦ record {
    cache = remove k ix.cache;
    table = if c.mutated then flush_llr_vote_weight ix.table k c else ix.table;
  }
]
