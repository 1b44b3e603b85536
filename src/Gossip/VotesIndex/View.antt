-- ===== src/Gossip/VotesIndex/View.antt =====
-- The cache is transparent: what the index says of a key is a function `view`, which a vote
-- changes at its own key, and which evictions and flushes leave as it is.
use go_opera.Base.{ℕ, List, [], ◌∷◌, true, false, if◌then◌else◌, ◌≡◌, refl, ◌∙◌, map}
use go_opera.Base.{Option, some, none, arith, inl, inr}
use go_opera.Base.{Option-cases, lookup, insert, lookup-insert, lookup-remove}
use go_opera.Gossip.VotesIndex.{VotesCacheId, VotesCacheValue, VotesIndex, id_eq, id_eq_iff, id_Eq}
use go_opera.Gossip.VotesIndex.{get_llr_vote_weight}
use go_opera.Gossip.VotesIndex.{flush_llr_vote_weight, flush_key, flush_keys, flush_mutated, evict}

-- The weight and the voters of a key: the cached ones, else those of the table.
unfoldable pub view : VotesIndex → VotesCacheId → Option (ℕ × List ℕ)
view ix k = elim (lookup k ix.cache) [
  | some c ↦ some (c.weight, c.voters)
  | none ↦ lookup k ix.table
]

-- A cached value that is not marked as mutated is the table's.
abbrev pub IsCoherent : VotesIndex → Type 0
IsCoherent ix =
    (k : VotesCacheId) (c : VotesCacheValue)
    → lookup k ix.cache ≡ some c
    → c.mutated ≡ false
    → lookup k ix.table ≡ some (c.weight, c.voters)

evict-view_at :
    (ix : VotesIndex) (k j : VotesCacheId) → IsCoherent ix → view (evict ix k) j ≡ view ix j
unfolding view evict flush_llr_vote_weight
evict-view_at ix k j coherent = elim (Option-cases (lookup k ix.cache)) [
  | inl e ↦ rw (e, evict)
  | inr (c, e) ↦ ground (
    arith,
    coherent k c e,
    id_eq_iff k j,
    lookup-remove k j ix.cache,
    lookup-insert k j (c.weight, c.voters) ix.table,
  )
]

evict-IsCoherent : (ix : VotesIndex) (k : VotesCacheId) → IsCoherent ix → IsCoherent (evict ix k)
unfolding evict flush_llr_vote_weight
evict-IsCoherent ix k coherent j d found clean = elim (Option-cases (lookup k ix.cache)) [
  | inl e ↦ ground (arith, coherent j d)
  | inr (c, e) ↦ ground (
    arith,
    coherent j d,
    id_eq_iff k j,
    lookup-remove k j ix.cache,
    lookup-insert k j (c.weight, c.voters) ix.table,
  )
]

-- An eviction changes nothing that a reader of a coherent index sees, and keeps it coherent.
pub evict_lem :
    (ix : VotesIndex) (k : VotesCacheId)
    → IsCoherent ix
    → ((j : VotesCacheId) → view (evict ix k) j ≡ view ix j) × IsCoherent (evict ix k)
evict_lem ix k coherent = (λ j. evict-view_at ix k j coherent, evict-IsCoherent ix k coherent)

flush_key-view_at : (ix : VotesIndex) (k j : VotesCacheId) → view (flush_key ix k) j ≡ view ix j
unfolding view flush_key flush_llr_vote_weight
flush_key-view_at ix k j = elim (Option-cases (lookup k ix.cache)) [
  | inl e ↦ rw (e, flush_key)
  | inr (c, e) ↦ ground (
    arith,
    id_eq_iff k j,
    lookup-insert k j (record c { mutated = false }) ix.cache,
    lookup-insert k j (c.weight, c.voters) ix.table,
  )
]

flush_key-IsCoherent :
    (ix : VotesIndex) (k : VotesCacheId) → IsCoherent ix → IsCoherent (flush_key ix k)
unfolding flush_key flush_llr_vote_weight
flush_key-IsCoherent ix k coherent j d found clean = elim (Option-cases (lookup k ix.cache)) [
  | inl e ↦ ground (arith, coherent j d)
  | inr (c, e) ↦ ground (
    arith,
    coherent j d,
    id_eq_iff k j,
    lookup-insert k j (record c { mutated = false }) ix.cache,
    lookup-insert k j (c.weight, c.voters) ix.table,
  )
]

flush_keys_lem :
    (ks : List VotesCacheId) (ix : VotesIndex)
    → IsCoherent ix
    → ((j : VotesCacheId) → view (flush_keys ks ix) j ≡ view ix j) × IsCoherent (flush_keys ks ix)
unfolding flush_keys
flush_keys_lem [] ix coherent = (λ j. refl, coherent)
flush_keys_lem (k ∷ ks) ix coherent =
    let (same, still) = flush_keys_lem ks (flush_key ix k) (flush_key-IsCoherent ix k coherent) in
    (λ j. same j ∙ flush_key-view_at ix k j, still)

-- Writing the mutated values to the table changes nothing that a reader of a coherent index sees,
-- and keeps it coherent.
pub flush_mutated_lem :
    (ix : VotesIndex)
    → IsCoherent ix
    → ((j : VotesCacheId) → view (flush_mutated ix) j ≡ view ix j) × IsCoherent (flush_mutated ix)
unfolding flush_mutated
flush_mutated_lem ix coherent = flush_keys_lem (map (λ e. e.0) ix.cache) ix coherent

-- What an entry says of the weight and of the set.
abbrev pub weight_of : Option (ℕ × List ℕ) → ℕ
weight_of none = 0
weight_of (some e) = e.0

abbrev pub voters_of : Option (ℕ × List ℕ) → Option (List ℕ)
voters_of none = none
voters_of (some e) = some e.1

-- A read gives the view, and changes neither the view nor coherence.
pub get_llr_vote_weight-view :
    (ix : VotesIndex) (k : VotesCacheId)
    → (get_llr_vote_weight ix k).0 ≡ (weight_of (view ix k), voters_of (view ix k))
unfolding get_llr_vote_weight view
get_llr_vote_weight-view ix k = ground arith

pub get_llr_vote_weight_keeps :
    (ix : VotesIndex) (k j : VotesCacheId) → view (get_llr_vote_weight ix k).1 j ≡ view ix j
unfolding get_llr_vote_weight view
get_llr_vote_weight_keeps ix k j = elim (Option-cases (lookup k ix.cache)) [
  | inr (c, e) ↦ rw (e, get_llr_vote_weight)
  | inl e ↦ elim (Option-cases (lookup k ix.table)) [
    | inl f ↦ ground arith
    | inr (t, f) ↦ ground (
      arith,
      id_eq_iff k j,
      lookup-insert k j (record { weight = t.0; voters = t.1; mutated = false }) ix.cache,
    )
  ]
]

pub get_llr_vote_weight-IsCoherent :
    (ix : VotesIndex) (k : VotesCacheId) → IsCoherent ix → IsCoherent (get_llr_vote_weight ix k).1
unfolding get_llr_vote_weight
get_llr_vote_weight-IsCoherent ix k coherent j d found clean =
    elim (Option-cases (lookup k ix.cache)) [
      | inr (c, e) ↦ ground (arith, coherent j d)
      | inl e ↦ elim (Option-cases (lookup k ix.table)) [
        | inl f ↦ ground (arith, coherent j d)
        | inr (t, f) ↦ ground (
          arith,
          coherent j d,
          id_eq_iff k j,
          lookup-insert k j (record { weight = t.0; voters = t.1; mutated = false }) ix.cache,
        )
      ]
    ]

-- A value written to the cache as mutated shows in the view at its key alone.
abbrev pub cached : VotesIndex → VotesCacheId → ℕ → List ℕ → VotesIndex
cached ix k weight voters = record ix {
  cache = insert k (record { weight = weight; voters = voters; mutated = true }) ix.cache;
}

pub view-cached :
    (ix : VotesIndex) (k j : VotesCacheId) (weight : ℕ) (voters : List ℕ)
    → view (cached ix k weight voters) j ≡ (if id_eq k j then some (weight, voters) else view ix j)
unfolding view
view-cached ix k j weight voters = ground (
  arith,
  lookup-insert k j (record { weight = weight; voters = voters; mutated = true }) ix.cache,
)

pub cached-IsCoherent :
    (ix : VotesIndex) (k : VotesCacheId) (weight : ℕ) (voters : List ℕ)
    → IsCoherent ix
    → IsCoherent (cached ix k weight voters)
cached-IsCoherent ix k weight voters coherent j d found clean = ground (
  arith,
  coherent j d,
  lookup-insert k j (record { weight = weight; voters = voters; mutated = true }) ix.cache,
)
