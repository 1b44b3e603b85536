-- ===== src/Gossip/VotesIndex/Weights.antt =====
-- The weight of a vote is the sum of the weights of the distinct validators that gave it.
use go_opera.Base.{ℕ, zero, suc, ◌+◌, ◌≤◌, ◌<◌, ◌^◌, List, Bool, true, false, ◌||◌, if◌then◌else◌}
use go_opera.Base.{◌≡◌, refl, sym, ◌∙◌, Option, some, none, ok, arith, u32}
use go_opera.Base.{nat_beq, nat_beq_iff, inl, inr, Bool-cases, ap}
use go_opera.Pos.{weight_sum}
use go_opera.Utils.Bitmap.{put, member}
use go_opera.Utils.Bitmap.Laws.{IsBitmap, has-member, put_lem, new_lem}
use go_opera.Gossip.VotesIndex.{VotesCacheId, VotesIndex, id_eq, id_eq_iff, get_llr_vote_weight}
use go_opera.Gossip.VotesIndex.{already_voted, set_or_new, add_llr_vote_weight}
use go_opera.Gossip.VotesIndex.View.{view, IsCoherent, weight_of, voters_of, cached, view-cached}
use go_opera.Gossip.VotesIndex.View.{get_llr_vote_weight-view, get_llr_vote_weight_keeps}
use go_opera.Gossip.VotesIndex.View.{get_llr_vote_weight-IsCoherent, cached-IsCoherent}

-- The weights of the indices below `n` that are in the set, added up.
unfoldable pub voted_sum : (ℕ → ℕ) → (ℕ → Bool) → ℕ → ℕ
voted_sum w p zero = 0
voted_sum w p (suc n) = voted_sum w p n + (if p n then w n else 0)

pub voted_sum-le : (w : ℕ → ℕ) (p : ℕ → Bool) (n : ℕ) → voted_sum w p n ≤ weight_sum w n
unfolding voted_sum
voted_sum-le w p zero = omega arith
voted_sum-le w p (suc n) = ground (arith, voted_sum-le w p n)

pub voted_sum-none :
    (w : ℕ → ℕ) (p : ℕ → Bool) (n : ℕ) → ((j : ℕ) → p j ≡ false) → voted_sum w p n ≡ 0
unfolding voted_sum
voted_sum-none w p zero h = refl
voted_sum-none w p (suc n) h = ground (arith, h n, voted_sum-none w p n h)

-- Joining an index past the end changes nothing; joining a new one below it adds its weight.
voted_sum-join_above :
    (w : ℕ → ℕ) (p q : ℕ → Bool) (i n : ℕ)
    → ((j : ℕ) → q j ≡ (nat_beq i j || p j))
    → n ≤ i
    → voted_sum w q n ≡ voted_sum w p n
unfolding voted_sum
voted_sum-join_above w p q i zero h le = refl
voted_sum-join_above w p q i (suc n) h le =
    ground (arith, h n, voted_sum-join_above w p q i n h (omega arith))

pub voted_sum-join :
    (w : ℕ → ℕ) (p q : ℕ → Bool) (i n : ℕ)
    → ((j : ℕ) → q j ≡ (nat_beq i j || p j))
    → p i ≡ false
    → i < n
    → voted_sum w q n ≡ voted_sum w p n + w i
unfolding voted_sum
voted_sum-join w p q i zero h new_index lt = absurd (omega arith)
voted_sum-join w p q i (suc n) h new_index lt = elim (Bool-cases (nat_beq i n)) [
  | inl e ↦
      rw (sym ((nat_beq_iff i n).0 e))
        (ground (arith, h i, voted_sum-join_above w p q i i h (omega arith)))
  | inr e ↦ ground (arith, h n, voted_sum-join w p q i n h new_index)
]

-- The validators whose votes an entry counts.
unfoldable pub has_voted : Option (ℕ × List ℕ) → ℕ → Bool
has_voted none i = false
has_voted (some e) i = member e.1 i

-- An entry is sound for a group of `n` validators of weights `w`: its weight is exactly the sum
-- of the weights of the validators in its set.
unfoldable pub IsCounted : (ℕ → ℕ) → ℕ → Option (ℕ × List ℕ) → Type 0
IsCounted w n none = Unit
IsCounted w n (some e) = IsBitmap e.1 n × (e.0 ≡ voted_sum w (member e.1) n)

-- What `addLlrVoteWeight` gives: the new weight, and the index after it.
pub record VoteAdded (w : ℕ → ℕ) (n : ℕ) (ix : VotesIndex) (k : VotesCacheId) (i : ℕ) : Type 0 where
  pub weight : ℕ
  pub after : VotesIndex
  pub returns : add_llr_vote_weight ix k i n (w i) ≡ ok (weight, after)
  pub is_weight : weight_of (view after k) ≡ weight
  pub counted : IsCounted w n (view after k)
  pub exact : weight ≡ voted_sum w (has_voted (view after k)) n
  pub joined : (j : ℕ) → has_voted (view after k) j ≡ (nat_beq i j || has_voted (view ix k) j)
  pub others : (j : VotesCacheId) → id_eq k j ≡ false → view after j ≡ view ix j
  pub coherent : IsCoherent after

-- A bitmap for the voters of an entry, as the code has it when it looks at the entry.
set_or_new_lem :
    (w : ℕ → ℕ) (n : ℕ) (o : Option (ℕ × List ℕ))
    → IsCounted w n o
    → IsBitmap (set_or_new (voters_of o) n) n
      × ((j : ℕ) → member (set_or_new (voters_of o) n) j ≡ has_voted o j)
      × (weight_of o ≡ voted_sum w (has_voted o) n)
unfolding set_or_new has_voted IsCounted
set_or_new_lem w n none c =
    let (b, empty) = new_lem n in (b, empty, sym (voted_sum-none w (λ j. false) n (λ j. refl)))
set_or_new_lem w n (some e) c = (c.0, (λ j. refl), c.1)

already_voted_lem :
    (w : ℕ → ℕ) (n i : ℕ) (o : Option (ℕ × List ℕ))
    → IsCounted w n o
    → i < n
    → already_voted (voters_of o) i ≡ ok (has_voted o i)
unfolding already_voted has_voted IsCounted
already_voted_lem w n i none c h = refl
already_voted_lem w n i (some e) c h = has-member e.1 i n c.0 h

add_repeated :
    (w : ℕ → ℕ) (n : ℕ) (ix : VotesIndex) (k : VotesCacheId) (i : ℕ)
    → already_voted (voters_of (view ix k)) i ≡ ok true
    → add_llr_vote_weight ix k i n (w i) ≡ ok (weight_of (view ix k), (get_llr_vote_weight ix k).1)
unfolding add_llr_vote_weight
add_repeated w n ix k i e = rw get_llr_vote_weight-view (rw e)

add_first :
    (w : ℕ → ℕ) (n : ℕ) (ix : VotesIndex) (k : VotesCacheId) (i : ℕ) (t : List ℕ)
    → already_voted (voters_of (view ix k)) i ≡ ok false
    → put (set_or_new (voters_of (view ix k)) n) i ≡ ok t
    → let total = u32 (weight_of (view ix k) + w i) in
      add_llr_vote_weight ix k i n (w i) ≡ ok (total, cached (get_llr_vote_weight ix k).1 k total t)
unfolding add_llr_vote_weight
add_first w n ix k i t e f = rw get_llr_vote_weight-view (rw e (rw f))

join_old : (p : ℕ → Bool) (i j : ℕ) → p i ≡ true → p j ≡ (nat_beq i j || p j)
join_old p i j h = elim (Bool-cases (nat_beq i j)) [
  | inl e ↦ rw (sym ((nat_beq_iff i j).0 e)) (ground arith)
  | inr e ↦ rw e
]

view-cached_self :
    (ix : VotesIndex) (k : VotesCacheId) (weight : ℕ) (voters : List ℕ)
    → view (cached ix k weight voters) k ≡ some (weight, voters)
view-cached_self ix k weight voters =
    ground (arith, view-cached ix k k weight voters, id_eq_iff k k)

view-cached_other :
    (ix : VotesIndex) (k j : VotesCacheId) (weight : ℕ) (voters : List ℕ)
    → id_eq k j ≡ false
    → view (cached ix k weight voters) j ≡ view ix j
view-cached_other ix k j weight voters ne = ground (arith, view-cached ix k j weight voters)

-- In a coherent index with a sound entry for the vote, and for weights whose sum fits 32 bits: a
-- vote of a validator of the group is answered with the weight of all that voted so, it included
-- and counted once. The entry stays sound, the index coherent, and no other entry changes.
pub add_llr_vote_weight_lem :
    (w : ℕ → ℕ) (n : ℕ) (ix : VotesIndex) (k : VotesCacheId) (i : ℕ)
    → i < n
    → weight_sum w n < 2 ^ 32
    → IsCoherent ix
    → IsCounted w n (view ix k)
    → VoteAdded w n ix k i
unfolding IsCounted has_voted
add_llr_vote_weight_lem w n ix k i h fits coherent c = elim (Bool-cases (has_voted (view ix k) i)) [
  | inl old ↦
      let same = get_llr_vote_weight_keeps ix k k in
      record {
        weight = weight_of (view ix k);
        after = (get_llr_vote_weight ix k).1;
        returns = add_repeated w n ix k i (already_voted_lem w n i (view ix k) c h ∙ ap ok old);
        is_weight = rw same;
        counted = rw same c;
        exact = rw same (set_or_new_lem w n (view ix k) c).2;
        joined = λ j. rw same (join_old (has_voted (view ix k)) i j old);
        others = λ j ne. get_llr_vote_weight_keeps ix k j;
        coherent = get_llr_vote_weight-IsCoherent ix k coherent;
      }
  | inr first ↦
      let (b, same_voters, sum) = set_or_new_lem w n (view ix k) c in
      let (t, puts, bt, joins) = put_lem (set_or_new (voters_of (view ix k)) n) i n b h in
      let sum' =
        voted_sum-join w (has_voted (view ix k)) (member t) i n
          (λ j. joins j ∙ ap (λ b. nat_beq i j || b) (same_voters j)) first h in
      let total = u32 (weight_of (view ix k) + w i) in
      let exact : total ≡ voted_sum w (member t) n = omega (arith, voted_sum-le w (member t) n) in
      let seen = view-cached_self (get_llr_vote_weight ix k).1 k total t in
      record {
        weight = total;
        after = cached (get_llr_vote_weight ix k).1 k total t;
        returns =
            add_first w n ix k i t (already_voted_lem w n i (view ix k) c h ∙ ap ok first) puts;
        is_weight = rw seen;
        counted = rw seen (bt, exact);
        exact = rw seen exact;
        joined = λ j. rw seen (joins j ∙ ap (λ b. nat_beq i j || b) (same_voters j));
        others = λ j ne.
            view-cached_other (get_llr_vote_weight ix k).1 k j total t ne
            ∙ get_llr_vote_weight_keeps ix k j;
        coherent = cached-IsCoherent _ k total t (get_llr_vote_weight-IsCoherent ix k coherent);
      }
]
