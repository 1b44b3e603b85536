-- ===== src/Gossip/Llr/Safety.antt =====
-- What every step of a run of block votes keeps, and what it does to backers and results.
use go_opera.Base.{ℕ, zero, suc, ◌≤◌, ◌<◌, Bool, true, ◌≡◌}
use go_opera.Base.{List, [], ◌∷◌, ◌||◌, refl}
use go_opera.Base.{sym, ap, ◌∙◌, arith, nat_beq_iff}
use go_opera.Base.{lookup, nat_eq, some, none, Bool-cases, ok, inl, inr}
use go_opera.Pos.{Validators, IsGroup}
use go_opera.Gossip.VotesIndex.{VotesCacheId, VotesIndex, id_eq, id_eq_iff, evict, flush_mutated}
use go_opera.Gossip.VotesIndex.View.{view, IsCoherent, evict_lem, flush_mutated_lem}
use go_opera.Gossip.VotesIndex.Weights.{voted_sum}
use go_opera.Gossip.Store.{Store, get_llr_block_result}
use go_opera.Gossip.Llr.Ballots.{
  Step, vote, evicted, flushed, elsewhere, Run, here, next, with_index, Ballot, gave, ballots_of,
  ballots, gave-append,
}
use go_opera.Gossip.Llr.Voting.{
  quorum, key_of, backers, backing, IsSound, new_result, BlockVoteProcessed, process_block_vote_lem,
}
use mathlib.Core.Path.{subst}

pub voted_sum_mono :
    (w : ℕ → ℕ) (p q : ℕ → Bool) (n : ℕ)
    → ((j : ℕ) → p j ≡ true → q j ≡ true)
    → voted_sum w p n ≤ voted_sum w q n
unfolding voted_sum
voted_sum_mono w p q zero h = omega arith
voted_sum_mono w p q (suc n) h = ground (arith, h n, voted_sum_mono w p q n h)

-- A store that changed its index of votes only in what no reader sees.
same_view :
    (vals : Validators) (s : Store) (ix : VotesIndex)
    → ((j : VotesCacheId) → view ix j ≡ view s.block_votes_index j) × IsCoherent ix
    → IsSound vals s
    → IsSound vals (with_index s ix)
same_view vals s ix (same, coherent) sound = record {
  coherent = coherent;
  counted = λ k. rw (same k) (sound.counted k);
}

-- What a step with the votes `bs` does to backers and results.
pub record Stepped (vals : Validators) (s t : Store) (bs : List Ballot) : Type 0 where
  pub sound : IsSound vals t
  pub credited : (k : VotesCacheId) (j : ℕ) → backers t k j ≡ (gave bs k j || backers s k j)
  pub keeps : (b v : ℕ) → get_llr_block_result s b ≡ some v → get_llr_block_result t b ≡ some v
  pub backed :
      (b v : ℕ)
      → get_llr_block_result s b ≡ none
      → get_llr_block_result t b ≡ some v
      → (epoch : ℕ) × (quorum vals ≤ backing vals t (key_of b epoch v))
  pub decides :
      (k : VotesCacheId)
      → quorum vals ≤ backing vals t k
      → get_llr_block_result t k.block ≡ none
      → quorum vals ≤ backing vals s k

index_step :
    (vals : Validators) (s : Store) (ix : VotesIndex)
    → ((j : VotesCacheId) → view ix j ≡ view s.block_votes_index j) × IsCoherent ix
    → IsSound vals s
    → Stepped vals s (with_index s ix) []
unfolding get_llr_block_result
index_step vals s ix same sound = record {
  sound = same_view vals s ix same sound;
  credited = λ k j. rw (same.0 k) refl;
  keeps = λ b v h. h;
  backed = λ b v before after. cc;
  decides = λ k h open_block. rw (same.0 k) at h;
}

abbrev ballot : (block epoch bv val : ℕ) → Ballot
ballot block epoch bv val = record { key = key_of block epoch bv; val = val }

processed_credited :
    (vals : Validators) (s : Store) (block epoch bv val : ℕ)
    → (done : BlockVoteProcessed vals s block epoch bv val) → (k : VotesCacheId) (j : ℕ)
    → backers done.after k j ≡ (gave (ballot block epoch bv val ∷ []) k j || backers s k j)
processed_credited vals s block epoch bv val done k j =
    elim (Bool-cases (id_eq (key_of block epoch bv) k)) [
      | inr other ↦ rw (other, done.others k other) refl
      | inl same ↦
          subst
            (λ k.
              id_eq (key_of block epoch bv) k ≡ true
              → backers done.after k j
                ≡ (gave (ballot block epoch bv val ∷ []) k j || backers s k j))
            ((id_eq_iff _ k).0 same) (λ this. ground (arith, done.joined j)) same
    ]

processed_backed :
    (vals : Validators) (s : Store) (block epoch bv val : ℕ)
    → (done : BlockVoteProcessed vals s block epoch bv val) → (b v : ℕ)
    → get_llr_block_result s b ≡ none
    → get_llr_block_result done.after b ≡ some v
    → quorum vals ≤ backing vals done.after (key_of b epoch v)
unfolding new_result
processed_backed vals s block epoch bv val done b v before after = ground (arith, done.results b)

processed_decides :
    (vals : Validators) (s : Store) (block epoch bv val : ℕ)
    → (done : BlockVoteProcessed vals s block epoch bv val) → (k : VotesCacheId)
    → quorum vals ≤ backing vals done.after k
    → get_llr_block_result done.after k.block ≡ none
    → quorum vals ≤ backing vals s k
unfolding new_result
processed_decides vals s block epoch bv val done k h open_block =
    elim (Bool-cases (id_eq (key_of block epoch bv) k)) [
      | inr other ↦ rw (done.others k other) at h
      | inl same ↦
          subst
            (λ k.
              quorum vals ≤ backing vals done.after k
              → get_llr_block_result done.after k.block ≡ none
              → quorum vals ≤ backing vals s k)
            ((id_eq_iff _ k).0 same) (λ enough open_here. ground (arith, done.results block)) h
            open_block
    ]

processed_keeps :
    (vals : Validators) (s : Store) (block epoch bv val : ℕ)
    → (done : BlockVoteProcessed vals s block epoch bv val) → (b v : ℕ)
    → get_llr_block_result s b ≡ some v
    → get_llr_block_result done.after b ≡ some v
unfolding new_result
processed_keeps vals s block epoch bv val done b v h =
    ground (arith, done.results b, nat_beq_iff block b)

vote_step :
    (vals : Validators) (s : Store) (block epoch bv val : ℕ)
    → (done : BlockVoteProcessed vals s block epoch bv val)
    → Stepped vals s done.after (ballot block epoch bv val ∷ [])
vote_step vals s block epoch bv val done = record {
  sound = done.sound;
  credited = processed_credited vals s block epoch bv val done;
  keeps = processed_keeps vals s block epoch bv val done;
  backed =
      λ b v before after. (epoch, processed_backed vals s block epoch bv val done b v before after);
  decides = processed_decides vals s block epoch bv val done;
}

elsewhere_step :
    (vals : Validators) (s t : Store)
    → t.block_votes_index ≡ s.block_votes_index
    → t.block_results ≡ s.block_results
    → IsSound vals s
    → Stepped vals s t []
unfolding get_llr_block_result
elsewhere_step vals s t same_index same_results sound = record {
  sound = record {
    coherent = rw same_index sound.coherent;
    counted = λ k. rw same_index (sound.counted k);
  };
  credited = λ k j. rw same_index refl;
  keeps = λ b v h. rw same_results h;
  backed = λ b v before after. absurd (ground (arith, ap (lookup b) same_results));
  decides = λ k h open_block. rw same_index at h;
}

ok-injective : {A : Type 0} (a b : A) → ok a ≡ ok b → a ≡ b
ok-injective a b h = cc

pub step_lem :
    (vals : Validators) (s t : Store)
    → IsGroup vals
    → IsSound vals s
    → (step : Step vals s t) → Stepped vals s t (ballots_of step)
step_lem vals s t group sound (vote block epoch bv val h e) =
    let done = process_block_vote_lem vals s block epoch bv val group h sound in
    subst (λ t. Stepped vals s t (ballot block epoch bv val ∷ []))
      (ok-injective _ _ (sym done.returns ∙ e)) (vote_step vals s block epoch bv val done)
step_lem vals s t group sound (evicted k e) =
    subst (λ t. Stepped vals s t []) (sym e)
      (index_step vals s (evict s.block_votes_index k)
        (evict_lem s.block_votes_index k sound.coherent) sound)
step_lem vals s t group sound (flushed e) =
    subst (λ t. Stepped vals s t []) (sym e)
      (index_step vals s (flush_mutated s.block_votes_index)
        (flush_mutated_lem s.block_votes_index sound.coherent) sound)
step_lem vals s t group sound (elsewhere same_index same_results) =
    elsewhere_step vals s t same_index same_results sound

-- The members of a set of validators that grows stay.
pub grows :
    {vals : Validators} {s t : Store} {bs : List Ballot}
    → Stepped vals s t bs
    → (k : VotesCacheId) (j : ℕ) → backers s k j ≡ true
    → backers t k j ≡ true
grows r k j h = ground (arith, r.credited k j)

-- The backers after a run are those before it and those that voted in it.
pub Run-credited :
    (vals : Validators) (s t : Store)
    → IsGroup vals
    → IsSound vals s
    → (run : Run vals s t)
    → IsSound vals t
      × ((k : VotesCacheId) (j : ℕ) → backers t k j ≡ (gave (ballots run) k j || backers s k j))
Run-credited vals s t group sound here = (sound, λ k j. refl)
Run-credited vals s t group sound (next {t = u} run step) =
    let (sound', before) = Run-credited vals s u group sound run in
    let r = step_lem vals u t group sound' step in
    (
      r.sound,
      λ k j.
          ground
            (arith, r.credited k j, before k j, gave-append (ballots run) (ballots_of step) k j),
    )

-- The invariant of all runs.
pub record IsDecided (vals : Validators) (s : Store) : Type 0 where
  pub sound : IsSound vals s
  pub backed :
      (b v : ℕ)
      → get_llr_block_result s b ≡ some v
      → (epoch : ℕ) × (quorum vals ≤ backing vals s (key_of b epoch v))
  pub complete :
      (k : VotesCacheId) → get_llr_block_result s k.block ≡ none → backing vals s k < quorum vals
