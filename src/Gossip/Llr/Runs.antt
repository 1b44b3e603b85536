-- ===== src/Gossip/Llr/Runs.antt =====
-- What holds of every run of LLR block votes.
use go_opera.Base.{List}
use go_opera.Base.{ℕ, zero, suc, ◌/◌, ◌≤◌, ◌<◌, Bool, true, false, ◌≡◌, ◌≢◌}
use go_opera.Base.{refl, arith, some, none, Option-cases, inl, inr}
use go_opera.Pos.{Validators, IsGroup}
use go_opera.Gossip.VotesIndex.{VotesCacheId}
use go_opera.Gossip.VotesIndex.View.{view}
use go_opera.Gossip.VotesIndex.Weights.{voted_sum, voted_sum-none, has_voted}
use go_opera.Gossip.Store.{Store, get_llr_block_result}
use go_opera.Gossip.Llr.Voting.{quorum, key_of, backing, IsSound}
use go_opera.Gossip.Llr.Safety.{Stepped, grows, Run-credited, IsDecided, step_lem, voted_sum_mono}
use go_opera.Gossip.Llr.Ballots.{Step, Run, here, next, Ballot, gave, ballots, ballots_of}
use native.Mathlib.Decide.{dec_lt}
use mathlib.Core.Path.{subst}

-- A store at which voting starts: no block is decided and nobody has voted.
pub record IsStart (vals : Validators) (s : Store) : Type 0 where
  pub sound : IsSound vals s
  pub undecided : (b : ℕ) → get_llr_block_result s b ≡ none
  pub nobody : (k : VotesCacheId) → view s.block_votes_index k ≡ none

start-IsDecided : (vals : Validators) (s : Store) → IsStart vals s → IsDecided vals s
unfolding has_voted
start-IsDecided vals s start = record {
  sound = start.sound;
  backed = λ b v h. ground (arith, start.undecided b);
  complete = λ k h.
      rw (start.nobody k)
        (omega (arith, voted_sum-none vals.get_weight_by_idx (λ j. false) vals.len (λ j. refl)));
}

-- A result that stood before a step keeps its backing.
older :
    (vals : Validators) (s t : Store)
    → (bs : List Ballot) → Stepped vals s t bs
    → IsDecided vals s
    → (b v v' : ℕ) → get_llr_block_result s b ≡ some v'
    → get_llr_block_result t b ≡ some v
    → (epoch : ℕ) × (quorum vals ≤ backing vals t (key_of b epoch v))
older vals s t bs r d b v v' before after =
    let (epoch, enough) = d.backed b v' before in
    let same : v' ≡ v = ground (arith, r.keeps b v' before) in
    let more = voted_sum_mono vals.get_weight_by_idx _ _ vals.len (grows r (key_of b epoch v')) in
    (epoch, subst (λ v. quorum vals ≤ backing vals t (key_of b epoch v)) same (omega arith))

-- A hash that has the quorum after a step has its block decided.
not_open :
    (vals : Validators) (s t : Store)
    → (bs : List Ballot) → Stepped vals s t bs
    → IsDecided vals s
    → (k : VotesCacheId) → get_llr_block_result t k.block ≡ none
    → quorum vals ≤ backing vals t k
    → ⊥
not_open vals s t bs r d k h many = elim (Option-cases (get_llr_block_result s k.block)) [
  | inr (v, before) ↦ ground (arith, r.keeps k.block v before)
  | inl before ↦ absurd (omega (arith, r.decides k many h, d.complete k before))
]

Step-IsDecided :
    (vals : Validators) (s t : Store)
    → IsGroup vals
    → IsDecided vals s
    → Step vals s t
    → IsDecided vals t
Step-IsDecided vals s t group d step =
    let r = step_lem vals s t group d.sound step in
    record {
      sound = r.sound;
      backed = λ b v h. elim (Option-cases (get_llr_block_result s b)) [
        | inl before ↦ r.backed b v before h
        | inr (v', before) ↦ older vals s t (ballots_of step) r d b v v' before h
      ];
      complete = λ k h. elim (dec_lt (backing vals t k) (quorum vals)) [
        | yes few ↦ few
        | no many ↦ absurd (not_open vals s t (ballots_of step) r d k h (omega arith))
      ];
    }

Run-IsDecided :
    (vals : Validators) (s t : Store)
    → IsGroup vals
    → IsDecided vals s
    → Run vals s t
    → IsDecided vals t
Run-IsDecided vals s t group d here = d
Run-IsDecided vals s t group d (next {t = u} run step) =
    Step-IsDecided vals u t group (Run-IsDecided vals s u group d run) step

-- The weight of the validators that voted for the hash of `k`, each counted once.
abbrev pub ballot_weight : Validators → List Ballot → VotesCacheId → ℕ
ballot_weight vals bs k = voted_sum vals.get_weight_by_idx (gave bs k) vals.len

voted_sum_same :
    (w : ℕ → ℕ) (p q : ℕ → Bool) (n : ℕ) → ((j : ℕ) → p j ≡ q j) → voted_sum w p n ≡ voted_sum w q n
unfolding voted_sum
voted_sum_same w p q zero same = refl
voted_sum_same w p q (suc n) same = rw (same n, voted_sum_same w p q n same) refl

-- The weight that the store counts for a hash is that of the votes of the run.
backing-ballots :
    (vals : Validators) (s t : Store)
    → IsGroup vals
    → IsStart vals s
    → (run : Run vals s t) → (k : VotesCacheId)
    → backing vals t k ≡ ballot_weight vals (ballots run) k
unfolding has_voted
backing-ballots vals s t group start run k =
    let (_, credited) = Run-credited vals s t group start.sound run in
    voted_sum_same vals.get_weight_by_idx _ _ vals.len (λ j.
      let nobody : has_voted (view s.block_votes_index k) j ≡ false = rw (start.nobody k) refl in
      ground (arith, credited k j, nobody))

-- From a store where nobody has voted, whatever the order of the votes and the cache's evictions
-- and flushes between them: for a decided block's hash there is an epoch in which validators of
-- more than a third of the group's weight, each counted once, voted for it in the run; and once
-- validators of that weight voted for a hash of a block in an epoch, the block is decided.
pub Run-decides :
    (vals : Validators) (s t : Store)
    → IsGroup vals
    → IsStart vals s
    → (run : Run vals s t)
    → ((b v : ℕ)
        → get_llr_block_result t b ≡ some v
        → (epoch : ℕ) × (quorum vals ≤ ballot_weight vals (ballots run) (key_of b epoch v)))
      × ((k : VotesCacheId)
          → quorum vals ≤ ballot_weight vals (ballots run) k
          → get_llr_block_result t k.block ≢ none)
Run-decides vals s t group start run =
    let d = Run-IsDecided vals s t group (start-IsDecided vals s start) run in
    let counted = backing-ballots vals s t group start run in
    (
      λ b v h.
          let (epoch, enough) = d.backed b v h in
          (epoch, omega (arith, enough, counted (key_of b epoch v))),
      λ k many open_block. omega (arith, d.complete k open_block, counted k),
    )

-- The weight of two sets of validators: if the first's is larger, it has a member that the
-- second has not.
outweighs :
    (w : ℕ → ℕ) (p bad : ℕ → Bool) (n : ℕ)
    → voted_sum w bad n < voted_sum w p n
    → (i : ℕ) × (i < n) × (p i ≡ true) × (bad i ≡ false)
unfolding voted_sum
outweighs w p bad zero h = absurd (omega arith)
outweighs w p bad (suc n) h = elim (dec_lt (voted_sum w bad n) (voted_sum w p n)) [
  | yes less ↦ let (i, lt, pi, bi) = outweighs w p bad n less in (i, omega arith, pi, bi)
  | no not_less ↦ (n, omega arith, ground arith, ground arith)
]

-- If the validators that misbehave have at most a third of the group's weight, then for every
-- decided hash the run has a vote, in some epoch, of a validator that does not.
pub decided_has_honest_backer :
    (vals : Validators) (s t : Store) (bad : ℕ → Bool)
    → IsGroup vals
    → IsStart vals s
    → (run : Run vals s t) → voted_sum vals.get_weight_by_idx bad vals.len ≤ vals.total_weight / 3
    → (b v : ℕ) → get_llr_block_result t b ≡ some v
    → (epoch i : ℕ) × (i < vals.len)
      × (gave (ballots run) (key_of b epoch v) i ≡ true)
      × (bad i ≡ false)
decided_has_honest_backer vals s t bad group start run few b v h =
    let (epoch, enough) = (Run-decides vals s t group start run).0 b v h in
    let (i, lt, voted, honest) =
      outweighs vals.get_weight_by_idx (gave (ballots run) (key_of b epoch v)) bad vals.len
        (omega arith) in
    (epoch, i, lt, voted, honest)

keeps :
    (vals : Validators) (s t : Store) (b v : ℕ)
    → IsGroup vals
    → IsSound vals s
    → Run vals s t
    → get_llr_block_result s b ≡ some v
    → IsSound vals t × (get_llr_block_result t b ≡ some v)
keeps vals s t b v group sound here h = (sound, h)
keeps vals s t b v group sound (next {t = u} run step) h =
    let (sound', h') = keeps vals s u b v group sound run h in
    let r = step_lem vals u t group sound' step in (r.sound, r.keeps b v h')

-- A decided block's hash is final: no run of votes, evictions and flushes changes it.
pub Run-keeps_result :
    (vals : Validators) (s t : Store) (b v : ℕ)
    → IsGroup vals
    → IsSound vals s
    → Run vals s t
    → get_llr_block_result s b ≡ some v
    → get_llr_block_result t b ≡ some v
Run-keeps_result vals s t b v group sound run h = (keeps vals s t b v group sound run h).1
