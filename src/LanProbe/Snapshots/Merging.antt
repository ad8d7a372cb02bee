-- ===== src/LanProbe/Snapshots/Merging.antt =====
-- What mergeObserved leaves at one pair: the fold of `observe` over the observations of that pair.
use dip_distributed_llm_runt.Prelude.{
  map, ℕ, ◌≡◌, refl, ◌∙◌, ite, if_pos, if_neg, List, [], ◌∷◌, Option, none, some, arith,
}
use dip_distributed_llm_runt.Prelude.Dict
use dip_distributed_llm_runt.Prelude.Dict.{Dict}
use dip_distributed_llm_runt.LanProbe.Candidates.{Text, Signaled}
use dip_distributed_llm_runt.LanProbe.Selection.{Pair, Digest, digest_stats}
use dip_distributed_llm_runt.LanProbe.Snapshots.{
  Id-discrete, Observed, Rec, Answer, observe, merge_pairs, merge_observed, apply_latest, settle,
  settle_answer,
}

-- An observation: the request that made it and what it saw of the pair.
abbrev pub Seen : Type 0
Seen = ℕ × Pair

-- The observations of the pair `k` in one digest, on top of those there are: latest first.
unfoldable pub watched_in : Text → ℕ → List Pair → List Seen → List Seen
watched_in k seq [] before = before
watched_in k seq (p ∷ ps) before =
    watched_in k seq ps (ite (Id-discrete p.id k) ((seq, p) ∷ before) before)

-- What the observations leave, latest first.
unfoldable pub observe_all : List Seen → Option Observed
observe_all [] = none
observe_all ((seq, p) ∷ before) = some (observe seq p (observe_all before))

pub get-merge_pairs :
    (k : Text) (seq : ℕ) (pairs : List Pair) (before : List Seen) (seen : Dict Text Observed)
    → Dict.get Id-discrete k seen ≡ observe_all before
    → Dict.get Id-discrete k (merge_pairs seq pairs seen)
      ≡ observe_all (watched_in k seq pairs before)
unfolding merge_pairs watched_in
get-merge_pairs k seq [] before seen e = e
get-merge_pairs k seq (p ∷ ps) before seen e = elim (Id-discrete p.id k) [
  | yes q ↦ rw (if_pos _ q) (
      get-merge_pairs k seq ps ((seq, p) ∷ before) _ (
        unfold observe_all in
        (cc (
          Dict.get-set_self Id-discrete k (observe seq p (Dict.get Id-discrete k seen)) seen,
          e,
          q,
        ))))
  | no q ↦
      rw (if_neg _ q)
        (get-merge_pairs k seq ps before _ (Dict.get-set_ne Id-discrete k p.id _ seen q ∙ e))
]

-- The digest that an answer gives, on a connection with these signalled candidates.
unfoldable pub pairs_in : List Signaled → List Signaled → Answer → List Pair
pairs_in ours theirs (Answer.report stats) = (digest_stats ours theirs stats).pairs
pairs_in ours theirs (Answer.failed error) = []

pub record Settlement : Type 0 where
  pub seq : ℕ
  pub now : ℕ
  pub answer : Answer

-- The settlements of a connection's requests, latest first.
unfoldable pub settle_all : List Settlement → Rec → Rec
settle_all [] r = r
settle_all (u ∷ us) r = settle_answer u.seq u.now u.answer (settle_all us r)

-- What a settlement shows: its request and the pairs of its digest.
abbrev pub Sighting : Type 0
Sighting = ℕ × List Pair

abbrev pub sighting : List Signaled → List Signaled → Settlement → Sighting
sighting ours theirs u = (u.seq, pairs_in ours theirs u.answer)

unfoldable pub watched : Text → List Sighting → List Seen
watched k [] = []
watched k ((seq, pairs) ∷ hs) = watched_in k seq pairs (watched k hs)

apply_latest_observed :
    (seq now : ℕ) (d : Digest) (r : Rec)
    → (apply_latest seq now d r).ever_observed ≡ r.ever_observed
unfolding apply_latest
apply_latest_observed seq now d r = ground arith

settle_answer_observed :
    (seq now : ℕ) (a : Answer) (r : Rec)
    → (settle_answer seq now a r).ever_observed
      ≡ merge_pairs seq (pairs_in r.candidates r.remote_candidates a) r.ever_observed
unfolding settle_answer settle pairs_in merge_observed merge_pairs
settle_answer_observed seq now (Answer.report stats) r = rw apply_latest_observed refl
settle_answer_observed seq now (Answer.failed error) r = refl

pub settle_answer_candidates :
    (seq now : ℕ) (a : Answer) (r : Rec)
    → ((settle_answer seq now a r).candidates ≡ r.candidates)
      × ((settle_answer seq now a r).remote_candidates ≡ r.remote_candidates)
unfolding settle_answer settle merge_observed apply_latest
settle_answer_candidates seq now (Answer.report stats) r = ground arith
settle_answer_candidates seq now (Answer.failed error) r = (refl, refl)

pub settle_all_candidates :
    (us : List Settlement) (r : Rec)
    → ((settle_all us r).candidates ≡ r.candidates)
      × ((settle_all us r).remote_candidates ≡ r.remote_candidates)
unfolding settle_all
settle_all_candidates [] r = (refl, refl)
settle_all_candidates (u ∷ us) r =
    let (a, b) = settle_all_candidates us r in
    let (c, d) = settle_answer_candidates u.seq u.now u.answer (settle_all us r) in (c ∙ a, d ∙ b)

pub get-settle_all :
    (k : Text) (us : List Settlement) (r : Rec)
    → r.ever_observed ≡ []
    → Dict.get Id-discrete k (settle_all us r).ever_observed
      ≡ observe_all (watched k (map (sighting r.candidates r.remote_candidates) us))
unfolding settle_all watched
get-settle_all k [] r fresh = rw fresh (unfold Dict.get observe_all in refl)
get-settle_all k (u ∷ us) r fresh =
    let (a, b) = settle_all_candidates us r in
    rw (settle_answer_observed, a, b)
      (get-merge_pairs k u.seq _ (watched k (map (sighting r.candidates r.remote_candidates) us)) _
        (get-settle_all k us r fresh))
