-- ===== src/LanProbe/Tests/Requests.antt =====
-- Two requests of scripts/lan-probe.js for the statistics of one connection.
use dip_distributed_llm_runt.Prelude.{ℕ, ◌≡◌, refl, sym, ap, inl, inr, [], ◌∷◌, none, Member, arith}
use dip_distributed_llm_runt.Prelude.Text.{codes}
use dip_distributed_llm_runt.Prelude.Dict
use dip_distributed_llm_runt.LanProbe.Candidates.{Text, option_map}
use dip_distributed_llm_runt.LanProbe.Selection.{Digest}
use dip_distributed_llm_runt.LanProbe.Snapshots.{
  Id-discrete, Rec, Answer, begin, settle_answer, settle, complete, apply_latest, merge_observed,
}
use dip_distributed_llm_runt.LanProbe.Snapshots.Facts.{facts}
use dip_distributed_llm_runt.LanProbe.Snapshots.Newest.{entry, newest, seq_of}
use dip_distributed_llm_runt.LanProbe.Snapshots.Sightings.{replay}
use dip_distributed_llm_runt.LanProbe.Snapshots.Merging.{Settlement, settle_all}
use dip_distributed_llm_runt.LanProbe.Snapshots.Order.{OneEach, Included}
use dip_distributed_llm_runt.LanProbe.Snapshots.Settling.{answers, answer_of, pairs_any_order}
use dip_distributed_llm_runt.LanProbe.Connections.{
  Probe, installed, fresh_rec, construct, modify, snapshot, start_snapshot, land,
}
use dip_distributed_llm_runt.LanProbe.Connections.Steps.{IsOpen, Step, Reach}
use dip_distributed_llm_runt.LanProbe.Connections.Reach.{Reach-latest, Reach-replay}
use dip_distributed_llm_runt.LanProbe.Tests.{one_connection, one_pair, checking_pair}

-- Two requests of a connection, in the two orders.
abbrev late_check : Settlement
late_check = record { seq = 1; now = 20; answer = Answer.report checking_pair }

abbrev connected : Settlement
connected = record { seq = 2; now = 15; answer = Answer.report one_pair }

abbrev early_check : Settlement
early_check = record late_check { now = 10 }

abbrev a_rec : Rec
a_rec = fresh_rec 1 5 (codes "{}")

abbrev swap_answers : (a b : Settlement) → Included (answers (a ∷ b ∷ [])) (answers (b ∷ a ∷ []))
swap_answers a b x (inl e) = inr (inl e)
swap_answers a b x (inr (inl e)) = inl e
swap_answers a b x (inr (inr n)) = absurd n

apart : (n : ℕ) (p q : Answer) → (n, p) ≡ answer_of connected → (n, q) ≡ answer_of late_check → ⊥
apart n p q e f =
    let a : n ≡ 2 = ap (λ (x : ℕ × Answer). x.0) e in
    let b : n ≡ 1 = ap (λ (x : ℕ × Answer). x.0) f in omega (arith, a, b)

one_answer : OneEach (answers (connected ∷ late_check ∷ []))
one_answer n p q (inl e) (inl f) = cc (e, f)
one_answer n p q (inl e) (inr (inl f)) = absurd (apart n p q (sym e) (sym f))
one_answer n p q (inr (inl e)) (inl f) = absurd (apart n q p (sym f) (sym e))
one_answer n p q (inr (inl e)) (inr (inl f)) = cc (e, f)
one_answer n p q (inl e) (inr (inr m)) = absurd m
one_answer n p q (inr (inr m)) k = absurd m
one_answer n p q (inr (inl e)) (inr (inr m)) = absurd m

abbrev first_code : Text → ℕ
first_code [] = 0
first_code (c ∷ cs) = c

ids_apart : codes "P" ≡ codes "L" → ⊥
ids_apart e = let h : 80 ≡ 76 = ap first_code e in omega (arith, h)

pairs_any_order_example :
    option_map facts (
      Dict.get Id-discrete
        (codes "P")
        (settle_all (late_check ∷ connected ∷ []) a_rec).ever_observed)
    ≡ option_map facts (
        Dict.get Id-discrete
          (codes "P")
          (settle_all (connected ∷ early_check ∷ []) a_rec).ever_observed)
pairs_any_order_example =
    pairs_any_order (late_check ∷ connected ∷ []) (connected ∷ early_check ∷ []) a_rec (codes "P")
      (unfold fresh_rec in refl) (swap_answers late_check connected)
      (swap_answers connected late_check) one_answer
      ((((λ e. ids_apart e), tt), (tt, tt)), ((tt, tt), tt))

-- Two requests of a connection are open at once, and the second settles first.
abbrev asked : Probe
asked = snapshot 0 (codes "manual") 11 none (snapshot 0 (codes "manual") 10 none one_connection)

asked_Reach : Reach asked
asked_Reach =
    Reach.after
      (Reach.after (Reach.after Reach.start (Step.constructs 5 (codes "{}")))
        (Step.asks 0 (codes "manual") 10 none))
      (Step.asks 0 (codes "manual") 11 none)

abbrev asked_rec : Rec
asked_rec = begin 2 (codes "manual") 11 (begin 1 (codes "manual") 10 a_rec)

second_IsOpen : IsOpen 0 2 asked
unfolding installed construct modify snapshot start_snapshot begin fresh_rec
second_IsOpen = record {
  rec = asked_rec;
  entry = entry 2 (codes "manual") 11;
  here = refl;
  made = inr (inl refl);
  seq_eq = refl;
  waiting = refl;
}

abbrev half_answered : Probe
half_answered = land 0 2 15 (Answer.report one_pair) asked

first_IsOpen : IsOpen 0 1 half_answered
unfolding installed construct modify snapshot start_snapshot begin fresh_rec land settle_answer
    settle complete apply_latest merge_observed
first_IsOpen = record {
  rec = settle_answer 2 15 (Answer.report one_pair) asked_rec;
  entry = entry 1 (codes "manual") 10;
  here = refl;
  made = inl refl;
  seq_eq = refl;
  waiting = refl;
}

answered_Reach : Reach (land 0 1 20 (Answer.report checking_pair) half_answered)
answered_Reach =
    Reach.after
      (Reach.after asked_Reach (
        Step.lands 0 2 15 (Answer.report one_pair) second_IsOpen
          (((λ e. ids_apart e), tt), (tt, tt))))
      (Step.lands 0 1 20 (Answer.report checking_pair) first_IsOpen (tt, tt))

abbrev answered_rec : Rec
answered_rec =
    settle_answer 1 20 (Answer.report checking_pair)
      (settle_answer 2 15 (Answer.report one_pair) asked_rec)

answered_Member :
    Member answered_rec (land 0 1 20 (Answer.report checking_pair) half_answered).connections
unfolding installed construct modify snapshot start_snapshot begin fresh_rec land
answered_Member = inl refl

Reach-latest_example :
    (answered_rec.stats ≡ option_map (λ (x : ℕ × Digest). x.1) (newest answered_rec.snapshots))
    × (answered_rec.latest_seq ≡ seq_of (newest answered_rec.snapshots))
Reach-latest_example = Reach-latest answered_rec answered_Reach answered_Member

Reach-replay_example :
    option_map facts (Dict.get Id-discrete (codes "P") answered_rec.ever_observed)
    ≡ option_map facts (Dict.get Id-discrete (codes "P") (replay answered_rec.snapshots []))
Reach-replay_example = Reach-replay answered_rec (codes "P") answered_Reach answered_Member

-- The later request stays in place.
keeps_second : answered_rec.latest_seq ≡ 2
unfolding fresh_rec begin settle_answer settle complete apply_latest merge_observed
keeps_second = refl
