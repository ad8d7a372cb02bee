-- ===== src/BackendOps/Summary/Feeding.antt =====
-- How feed of harness/backend-ops/summary.mjs cuts its input into lines.
use dip_distributed_llm_runt.Prelude.{
  ℕ, zero, suc, ◌≤◌, ◌≡◌, refl, sym, ap, subst, ◌∙◌, Bool, true, false, if◌then◌else◌, List, [],
  ◌∷◌, ◌++◌, Option, none, some, ◌==◌, length, length-append, append-nil, append_assoc, arith,
  if-cases, Bool-cases, inl, inr,
}
use dip_distributed_llm_runt.BackendOps.Patterns.{Text}
use dip_distributed_llm_runt.BackendOps.Summary.{
  BackendOpsSummary, create, count_case, clean_line, line, newline, cut, take_lines, feed,
}

abbrev pub feed_all : List Text → BackendOpsSummary → BackendOpsSummary
feed_all [] s = s
feed_all (chunk ∷ chunks) s = feed_all chunks (feed chunk s)

abbrev pub flat : List Text → Text
flat [] = []
flat (chunk ∷ chunks) = chunk ++ flat chunks

-- One unit of the input at a time.
unfoldable pub push : ℕ → BackendOpsSummary → BackendOpsSummary
push c s =
    if c == newline
    then record (line s.carry s) { carry = [] }
    else record s { carry = s.carry ++ c ∷ [] }

abbrev pub push_all : Text → BackendOpsSummary → BackendOpsSummary
push_all [] s = s
push_all (c ∷ cs) s = push_all cs (push c s)

pub line-carry :
    (a carry : Text) (s : BackendOpsSummary)
    → line a (record s { carry = carry }) ≡ record (line a s) { carry = carry }
unfolding line clean_line count_case
line-carry a carry s = ground arith

pub cut_nil : cut [] ≡ none
unfolding cut
cut_nil = refl

cut_at :
    (a b : Text) (c : ℕ) → cut a ≡ none → (c == newline) ≡ true → cut (a ++ c ∷ b) ≡ some (a, b)
unfolding cut
cut_at [] b c h e = ground arith
cut_at (d ∷ a) b c h e = ground (arith, cut_at a b c)

pub cut-none : (a : Text) (c : ℕ) → cut a ≡ none → (c == newline) ≡ false → cut (a ++ c ∷ []) ≡ none
unfolding cut
cut-none [] c h e = ground arith
cut-none (d ∷ a) c h e = ground (arith, cut-none a c)

take_lines-none : (fuel : ℕ) (s : BackendOpsSummary) → cut s.carry ≡ none → take_lines fuel s ≡ s
unfolding take_lines
take_lines-none zero s h = refl
take_lines-none (suc fuel) s h = ground (arith, h)

take_lines-some :
    (fuel : ℕ) (s : BackendOpsSummary) (a b : Text)
    → cut s.carry ≡ some (a, b)
    → take_lines (suc fuel) s ≡ take_lines fuel (record (line a s) { carry = b })
unfolding take_lines
take_lines-some fuel s a b h = ground (arith, h)

pub push-newline :
    (c : ℕ) (s : BackendOpsSummary)
    → (c == newline) ≡ true
    → push c s ≡ record (line s.carry s) { carry = [] }
unfolding push
push-newline c s h = ground (arith, h)

pub push_other :
    (c : ℕ) (s : BackendOpsSummary)
    → (c == newline) ≡ false
    → push c s ≡ record s { carry = s.carry ++ c ∷ [] }
unfolding push
push_other c s h = ground (arith, h)

-- The loop of feed, with fuel for every unit, does what one unit at a time does.
take_lines-push_all :
    (fuel : ℕ) (cs : Text) (s : BackendOpsSummary)
    → cut s.carry ≡ none
    → length (s.carry ++ cs) ≤ fuel
    → take_lines fuel (record s { carry = s.carry ++ cs }) ≡ push_all cs s
take_lines-push_all fuel [] s h le =
    take_lines-none fuel (record s { carry = s.carry ++ [] }) (ap cut (append-nil s.carry) ∙ h)
    ∙ ap (λ a. record s { carry = a }) (append-nil s.carry)
take_lines-push_all zero (c ∷ cs) s h le = absurd (omega (arith, length-append s.carry (c ∷ cs)))
take_lines-push_all (suc fuel) (c ∷ cs) s h le = elim (Bool-cases (c == newline)) [
  | inl e ↦
      let whole : BackendOpsSummary = record s { carry = s.carry ++ c ∷ cs } in
      let after : BackendOpsSummary = record (line s.carry s) { carry = [] } in
      take_lines-some fuel whole s.carry cs (cut_at s.carry cs c h e)
      ∙ ap (λ t. take_lines fuel (record t { carry = cs }))
          (line-carry s.carry (s.carry ++ c ∷ cs) s)
      ∙ take_lines-push_all fuel cs after cut_nil (omega (arith, length-append s.carry (c ∷ cs)))
      ∙ ap (push_all cs) (sym (push-newline c s e))
  | inr e ↦
      let after : BackendOpsSummary = record s { carry = s.carry ++ c ∷ [] } in
      ap (λ t. take_lines (suc fuel) (record s { carry = t }))
        (sym (append_assoc s.carry (c ∷ []) cs))
      ∙ take_lines-push_all (suc fuel) cs after (cut-none s.carry c h e)
          (subst (λ t. length t ≤ suc fuel) (sym (append_assoc s.carry (c ∷ []) cs)) le)
      ∙ ap (push_all cs) (sym (push_other c s e))
]

-- No line waits in the carry.
abbrev pub IsCut : BackendOpsSummary → Type 0
IsCut s = cut s.carry ≡ none

push-IsCut : (c : ℕ) (s : BackendOpsSummary) → IsCut s → IsCut (push c s)
unfolding push
push-IsCut c s h = if-cases IsCut (c == newline) (λ e. cut_nil) (λ e. cut-none s.carry c h e)

push_all-IsCut : (cs : Text) (s : BackendOpsSummary) → IsCut s → IsCut (push_all cs s)
push_all-IsCut [] s h = h
push_all-IsCut (c ∷ cs) s h = push_all-IsCut cs (push c s) (push-IsCut c s h)

push_all-append :
    (a b : Text) (s : BackendOpsSummary) → push_all (a ++ b) s ≡ push_all b (push_all a s)
push_all-append [] b s = refl
push_all-append (c ∷ a) b s = push_all-append a b (push c s)

pub feed-push_all :
    (chunk : Text) (s : BackendOpsSummary) → IsCut s → feed chunk s ≡ push_all chunk s
unfolding feed
feed-push_all chunk s h = take_lines-push_all (length (s.carry ++ chunk)) chunk s h (omega arith)

pub feed_all-push_all :
    (chunks : List Text) (s : BackendOpsSummary)
    → IsCut s
    → feed_all chunks s ≡ push_all (flat chunks) s
feed_all-push_all [] s h = refl
feed_all-push_all (chunk ∷ chunks) s h =
    ap (feed_all chunks) (feed-push_all chunk s h)
    ∙ feed_all-push_all chunks (push_all chunk s) (push_all-IsCut chunk s h)
    ∙ sym (push_all-append chunk (flat chunks) s)

-- The judge does not depend on how its input is sliced: any chunks, lines whole or split, leave the
-- state that their concatenation leaves.
pub feed_all-flat :
    (expected : Option ℕ) (target : Text → Bool) (chunks : List Text)
    → feed_all chunks (create expected target) ≡ feed (flat chunks) (create expected target)
unfolding create cut
feed_all-flat expected target chunks =
    feed_all-push_all chunks (create expected target) refl
    ∙ sym (feed-push_all (flat chunks) (create expected target) refl)
