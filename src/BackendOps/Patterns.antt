-- ===== src/BackendOps/Patterns.antt =====
-- The patterns of harness/backend-ops/summary.mjs as matchers, and classifyOutcome.
--
-- A matcher backtracks as a JavaScript pattern does: it takes the leftmost start, a greedy repetition
-- tries the longer way first, and the first way that succeeds wins. `none` is no match.
use dip_distributed_llm_runt.Prelude.{
  ℕ, zero, suc, ◌+◌, ◌-◌, ◌*◌, Bool, true, false, not, ◌&&◌, ◌||◌, if◌then◌else◌, List, [], ◌∷◌,
  Option, none, some, leb, ◌==◌, length,
}
use dip_distributed_llm_runt.Prelude.Text.{codes, is_space, is_digit, is_line_end, is_word}

abbrev pub Text : Type 0
Text = List ℕ

-- The first way, or else the second.
abbrev pub or_else {ℓ} : {A : Type ℓ} → Option A → Option A → Option A
or_else none second = second
or_else (some a) second = some a

-- What follows a literal at the front.
unfoldable pub after : Text → Text → Option Text
after [] xs = some xs
after (p ∷ ps) [] = none
after (p ∷ ps) (x ∷ xs) = let rest = after ps xs in if p == x then rest else none

-- The length of `[0-9;]*m` at the front: what ends the sequence that ESC and `[` begin.
unfoldable pub ansi_length : Text → Option ℕ
ansi_length [] = none
ansi_length (c ∷ cs) =
    let more = ansi_length cs in
    if is_digit c || (c == b';')
    then elim more [ none ↦ none | some n ↦ some (suc n) ]
    else if c == b'm'
    then some 1
    else none

abbrev pub escape : ℕ
escape = 27

unfoldable pub sequence_length : Text → Option ℕ
sequence_length [] = none
sequence_length (c ∷ cs) =
    if c == b'[' then elim (ansi_length cs) [ none ↦ none | some n ↦ some (suc n) ] else none

-- `raw.replace(ANSI, "")`, with `skip` units of a sequence still to drop.
unfoldable pub strip_ansi : ℕ → Text → Text
strip_ansi skip [] = []
strip_ansi (suc skip) (c ∷ cs) = strip_ansi skip cs
strip_ansi zero (c ∷ cs) =
    if c == escape
    then elim (sequence_length cs) [ none ↦ c ∷ strip_ansi zero cs | some n ↦ strip_ansi n cs ]
    else c ∷ strip_ansi zero cs

-- `.replace(/\r$/, "")`
unfoldable pub strip_return : Text → Text
strip_return [] = []
strip_return (c ∷ []) = if c == 13 then [] else c ∷ []
strip_return (c ∷ d ∷ cs) = c ∷ strip_return (d ∷ cs)

unfoldable pub trim_left : Text → Text
trim_left [] = []
trim_left (c ∷ cs) = if is_space c then trim_left cs else c ∷ cs

unfoldable pub trim_right : Text → Text
trim_right [] = []
trim_right (c ∷ cs) = elim (trim_right cs) [
  | [] ↦ if is_space c then [] else c ∷ []
  | d ∷ ds ↦ c ∷ d ∷ ds
]

abbrev pub trim : Text → Text
trim cs = trim_right (trim_left cs)

-- `(\d+)` at the front, read as a number after `value`, and what follows. A digit is never what comes
-- next in these patterns, so there is nothing to backtrack to.
unfoldable pub digits : ℕ → Text → ℕ × Text
digits value [] = (value, [])
digits value (c ∷ cs) =
    let more = digits (value * 10 + (c - b'0')) cs in if is_digit c then more else (value, c ∷ cs)

unfoldable pub number : Text → Option (ℕ × Text)
number [] = none
number (c ∷ cs) = if is_digit c then some (digits 0 (c ∷ cs)) else none

unfoldable pub no_line_end : Text → Bool
no_line_end [] = true
no_line_end (c ∷ cs) = not (is_line_end c) && no_line_end cs

-- `(.+)$`
unfoldable pub rest_of_line : Text → Option Text
rest_of_line [] = none
rest_of_line (c ∷ cs) = if no_line_end (c ∷ cs) then some (c ∷ cs) else none

pub record Heading : Type 0 where
  pub index : ℕ
  pub of_ : ℕ
  pub name : Text

infixl 20 ◌>>=◌
abbrev pub ◌>>=◌ {ℓ} : {A B : Type ℓ} → Option A → (A → Option B) → Option B
none >>= f = none
some a >>= f = f a

-- SECTION_RE
unfoldable pub match_section : Text → Option Heading
match_section text = do
  t ← after (codes "Backend ") text
  (index, u) ← number t
  v ← after (codes "/") u
  (of_, w) ← number v
  x ← after (codes ": ") w
  name ← rest_of_line x
  some (record { index = index; of_ = of_; name = name })

-- SELF_REPORTED_RE
unfoldable pub is_self_reported : Text → Bool
is_self_reported text =
    let found = do
      (ran, u) ← number (trim_left text)
      v ← after (codes "/") u
      (all, w) ← number v
      after (codes " tests passed") w
    in elim found [ none ↦ false | some rest ↦ length rest == 0 ]

-- `(.*)\): (.+)$` after the parenthesis has opened: the third group.
unfoldable pub match_params : Text → Option Text
match_params [] = none
match_params (c ∷ cs) =
    let longer = match_params cs in
    or_else (if is_line_end c then none else longer) (after (codes "): ") (c ∷ cs) >>= rest_of_line)

-- `(\S+)\((.*)\): (.+)$` at the front.
unfoldable pub match_op : Text → Option Text
match_op [] = none
match_op (c ∷ cs) =
    let longer = match_op cs in
    if is_space c then none else or_else longer (after (codes "(") cs >>= match_params)

-- CASE_RE, which may begin anywhere: the outcome of the case.
unfoldable pub match_case : Text → Option Text
match_case [] = none
match_case (c ∷ cs) = let later = match_case cs in or_else (match_op (c ∷ cs)) later

pub data Status : Type 0 where
  ok failed not_supported skipped unknown : Status

-- The lower-case form of a letter of ASCII; a pattern with the flag `i` and letters of ASCII folds no
-- other.
abbrev pub fold : ℕ → ℕ
fold c = if leb b'A' c && leb c b'Z' then c + 32 else c

unfoldable pub after_folded : Text → Text → Option Text
after_folded [] xs = some xs
after_folded (p ∷ ps) [] = none
after_folded (p ∷ ps) (x ∷ xs) = let rest = after_folded ps xs in if p == fold x then rest else none

-- `\b` after a word: no word unit follows.
abbrev pub ends_word : Option Text → Bool
ends_word none = false
ends_word (some []) = true
ends_word (some (c ∷ cs)) = not (is_word c)

abbrev pub is_some {ℓ} : {A : Type ℓ} → Option A → Bool
is_some none = false
is_some (some a) = true

-- `/not supported/i`
unfoldable pub says_not_supported : Text → Bool
says_not_supported [] = false
says_not_supported (c ∷ cs) =
    is_some (after_folded (codes "not supported") (c ∷ cs)) || says_not_supported cs

-- `/\bskipped\b/i` and `/\bFAIL\b/`, where `inside` says that a word unit stands before.
unfoldable pub says_skipped : Bool → Text → Bool
says_skipped inside [] = false
says_skipped inside (c ∷ cs) =
    (not inside && ends_word (after_folded (codes "skipped") (c ∷ cs)))
    || says_skipped (is_word c) cs

unfoldable pub says_fail : Bool → Text → Bool
says_fail inside [] = false
says_fail inside (c ∷ cs) =
    (not inside && ends_word (after (codes "FAIL") (c ∷ cs))) || says_fail (is_word c) cs

unfoldable pub classify_outcome : Text → Status
classify_outcome outcome =
    let text = trim outcome in
    if ends_word (after (codes "OK") text)
    then ok
    else if says_not_supported text
    then not_supported
    else if says_skipped false text
    then skipped
    else if says_fail false text
    then failed
    else unknown
