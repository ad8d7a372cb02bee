-- ===== src/Gguf/Header/Parsing.antt =====
-- Readers of scripts/lib/gguf-header.mjs on known input: one law for each way that readers are put together.
use dip_distributed_llm_runt.Prelude.{
  ℕ, ◌+◌, ◌-◌, ◌≤◌, ◌≡◌, refl, ap, subst, sym, ◌∙◌, true, List, [], ◌++◌, append_assoc, length,
  length-append, length-drop, take, drop, drop-drop, take-append_le, drop-append_le, take_all,
  drop_all, leb, arith, Bool-cases, inl, inr,
}
use dip_distributed_llm_runt.Gguf.Program.{
  Program, ret, throw, request, then_, Reader, pure, ◌>>=◌, tell, bytes,
}
use dip_distributed_llm_runt.Gguf.Sources.{value, run_whole}

-- At `offset` of the file `input` is what is left.
pub record At (file : List ℕ) (offset : ℕ) (input : List ℕ) : Type 0 where
  pub left : drop offset file ≡ input
  pub inside : offset ≤ length file

-- From `offset` on, the reader reads `written` as `a`, from a source that gives the first `limit` bytes.
abbrev pub Parses : {A : Type 0} → ℕ → Reader A → List ℕ → A → Type 0
Parses offset r written a =
    (file rest : List ℕ) (limit : ℕ)
    → At file offset (written ++ rest)
    → offset + length written ≤ limit
    → run_whole file limit (r offset) ≡ value (a, offset + length written)

run_whole-then_ :
    {A B : Type 0} (file : List ℕ) (limit : ℕ) (m : Program A) (f : A → Program B) (a : A)
    → run_whole file limit m ≡ value a
    → run_whole file limit (then_ m f) ≡ run_whole file limit (f a)
unfolding run_whole then_
run_whole-then_ file limit (ret b) f a e =
    let same : b ≡ a = cc e in ap (λ x. run_whole file limit (f x)) same
run_whole-then_ file limit (throw x) f a e = absurd (cc e)
run_whole-then_ file limit (request offset count k) f a e =
    elim (Bool-cases (leb (offset + count) limit)) [
      | inl q ↦
          rw q (run_whole-then_ file limit (k (take count (drop offset file))) f a (rw q at e))
      | inr q ↦ absurd (cc (rw q at e))
    ]

At-fits :
    (file : List ℕ) (offset : ℕ) (xs rest : List ℕ)
    → At file offset (xs ++ rest)
    → offset + length xs ≤ length file
At-fits file offset xs rest h =
    let whole : length file - offset ≡ length xs + length rest =
      sym (length-drop offset file) ∙ ap length h.left ∙ length-append xs rest in
    let inside = h.inside in omega arith

At-next :
    (file : List ℕ) (offset : ℕ) (xs rest : List ℕ)
    → At file offset (xs ++ rest)
    → At file (offset + length xs) rest
At-next file offset xs rest h = record {
  left =
      let flip : offset + length xs ≡ length xs + offset = omega arith in
      rw flip (
        sym (drop-drop (length xs) offset file)
        ∙ ap (drop (length xs)) h.left
        ∙ drop-append_le (length xs) xs rest (omega arith)
        ∙ ap (λ l. l ++ rest) (drop_all (length xs) xs (omega arith)));
  inside = At-fits file offset xs rest h;
}

pub Parses-pure : {A : Type 0} (offset : ℕ) (a : A) → Parses offset (pure a) [] a
unfolding run_whole
Parses-pure offset a file rest limit h inside =
    let e : offset + 0 ≡ offset = omega arith in rw e refl

pub Parses-bytes : (offset : ℕ) (xs : List ℕ) → Parses offset (bytes (length xs)) xs xs
unfolding run_whole
Parses-bytes offset xs file rest limit h inside =
    let fits : leb (offset + length xs) limit ≡ true = ground arith in
    let got : take (length xs) (drop offset file) ≡ xs =
      ap (take (length xs)) h.left
      ∙ take-append_le (length xs) xs rest (omega arith)
      ∙ take_all (length xs) xs (omega arith) in
    rw (fits, got) refl

pub Parses-bind :
    {A B : Type 0} (offset : ℕ) (r : Reader A) (f : A → Reader B) (xs ys : List ℕ) (a : A) (b : B)
    → Parses offset r xs a
    → Parses (offset + length xs) (f a) ys b
    → Parses offset (r >>= f) (xs ++ ys) b
Parses-bind offset r f xs ys a b p q file rest limit h inside =
    let here : At file offset (xs ++ (ys ++ rest)) = rw append_assoc at h in
    let whole = length-append xs ys in
    run_whole-then_ file limit (r offset) (λ x. f x.0 x.1) (a, offset + length xs)
      (p file (ys ++ rest) limit here (omega (arith, whole)))
    ∙ q file rest limit (At-next file offset xs (ys ++ rest) here) (omega (arith, whole))
    ∙ ap (λ n. value (b, n)) (omega (arith, whole))

pub Parses-map :
    {A B : Type 0} (offset : ℕ) (r : Reader A) (f : A → B) (xs : List ℕ) (a : A)
    → Parses offset r xs a
    → Parses offset (r >>= λ x. pure (f x)) xs (f a)
unfolding run_whole
Parses-map offset r f xs a p file rest limit h inside =
    run_whole-then_ file limit (r offset) (λ x. ret (f x.0, x.1)) (a, offset + length xs)
      (p file rest limit h inside)

pub Parses-tell :
    {B : Type 0} (offset : ℕ) (f : ℕ → Reader B) (ys : List ℕ) (b : B)
    → Parses offset (f offset) ys b
    → Parses offset (tell >>= f) ys b
unfolding then_
Parses-tell offset f ys b p = p

pub Parses-as :
    {A : Type 0} (offset : ℕ) (r : Reader A) (xs ys : List ℕ) (a : A)
    → xs ≡ ys
    → Parses offset r xs a
    → Parses offset r ys a
Parses-as offset r xs ys a e p = subst (λ written. Parses offset r written a) e p
