-- ===== src/Runtime/Arguments/Peers.antt =====
-- The checks of startRequester in runtime/llmlet-runtime.js on its peer ids.
use dip_distributed_llm_runt.Prelude.{
  ◌+◌, ◌≤◌, ◌≡◌, ◌≢◌, ◌↔◌, refl, true, false, ite, List, [], ◌∷◌, ◌++◌, none, String, arith, length,
  text_discrete, length-append, inl, inr, Bool-cases, All, ◌||◌,
}
use dip_distributed_llm_runt.Runtime.Arguments.{includes, add_all, check_peer_ids}

abbrev pub Distinct : List String → Type 0
Distinct [] = Unit {0}
Distinct (x ∷ xs) = All (λ y. y ≢ x) xs × Distinct xs

includes-append :
    (y x : String) (seen : List String)
    → includes y (seen ++ x ∷ []) ≡ includes y seen || ite (text_discrete x y) true false
includes-append y x [] = refl
includes-append y x (z ∷ seen) = ground (arith, includes-append y x seen)

add_all-le : (xs seen : List String) → length (add_all xs seen) ≤ length seen + length xs
unfolding add_all
add_all-le [] seen = omega arith
add_all-le (x ∷ xs) seen =
    ground (arith, add_all-le xs seen, add_all-le xs (seen ++ x ∷ []), length-append seen (x ∷ []))

abbrev Unseen : List String → List String → Type 0
Unseen seen = All (λ y. includes y seen ≡ false)

Unseen-append :
    (x : String) (seen xs : List String)
    → Unseen seen xs
    → All (λ y. y ≢ x) xs
    → Unseen (seen ++ x ∷ []) xs
Unseen-append x seen [] h k = tt
Unseen-append x seen (y ∷ xs) (h, hs) (k, ks) =
    (ground (arith, includes-append y x seen), Unseen-append x seen xs hs ks)

Unseen-split :
    (x : String) (seen xs : List String)
    → Unseen (seen ++ x ∷ []) xs
    → Unseen seen xs × All (λ y. y ≢ x) xs
Unseen-split x seen [] h = (tt, tt)
Unseen-split x seen (y ∷ xs) (h, hs) =
    let (u, d) = Unseen-split x seen xs hs in
    (
      (ground (arith, includes-append y x seen), u),
      ((λ e. ground (arith, includes-append y x seen)), d),
    )

add_all-Distinct :
    (xs seen : List String)
    → Distinct xs
    → Unseen seen xs
    → length (add_all xs seen) ≡ length seen + length xs
unfolding add_all
add_all-Distinct [] seen d u = omega arith
add_all-Distinct (x ∷ xs) seen d u = ground (
  arith,
  add_all-Distinct xs (seen ++ x ∷ []) d.1 (Unseen-append x seen xs u.1 d.0),
  length-append seen (x ∷ []),
)

Distinct-add_all :
    (xs seen : List String)
    → length (add_all xs seen) ≡ length seen + length xs
    → Distinct xs × Unseen seen xs
unfolding add_all
Distinct-add_all [] seen e = (tt, tt)
Distinct-add_all (x ∷ xs) seen e = elim (Bool-cases (includes x seen)) [
  | inl old ↦ absurd (ground (arith, add_all-le xs seen))
  | inr new ↦
      (let (d, u) =
          Distinct-add_all xs (seen ++ x ∷ []) (ground (arith, length-append seen (x ∷ []))) in
        let (u', others) = Unseen-split x seen xs u in ((others, d), (new, u')))
]

Unseen-nil : (xs : List String) → Unseen [] xs
Unseen-nil [] = tt
Unseen-nil (x ∷ xs) = (refl, Unseen-nil xs)

-- startRequester accepts a list of peer ids exactly where it has one at least and no id comes twice.
pub check_peer_ids_iff :
    (ids : List String) → (check_peer_ids ids ≡ none) ↔ ((ids ≢ []) × Distinct ids)
unfolding check_peer_ids
check_peer_ids_iff [] = (λ h. cc, λ h. absurd (h.0 refl))
check_peer_ids_iff (x ∷ xs) = (
  λ h. ((λ e. cc), (Distinct-add_all (x ∷ xs) [] (ground arith)).0),
  λ h. ground (arith, add_all-Distinct (x ∷ xs) [] h.1 (Unseen-nil (x ∷ xs))),
)
