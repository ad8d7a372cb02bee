-- ===== src/PeerManager/Report/Sorting.antt =====
-- The set of fds of fdStats in harness/runtime-only/harness-peer-manager.js and its order.
use dip_distributed_llm_runt.Prelude.{
  ℕ, ◌<◌, ◌≡◌, ◌≢◌, refl, sym, subst, true, false, if◌then◌else◌, List, [], ◌∷◌, ◌++◌, leb, ◌==◌,
  All, Member, arith, Bool-cases, inl, inr,
}
use dip_distributed_llm_runt.PeerManager.Report.{has_fd, add_fds, insert, sort}

abbrev pub IsAscending : List ℕ → Type 0
IsAscending [] = Unit
IsAscending (x ∷ xs) = All (λ y. x < y) xs × IsAscending xs

abbrev pub IsFresh : ℕ → List ℕ → Type 0
IsFresh x = All λ y. y ≢ x

abbrev pub IsDistinct : List ℕ → Type 0
IsDistinct [] = Unit
IsDistinct (x ∷ xs) = IsFresh x xs × IsDistinct xs

All-insert : (P : ℕ → Type 0) (x : ℕ) (ys : List ℕ) → P x → All P ys → All P (insert x ys)
unfolding insert
All-insert P x [] p h = (p, tt)
All-insert P x (y ∷ ys) p (q, qs) = elim (Bool-cases (leb x y)) [
  | inl e ↦ rw e (p, (q, qs))
  | inr e ↦ rw e (q, All-insert P x ys p qs)
]

All-sort : (P : ℕ → Type 0) (ys : List ℕ) → All P ys → All P (sort ys)
unfolding sort
All-sort P [] h = tt
All-sort P (y ∷ ys) (p, ps) = All-insert P y (sort ys) p (All-sort P ys ps)

above : (x y : ℕ) (ys : List ℕ) → x < y → All (λ z. y < z) ys → All (λ z. x < z) ys
above x y [] lt h = tt
above x y (z ∷ zs) lt (h, hs) = (omega arith, above x y zs lt hs)

insert-IsAscending :
    (x : ℕ) (ys : List ℕ) → IsFresh x ys → IsAscending ys → IsAscending (insert x ys)
unfolding insert
insert-IsAscending x [] f h = (tt, tt)
insert-IsAscending x (y ∷ ys) (f, fs) (h, hs) = elim (Bool-cases (leb x y)) [
  | inl e ↦
      let below : x < y = ground (arith, e, f) in rw e ((below, above x y ys below h), (h, hs))
  | inr e ↦
      let below : y < x = ground (arith, e) in
      rw e (All-insert (λ z. y < z) x ys below h, insert-IsAscending x ys fs hs)
]

pub sort-IsAscending : (ys : List ℕ) → IsDistinct ys → IsAscending (sort ys)
unfolding sort
sort-IsAscending [] h = tt
sort-IsAscending (y ∷ ys) (f, h) =
    insert-IsAscending y (sort ys) (All-sort (λ z. z ≢ y) ys f) (sort-IsAscending ys h)

IsFresh-append : (x y : ℕ) (ys : List ℕ) → IsFresh x ys → y ≢ x → IsFresh x (ys ++ (y ∷ []))
IsFresh-append x y [] h n = (n, tt)
IsFresh-append x y (z ∷ zs) (h, hs) n = (h, IsFresh-append x y zs hs n)

IsDistinct-append :
    (x : ℕ) (ys : List ℕ) → IsFresh x ys → IsDistinct ys → IsDistinct (ys ++ (x ∷ []))
IsDistinct-append x [] f h = (tt, tt)
IsDistinct-append x (y ∷ ys) (f, fs) (h, hs) =
    (IsFresh-append y x ys h (λ e. f (sym e)), IsDistinct-append x ys fs hs)

has_fd-IsFresh : (x : ℕ) (ys : List ℕ) → has_fd x ys ≡ false → IsFresh x ys
unfolding has_fd
has_fd-IsFresh x [] e = tt
has_fd-IsFresh x (y ∷ ys) e = (ground (arith, e), has_fd-IsFresh x ys (ground (arith, e)))

pub add_fds-IsDistinct : (xs set : List ℕ) → IsDistinct set → IsDistinct (add_fds xs set)
unfolding add_fds
add_fds-IsDistinct [] set h = h
add_fds-IsDistinct (x ∷ xs) set h = elim (Bool-cases (has_fd x set)) [
  | inl e ↦ rw e (add_fds-IsDistinct xs set h)
  | inr e ↦
      rw e (
        add_fds-IsDistinct xs (set ++ (x ∷ []))
          (IsDistinct-append x set (has_fd-IsFresh x set e) h))
]

Member-insert : (z x : ℕ) (ys : List ℕ) → Member z (x ∷ ys) → Member z (insert x ys)
unfolding insert
Member-insert z x [] m = m
Member-insert z x (y ∷ ys) m = elim (Bool-cases (leb x y)) [
  | inl e ↦ rw e m
  | inr e ↦ rw e (elim m [
    | inl p ↦ inr (Member-insert z x ys (inl p))
    | inr (inl p) ↦ inl p
    | inr (inr p) ↦ inr (Member-insert z x ys (inr p))
  ])
]

pub Member-sort : (z : ℕ) (ys : List ℕ) → Member z ys → Member z (sort ys)
unfolding sort
Member-sort z [] m = absurd m
Member-sort z (y ∷ ys) (inl p) = Member-insert z y (sort ys) (inl p)
Member-sort z (y ∷ ys) (inr m) = Member-insert z y (sort ys) (inr (Member-sort z ys m))

Member-append : (z : ℕ) (ys zs : List ℕ) → Member z ys → Member z (ys ++ zs)
Member-append z [] zs m = absurd m
Member-append z (y ∷ ys) zs (inl p) = inl p
Member-append z (y ∷ ys) zs (inr m) = inr (Member-append z ys zs m)

Member-last : (z : ℕ) (ys : List ℕ) → Member z (ys ++ (z ∷ []))
Member-last z [] = inl refl
Member-last z (y ∷ ys) = inr (Member-last z ys)

has_fd-Member : (x : ℕ) (ys : List ℕ) → has_fd x ys ≡ true → Member x ys
unfolding has_fd
has_fd-Member x [] e = absurd (cc e)
has_fd-Member x (y ∷ ys) e = elim (Bool-cases (y == x)) [
  | inl p ↦ inl (ground (arith, p))
  | inr p ↦ inr (has_fd-Member x ys (ground (arith, e, p)))
]

pub add_fds-old : (z : ℕ) (xs set : List ℕ) → Member z set → Member z (add_fds xs set)
unfolding add_fds
add_fds-old z [] set m = m
add_fds-old z (x ∷ xs) set m = elim (Bool-cases (has_fd x set)) [
  | inl e ↦ rw e (add_fds-old z xs set m)
  | inr e ↦ rw e (add_fds-old z xs (set ++ (x ∷ [])) (Member-append z set (x ∷ []) m))
]

pub add_fds-new : (z : ℕ) (xs set : List ℕ) → Member z xs → Member z (add_fds xs set)
unfolding add_fds
add_fds-new z [] set m = absurd m
add_fds-new z (x ∷ xs) set (inr m) =
    add_fds-new z xs (if has_fd x set then set else set ++ (x ∷ [])) m
add_fds-new z (x ∷ xs) set (inl p) = elim (Bool-cases (has_fd x set)) [
  | inl e ↦
      rw e (subst (λ w. Member w (add_fds xs set)) p (add_fds-old x xs set (has_fd-Member x set e)))
  | inr e ↦ rw e (
      subst (λ w. Member w (add_fds xs (set ++ (x ∷ [])))) p
        (add_fds-old x xs (set ++ (x ∷ [])) (Member-last x set)))
]
