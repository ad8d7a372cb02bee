-- ===== src/PeerManager/Report/Rows.antt =====
-- fdStats of harness/runtime-only/harness-peer-manager.js after any calls and frames.
use dip_distributed_llm_runt.Prelude.{
  ℕ, ◌+◌, ◌≡◌, ◌≢◌, ◌⊎◌, refl, ap, List, [], ◌∷◌, Option, none, String, map, All, Member, arith,
  Option-cases, inl, inr, ℕ_discrete, if_pos, if_neg,
}
use dip_distributed_llm_runt.Prelude.Dict
use dip_distributed_llm_runt.Prelude.Dict.{Dict}
use dip_distributed_llm_runt.PeerManager.{Manager, create, count, conn_of}
use dip_distributed_llm_runt.PeerManager.Api.{reserved_fds, Op, run}
use dip_distributed_llm_runt.PeerManager.Ledger.{ledger}
use dip_distributed_llm_runt.PeerManager.Ledger.Balance.{IsBalanced, run-create-IsBalanced}
use dip_distributed_llm_runt.PeerManager.Report.{
  released, Row, counted_fds, sort, state_of, row, fd_stats,
}
use dip_distributed_llm_runt.PeerManager.Report.Sorting.{
  IsAscending, IsDistinct, sort-IsAscending, add_fds-IsDistinct, Member-sort, add_fds-old,
  add_fds-new,
}

-- The row accounts for its connections: closed by the Runtime, but for the one that holds the fd.
abbrev pub IsAccounted : Row → Type 0
IsAccounted r =
    ((r.state ≡ released) × (r.connections ≡ r.runtime_closes))
    ⊎ ((r.state ≢ released) × (r.connections ≡ r.runtime_closes + 1))

row-IsAccounted : (s : Manager) (fd : ℕ) → IsBalanced (ledger s) → IsAccounted (row s fd)
unfolding row state_of
row-IsAccounted s fd b = elim (Option-cases (conn_of fd s)) [
  | inl e ↦ let bal = b fd in inl (rw e refl, ground (arith, bal, e))
  | inr (r, e) ↦ let bal = b fd in inr (ground (arith, e), ground (arith, bal, e))
]

map-All :
    {A B : Type 0} (P : B → Type 0) (f : A → B) (xs : List A)
    → ((x : A) → P (f x))
    → All P (map f xs)
map-All P f [] h = tt
map-All P f (x ∷ xs) h = (h x, map-All P f xs h)

counted_fds-IsDistinct : (s : Manager) → IsDistinct (counted_fds s)
unfolding counted_fds
counted_fds-IsDistinct s =
    add_fds-IsDistinct _ _
      (add_fds-IsDistinct _ _ (add_fds-IsDistinct _ _ (add_fds-IsDistinct _ [] tt)))

fds_of_rows : (s : Manager) (fds : List ℕ) → map (λ r. r.fd) (map (row s) fds) ≡ fds
unfolding row
fds_of_rows s [] = refl
fds_of_rows s (fd ∷ fds) = ap (◌∷◌ fd) (fds_of_rows s fds)

-- A number with a count stands among the keys.
count-Member : (fd : ℕ) (m : Dict ℕ ℕ) → count m fd ≢ 0 → Member fd (Dict.keys m)
unfolding Dict.get
count-Member fd [] n = absurd (n refl)
count-Member fd ((k, v) ∷ m) n = elim (ℕ_discrete k fd) [
  | yes p ↦ inl p
  | no q ↦ inr (count-Member fd m (rw (if_neg _ q) at n))
]

reserved-Member :
    (s : Manager) (fd : ℕ) → IsBalanced (ledger s) → conn_of fd s ≢ none → Member fd (counted_fds s)
unfolding counted_fds
reserved-Member s fd b taken =
    let bal = b fd in
    let opened : count s.connection_counts fd ≢ 0 = ground (arith, bal, taken) in
    add_fds-old fd _ _ (
      add_fds-old fd _ _ (
        add_fds-old fd _ _ (
          add_fds-new fd (Dict.keys s.connection_counts) []
            (count-Member fd s.connection_counts opened))))

-- Every member of a list of keys is found.
keys-found : (fd : ℕ) (m : Dict ℕ ℕ) → Member fd (Dict.keys m) → Dict.get ℕ_discrete fd m ≢ none
unfolding Dict.get
keys-found fd [] h e = h
keys-found fd ((k, v) ∷ m) (inl p) e = cc (rw (if_pos _ p) at e)
keys-found fd ((k, v) ∷ m) (inr h) e = elim (ℕ_discrete k fd) [
  | yes p ↦ cc (rw (if_pos _ p) at e)
  | no q ↦ keys-found fd m h (rw (if_neg _ q) at e)
]

members-All : (P : ℕ → Type 0) (xs : List ℕ) → ((x : ℕ) → Member x xs → P x) → All P xs
members-All P [] h = tt
members-All P (x ∷ xs) h = (h x (inl refl), members-All P xs (λ y m. h y (inr m)))

reserved-rows :
    (s : Manager)
    → IsBalanced (ledger s)
    → All (λ fd. Member fd (map (λ r. r.fd) (fd_stats s))) (reserved_fds s)
unfolding fd_stats reserved_fds
reserved-rows s b =
    members-All (λ fd. Member fd (map (λ r. r.fd) (map (row s) (sort (counted_fds s)))))
      (reserved_fds s)
      (λ fd m.
        rw fds_of_rows
          (Member-sort fd (counted_fds s) (reserved-Member s fd b (keys-found fd s.conns m))))

-- After any calls and frames on a new manager, fdStats lists fds in ascending order and none twice, has a
-- row for every reserved fd, and every row accounts for its connections: the Runtime has closed as many as
-- were opened where the state is released, and one fewer where it is live or closed.
pub fd_stats-run :
    (node : String) (fd_max : Option ℕ) (ops : List Op)
    → IsAscending (map (λ r. r.fd) (fd_stats (run ops (create node fd_max))))
      × All IsAccounted (fd_stats (run ops (create node fd_max)))
      × All
          (λ fd. Member fd (map (λ r. r.fd) (fd_stats (run ops (create node fd_max)))))
          (reserved_fds (run ops (create node fd_max)))
unfolding fd_stats
fd_stats-run node fd_max ops =
    let s = run ops (create node fd_max) in
    let b = run-create-IsBalanced node fd_max ops in
    (
      rw fds_of_rows (sort-IsAscending (counted_fds s) (counted_fds-IsDistinct s)),
      map-All IsAccounted (row s) (sort (counted_fds s)) (λ fd. row-IsAccounted s fd b),
      reserved-rows s b,
    )
