-- ===== src/Prelude/Dict.antt =====
-- A JavaScript Map as an association list in insertion order. A write to a present key keeps the
-- key's place; `delete` drops every pair of its key, of which a Map has one at most.
use mathlib.Core.Path.{◌≡◌, refl, subst}
use mathlib.Core.Logic.{ite, ◌≢◌, if_pos, if_neg}
use mathlib.Core.List.{List, [], ◌∷◌, map}
use mathlib.Core.Option.{Option, none, some}
use native.Mathlib.Omega.{arith}
use dip_distributed_llm_runt.Prelude.Lists.{All}

abbrev pub Dict {ℓ} : Type ℓ → Type ℓ → Type ℓ
Dict K V = List (K × V)

module _ {ℓ} {K V : Type ℓ} where
  abbrev pub keys : Dict K V → List K
  keys = map λ p. p.0

  abbrev pub values : Dict K V → List V
  values = map λ p. p.1

module _ {ℓ} {K V : Type ℓ} (same : Discrete K) where
  unfoldable pub get : K → Dict K V → Option V
  get k [] = none
  get k ((j, v) ∷ m) = ite (same j k) (some v) (get k m)

  unfoldable pub set : K → V → Dict K V → Dict K V
  set k v [] = (k, v) ∷ []
  set k v ((j, w) ∷ m) = ite (same j k) ((j, v) ∷ m) ((j, w) ∷ set k v m)

  unfoldable pub delete : K → Dict K V → Dict K V
  delete k [] = []
  delete k ((j, w) ∷ m) = ite (same j k) (delete k m) ((j, w) ∷ delete k m)

  pub get-set :
      (j k : K) (v : V) (m : Dict K V) → get j (set k v m) ≡ ite (same k j) (some v) (get j m)
  unfolding get set
  get-set j k v [] = refl
  get-set j k v ((i, w) ∷ m) = ground (arith, get-set j k v m)

  pub get-delete : (j k : K) (m : Dict K V) → get j (delete k m) ≡ ite (same k j) none (get j m)
  unfolding get delete
  get-delete j k [] = ground arith
  get-delete j k ((i, w) ∷ m) = ground (arith, get-delete j k m)

  pub get-set_self : (k : K) (v : V) (m : Dict K V) → get k (set k v m) ≡ some v
  get-set_self k v m = ground (arith, get-set k k v m)

  pub get-set_ne : (j k : K) (v : V) (m : Dict K V) → k ≢ j → get j (set k v m) ≡ get j m
  get-set_ne j k v m h = ground (arith, get-set j k v m)

  pub get-delete_self : (k : K) (m : Dict K V) → get k (delete k m) ≡ none
  get-delete_self k m = ground (arith, get-delete k k m)

  pub get-delete_ne : (j k : K) (m : Dict K V) → k ≢ j → get j (delete k m) ≡ get j m
  get-delete_ne j k m h = ground (arith, get-delete j k m)

  -- What holds of every value holds of one that is found.
  pub All-get {μ} :
      (P : V → Type μ) (k : K) (v : V) (m : Dict K V) → All P (values m) → get k m ≡ some v → P v
  unfolding get
  All-get P k v [] h e = absurd (cc e)
  All-get P k v ((j, w) ∷ m) (h, hs) e = elim (same j k) [
    | yes p ↦ let found : some w ≡ some v = rw (if_pos _ p) at e in subst P (cc) h
    | no p ↦ All-get P k v m hs (rw (if_neg _ p) at e)
  ]
