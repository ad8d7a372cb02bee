-- ===== src/LanProbe/Selection/Named.antt =====
-- The pair that the transports of a report name.
use dip_distributed_llm_runt.Prelude.{
  ◌≡◌, ◌≢◌, refl, ap, sym, ◌∙◌, ◌⊎◌, inl, inr, true, List, [], ◌∷◌, ◌++◌, Option, none, some, All,
  Bool-cases, Option-cases,
}
use dip_distributed_llm_runt.Prelude.Text.{codes}
use dip_distributed_llm_runt.LanProbe.Candidates.{Text, non_empty, same_text}
use dip_distributed_llm_runt.LanProbe.Matching.{Stat}
use dip_distributed_llm_runt.LanProbe.Matching.Same.{same_text_eq, same_text_refl}
use dip_distributed_llm_runt.LanProbe.Selection.{selected_id}

-- A transport that names a pair.
pub record Names (id : Text) (s : Stat) : Type 0 where
  pub transport : s.type ≡ codes "transport"
  pub pair : s.selected_pair_id ≡ some id
  pub present : id ≢ []

-- The last transport of the report that names a pair names this one.
pub record IsLastNamed (report : List Stat) (id : Text) : Type 0 where
  pub before : List Stat
  pub entry : Stat
  pub after : List Stat
  pub split : report ≡ before ++ (entry ∷ after)
  pub names : Names id entry
  pub later : All (λ s. (k : Text) → Names k s → ⊥) after

abbrev NamesNone : Stat → Type 0
NamesNone s = (k : Text) → Names k s → ⊥

non_empty_present : (t : Option Text) (k : Text) → t ≡ some k → k ≢ [] → non_empty t ≡ some k
unfolding non_empty
non_empty_present none k e h = absurd (cc e)
non_empty_present (some []) k e h = absurd (h (let same : [] ≡ k = cc e in sym same))
non_empty_present (some (c ∷ cs)) k e h = e

non_empty_found : (t : Option Text) (k : Text) → non_empty t ≡ some k → (t ≡ some k) × (k ≢ [])
unfolding non_empty
non_empty_found none k e = absurd (cc e)
non_empty_found (some []) k e = absurd (cc e)
non_empty_found (some (c ∷ cs)) k e =
    let same : c ∷ cs ≡ k = cc e in (e, λ n. let bad : c ∷ cs ≡ [] = same ∙ n in cc bad)

-- One entry of the report: it names a pair, which is then the choice, or it leaves the choice as it is.
selected_id-entry :
    (s : Stat) (ss : List Stat) (found : Option Text)
    → ((id : Text) × Names id s × (selected_id found (s ∷ ss) ≡ selected_id (some id) ss))
      ⊎ (NamesNone s × (selected_id found (s ∷ ss) ≡ selected_id found ss))
unfolding selected_id
selected_id-entry s ss found = elim (Option-cases (non_empty s.selected_pair_id)) [
  | inl e ↦ inr (
    (λ k n. let there = non_empty_present s.selected_pair_id k n.pair n.present in cc (e, there)),
    rw (selected_id, e) refl,
  )
  | inr (id, e) ↦
      let (pair, present) = non_empty_found s.selected_pair_id id e in
      elim (Bool-cases (same_text s.type (codes "transport"))) [
        | inl f ↦ inl (
          id,
          record {
            transport = same_text_eq s.type (codes "transport") f;
            pair = pair;
            present = present;
          },
          rw (selected_id, e, f) refl,
        )
        | inr f ↦ inr (
          (λ k n.
              let same : same_text s.type (codes "transport") ≡ true =
                rw n.transport (same_text_refl (codes "transport")) in
              cc (f, same)),
          rw (selected_id, e, f) refl,
        )
      ]
]

-- The choice is what the last transport that names a pair names, or else what it was before.
pub selected_id-last :
    (found : Option Text) (ss : List Stat)
    → ((selected_id found ss ≡ found) × All NamesNone ss)
      ⊎ ((id : Text) × (selected_id found ss ≡ some id) × IsLastNamed ss id)
selected_id-last found [] = inl (unfold selected_id in refl, tt)
selected_id-last found (s ∷ ss) = elim (selected_id-entry s ss found) [
  | inl (id, names, e) ↦ elim (selected_id-last (some id) ss) [
    | inl (q, later) ↦ inr (
      id,
      e ∙ q,
      record { before = []; entry = s; after = ss; split = refl; names = names; later = later },
    )
    | inr (k, q, last) ↦ inr (k, e ∙ q, later-IsLastNamed s ss k last)
  ]
  | inr (names_none, e) ↦ elim (selected_id-last found ss) [
    | inl (q, later) ↦ inl (e ∙ q, (names_none, later))
    | inr (k, q, last) ↦ inr (k, e ∙ q, later-IsLastNamed s ss k last)
  ]
]
  where
    later-IsLastNamed :
        (s : Stat) (ss : List Stat) (id : Text) → IsLastNamed ss id → IsLastNamed (s ∷ ss) id
    later-IsLastNamed s ss id last = record {
      before = s ∷ last.before;
      entry = last.entry;
      after = last.after;
      split = ap (λ l. s ∷ l) last.split;
      names = last.names;
      later = last.later;
    }

selected_id-none :
    (found : Option Text) (ss : List Stat) → All NamesNone ss → selected_id found ss ≡ found
selected_id-none found [] h = unfold selected_id in refl
selected_id-none found (s ∷ ss) (h, hs) = elim (selected_id-entry s ss found) [
  | inl (id, names, e) ↦ absurd (h id names)
  | inr (_, e) ↦ e ∙ selected_id-none found ss hs
]

selected_id-split :
    (found : Option Text) (before : List Stat) (entry : Stat) (after : List Stat) (id : Text)
    → Names id entry
    → All NamesNone after
    → selected_id found (before ++ (entry ∷ after)) ≡ some id
selected_id-split found [] entry after id names later = elim (selected_id-entry entry after found) [
  | inl (k, other, e) ↦
      let same : some k ≡ some id = sym other.pair ∙ names.pair in
      e ∙ selected_id-none (some k) after later ∙ same
  | inr (names_none, e) ↦ absurd (names_none id names)
]
selected_id-split found (s ∷ before) entry after id names later =
    elim (selected_id-entry s (before ++ (entry ∷ after)) found) [
      | inl (k, other, e) ↦ e ∙ selected_id-split (some k) before entry after id names later
      | inr (_, e) ↦ e ∙ selected_id-split found before entry after id names later
    ]

pub IsLastNamed-selected_id :
    (found : Option Text) (report : List Stat) (id : Text)
    → IsLastNamed report id
    → selected_id found report ≡ some id
IsLastNamed-selected_id found report id last =
    ap (selected_id found) last.split
    ∙ selected_id-split found last.before last.entry last.after id last.names last.later
