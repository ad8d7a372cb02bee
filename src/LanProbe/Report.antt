-- ===== src/LanProbe/Report.antt =====
-- isLocalOrigin, report() and refreshStats() of scripts/lan-probe.js.
--
-- The URL constructor of the platform is the parameter `host_of`: the hostname of a URL, or none when it
-- throws. The names of the resource entries are an argument of the report.
use dip_distributed_llm_runt.Prelude.{
  ℕ, zero, suc, ◌+◌, Bool, true, false, not, ◌&&◌, ◌||◌, if◌then◌else◌, List, [], ◌∷◌, Option, none,
  some, leb, ltb, ◌==◌, length,
}
use dip_distributed_llm_runt.Prelude.Text.{codes, is_digit}
use dip_distributed_llm_runt.LanProbe.Candidates.{Text, Signaled, same_text, without}
use dip_distributed_llm_runt.LanProbe.Matching.{Source, Described}
use dip_distributed_llm_runt.LanProbe.Snapshots.{Observed, Rec}
use dip_distributed_llm_runt.LanProbe.Connections.{Probe, snapshot}

abbrev pub starts_with : Text → Text → Bool
starts_with prefix text = elim (without prefix text) [ none ↦ false | some rest ↦ true ]

-- `1[6-9]|2\d|3[01]`, then a full stop.
unfoldable pub is_private_octet : Text → Bool
is_private_octet (a ∷ b ∷ c ∷ rest) =
    (((a == b'1') && leb b'6' b && leb b b'9')
      || ((a == b'2') && is_digit b)
      || ((a == b'3') && leb b'0' b && leb b b'1'))
    && (c == b'.')
is_private_octet (a ∷ b ∷ []) = false
is_private_octet (a ∷ []) = false
is_private_octet [] = false

unfoldable pub is_local_host : Text → Bool
is_local_host host =
    same_text host (codes "localhost")
    || same_text host (codes "127.0.0.1")
    || same_text host (codes "::1")
    || same_text host (codes "[::1]")
    || starts_with (codes "10.") host
    || starts_with (codes "192.168.") host
    || elim (without (codes "172.") host) [ none ↦ false | some rest ↦ is_private_octet rest ]

module _ (host_of : Text → Option Text) where
  unfoldable pub is_local_origin : Text → Bool
  is_local_origin url = elim (host_of url) [ none ↦ false | some host ↦ is_local_host host ]

  abbrev pub is_external : Text → Bool
  is_external url = not (is_local_origin url)

  unfoldable pub external_resources : List Text → List Text
  external_resources [] = []
  external_resources (url ∷ urls) =
      if is_external url then url ∷ external_resources urls else external_resources urls

unfoldable pub mdns_count : List Signaled → ℕ
mdns_count [] = 0
mdns_count (c ∷ cs) = if c.is_mdns then suc (mdns_count cs) else mdns_count cs

unfoldable pub sum_over {ℓ} : {A : Type ℓ} → (A → ℕ) → List A → ℕ
sum_over f [] = 0
sum_over f (x ∷ xs) = f x + sum_over f xs

unfoldable pub without_peer : List Rec → ℕ
without_peer [] = 0
without_peer (r ∷ rs) = elim r.peer_id [ none ↦ suc (without_peer rs) | some id ↦ without_peer rs ]

-- One end of a pair counts when its address is ambiguous.
unfoldable pub end_count : Option Described → ℕ
end_count none = 0
end_count (some d) = elim d.address_source [
  | none ↦ 0
  | some Source.stats ↦ 0
  | some Source.signaled ↦ 0
  | some Source.ambiguous ↦ 1
]

abbrev pub pair_count : Text × Observed → ℕ
pair_count p = end_count p.1.local + end_count p.1.remote

unfoldable pub ambiguous_count : Rec → ℕ
ambiguous_count r = sum_over pair_count r.ever_observed

-- `Array.from(candidateTypes).sort()`, which compares the texts of the elements, code unit by code unit;
-- the text of null is "null".
abbrev pub sort_text : Option Text → Text
sort_text none = codes "null"
sort_text (some t) = t

unfoldable pub text_le : Text → Text → Bool
text_le [] ds = true
text_le (c ∷ cs) [] = false
text_le (c ∷ cs) (d ∷ ds) = ltb c d || ((c == d) && text_le cs ds)

unfoldable pub insert_type : Option Text → List (Option Text) → List (Option Text)
insert_type t [] = t ∷ []
insert_type t (u ∷ us) =
    if text_le (sort_text t) (sort_text u) then t ∷ u ∷ us else u ∷ insert_type t us

unfoldable pub sort_types : List (Option Text) → List (Option Text)
sort_types [] = []
sort_types (t ∷ ts) = insert_type t (sort_types ts)

pub record Report : Type 0 where
  pub external : List Text
  pub external_count : ℕ
  pub constructed : ℕ
  pub ice_configs : List Text
  pub candidate_types : List (Option Text)
  pub mdns_local : ℕ
  pub mdns_remote : ℕ
  pub unassociated : ℕ
  pub ambiguous : ℕ
  pub connections : List Rec

unfoldable pub make_report : (Text → Option Text) → List Text → Probe → Report
make_report host_of resources s =
    let external = external_resources host_of resources in
    record {
      external = external;
      external_count = length external;
      constructed = s.constructed;
      ice_configs = s.ice_configs;
      candidate_types = sort_types s.candidate_types;
      mdns_local = sum_over (λ (r : Rec). mdns_count r.candidates) s.connections;
      mdns_remote = sum_over (λ (r : Rec). mdns_count r.remote_candidates) s.connections;
      unassociated = without_peer s.connections;
      ambiguous = sum_over ambiguous_count s.connections;
      connections = s.connections;
    }

-- The requests that refreshStats makes, one for each connection from the place `i` on. `thrown` says
-- for each place whether getStats throws at once.
unfoldable pub refresh_from : ℕ → ℕ → ℕ → (ℕ → Option Text) → Probe → Probe
refresh_from zero i now thrown s = s
refresh_from (suc n) i now thrown s =
    refresh_from n (suc i) now thrown (snapshot i (codes "manual") now (thrown i) s)

unfoldable pub refresh_stats : ℕ → (ℕ → Option Text) → Probe → Probe
refresh_stats now thrown s = refresh_from (length s.connections) 0 now thrown s
