-- ===== src/LanProbe/Matching.antt =====
-- sameBase, matchSignaled and describeStatCandidate: the address that the statistics redact, found
-- again among the candidates that were signalled.
pub mod Same
pub mod Address
use dip_distributed_llm_runt.Prelude.{
  ℕ, Bool, true, false, ◌&&◌, if◌then◌else◌, List, [], ◌∷◌, Option, none, some, ◌==◌, length,
}
use dip_distributed_llm_runt.Prelude.Text.{codes}
use dip_distributed_llm_runt.LanProbe.Candidates.{
  Text, Value, Signaled, non_empty, num_or_null, is_mdns_name, same_text, or_else,
}

-- One entry of a stats report, with the attributes that the probe reads; an absent one is none or
-- missing.
pub record Stat : Type 0 where
  pub id : Text
  pub type : Text
  pub selected_pair_id : Option Text
  pub state : Option Text
  pub nominated : Bool
  pub local_id : Option Text
  pub remote_id : Option Text
  pub is_remote : Option Bool
  pub candidate_type : Option Text
  pub address : Option Text
  pub ip : Option Text
  pub port : Value
  pub protocol : Option Text
  pub foundation : Option Text
  pub priority : Value

-- `===` on texts or null, and on numbers or null.
abbrev pub same_text? : Option Text → Option Text → Bool
same_text? none none = true
same_text? none (some b) = false
same_text? (some a) none = false
same_text? (some a) (some b) = same_text a b

abbrev pub same_number? : Option ℕ → Option ℕ → Bool
same_number? none none = true
same_number? none (some b) = false
same_number? (some a) none = false
same_number? (some a) (some b) = a == b

unfoldable pub same_base : Signaled → Stat → Bool
same_base c stat =
    same_number? c.port (num_or_null stat.port)
    && same_text? c.protocol (non_empty stat.protocol)
    && same_text? c.type (non_empty stat.candidate_type)

unfoldable pub same_strong : Text → ℕ → Signaled → Stat → Bool
same_strong foundation priority c stat =
    same_base c stat
    && same_text? c.foundation (some foundation)
    && same_number? c.priority (some priority)

-- STRONG_KEY and WEAK_KEY
pub data MatchedOn : Type 0 where
  strong_key weak_key : MatchedOn

pub record Match : Type 0 where
  pub matches : List Signaled
  pub matched_on : Option MatchedOn

unfoldable pub filter {ℓ} : {A : Type ℓ} → (A → Bool) → List A → List A
filter p [] = []
filter p (x ∷ xs) = if p x then x ∷ filter p xs else filter p xs

unfoldable pub match_weak : List Signaled → Stat → Match
match_weak pool stat = elim (filter (λ c. same_base c stat) pool) [
  | [] ↦ record { matches = []; matched_on = none }
  | c ∷ cs ↦ record { matches = c ∷ cs; matched_on = some MatchedOn.weak_key }
]

-- The strong tier, which needs the foundation and the priority of the stats entry.
unfoldable pub match_strong : Option Text → Option ℕ → List Signaled → Stat → List Signaled
match_strong none priority pool stat = []
match_strong (some foundation) none pool stat = []
match_strong (some foundation) (some priority) pool stat =
    filter (λ c. same_strong foundation priority c stat) pool

unfoldable pub match_signaled : List Signaled → Stat → Match
match_signaled pool stat =
    elim (match_strong (non_empty stat.foundation) (num_or_null stat.priority) pool stat) [
      | [] ↦ match_weak pool stat
      | c ∷ cs ↦ record { matches = c ∷ cs; matched_on = some MatchedOn.strong_key }
    ]

-- addressSource
pub data Source : Type 0 where
  stats signaled ambiguous : Source

pub record Described : Type 0 where
  pub type : Option Text
  pub address : Option Text
  pub address_source : Option Source
  pub redacted : Bool
  pub matched_on : Option MatchedOn
  pub candidate_matches : Option ℕ
  pub port : Option ℕ
  pub protocol : Option Text
  pub foundation : Option Text
  pub priority : Option ℕ
  pub is_mdns : Bool

-- The part of the description that says where the address comes from.
pub record Located : Type 0 where
  pub address : Option Text
  pub source : Option Source
  pub matched_on : Option MatchedOn
  pub candidate_matches : Option ℕ

unfoldable pub locate_in : Match → Located
locate_in found = elim found.matches [
  | [] ↦ record { address = none; source = none; matched_on = none; candidate_matches = some 0 }
  | c ∷ [] ↦ record {
    address = c.address;
    source = some Source.signaled;
    matched_on = found.matched_on;
    candidate_matches = some 1;
  }
  | c ∷ d ∷ cs ↦ record {
    address = none;
    source = some Source.ambiguous;
    matched_on = found.matched_on;
    candidate_matches = some (length (c ∷ d ∷ cs));
  }
]

unfoldable pub is_remote_candidate : Stat → Bool
is_remote_candidate stat = elim stat.is_remote [
  | none ↦ same_text stat.type (codes "remote-candidate")
  | some remote ↦ remote
]

-- `ours` and `theirs` are the candidates signalled by this side and by the other.
unfoldable pub locate : List Signaled → List Signaled → Stat → Located
locate ours theirs stat = elim (or_else (non_empty stat.address) (non_empty stat.ip)) [
  | none ↦ locate_in (match_signaled (if is_remote_candidate stat then theirs else ours) stat)
  | some address ↦ record {
    address = some address;
    source = some Source.stats;
    matched_on = none;
    candidate_matches = none;
  }
]

abbrev pub is_null {ℓ} : {A : Type ℓ} → Option A → Bool
is_null none = true
is_null (some a) = false

unfoldable pub describe_stat_candidate :
    List Signaled → List Signaled → Option Stat → Option Described
describe_stat_candidate ours theirs none = none
describe_stat_candidate ours theirs (some stat) =
    let found = locate ours theirs stat in
    some (record {
      type = non_empty stat.candidate_type;
      address = found.address;
      address_source = found.source;
      redacted = is_null (or_else (non_empty stat.address) (non_empty stat.ip));
      matched_on = found.matched_on;
      candidate_matches = found.candidate_matches;
      port = num_or_null stat.port;
      protocol = non_empty stat.protocol;
      foundation = non_empty stat.foundation;
      priority = num_or_null stat.priority;
      is_mdns = is_mdns_name found.address;
    })
