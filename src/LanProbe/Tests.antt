-- ===== src/LanProbe/Tests.antt =====
-- Runs of scripts/lan-probe.js on small reports.
use dip_distributed_llm_runt.Prelude.{
  ℕ, zero, suc, ◌≤◌, ◌≡◌, refl, sym, ap, ◌⊎◌, inl, inr, true, false, List, [], ◌∷◌, Option, none,
  some, Member, arith,
}
use dip_distributed_llm_runt.Prelude.Text.{codes, is_space}
use dip_distributed_llm_runt.Prelude.Dict
use dip_distributed_llm_runt.LanProbe.Candidates.{
  Text, Signaled, missing, number, describe_signaled, lower, is_mdns_name, option_map,
  ends_in_local, non_empty, num_or_null, same_text, without,
}
use dip_distributed_llm_runt.LanProbe.Candidates.Line.{
  Parts, HasWords, candidate_line, plain, describe_signaled-candidate_line,
}
use dip_distributed_llm_runt.LanProbe.Matching.{
  Stat, describe_stat_candidate, locate, same_base, filter, match_signaled, match_strong, locate_in,
  is_remote_candidate, same_strong,
}
use dip_distributed_llm_runt.LanProbe.Matching.Address.{IsOnly, direct, pool, address_known}
use dip_distributed_llm_runt.LanProbe.Selection.{
  Pair, Digest, digest_stats, select, pairs_of, pair_of, selected_id, by_id,
}
use dip_distributed_llm_runt.LanProbe.Selection.Marks.{IsSelection, selected_pair}
use dip_distributed_llm_runt.LanProbe.Snapshots.{
  Id-discrete, Rec, Answer, Direction, begin, settle_answer, settle, complete, apply_latest,
  merge_observed,
}
use dip_distributed_llm_runt.LanProbe.Snapshots.Facts.{facts}
use dip_distributed_llm_runt.LanProbe.Snapshots.Newest.{entry, newest, seq_of}
use dip_distributed_llm_runt.LanProbe.Snapshots.Sightings.{replay}
use dip_distributed_llm_runt.LanProbe.Snapshots.Merging.{Settlement, settle_all}
use dip_distributed_llm_runt.LanProbe.Snapshots.Order.{OneEach, Included}
use dip_distributed_llm_runt.LanProbe.Snapshots.Settling.{answers, answer_of, pairs_any_order}
use dip_distributed_llm_runt.LanProbe.Connections.{
  Probe, installed, fresh_rec, construct, modify, snapshot, start_snapshot, land, associate,
}
use dip_distributed_llm_runt.LanProbe.Connections.Steps.{IsOpen, Step, Reach}
use dip_distributed_llm_runt.LanProbe.Connections.Reach.{Reach-latest, Reach-replay}
use dip_distributed_llm_runt.LanProbe.Connections.Retry.{IsFirst, Never, Named, associate_ends}
use dip_distributed_llm_runt.LanProbe.Report.{is_local_host}
mod Requests

-- A candidate line as PeerJS hands it over.
abbrev line_parts : Parts
line_parts = record {
  foundation = codes "1";
  component = codes "1";
  protocol = codes "UDP";
  priority = 2122;
  address = codes "a.local";
  port = 50;
  type = codes "host";
  extensions = [];
}

line_words : HasWords line_parts
unfolding is_space
line_words = (
  (λ e. cc e, (refl, tt)),
  (λ e. cc e, (refl, tt)),
  (λ e. cc e, (refl, (refl, (refl, tt)))),
  (λ e. cc e, (refl, (refl, (refl, (refl, (refl, (refl, (refl, tt)))))))),
  (λ e. cc e, (refl, (refl, (refl, (refl, tt))))),
  tt,
)

describe_signaled-candidate_line_example :
    describe_signaled 7 (plain (candidate_line line_parts)) ≡ record {
      at_ms = 7;
      candidate = candidate_line line_parts;
      type = some (codes "host");
      address = some (codes "a.local");
      port = some 50;
      protocol = some (lower (codes "UDP"));
      foundation = some (codes "1");
      priority = some 2122;
      is_mdns = is_mdns_name (some (codes "a.local"));
    }
describe_signaled-candidate_line_example = describe_signaled-candidate_line 7 line_parts line_words

mdns : is_mdns_name (some (codes "A1.LOCAL")) ≡ true
unfolding is_mdns_name ends_in_local same_text lower
mdns = refl

not_mdns : is_mdns_name (some (codes "a.local.")) ≡ false
unfolding is_mdns_name ends_in_local same_text lower
not_mdns = refl

-- A name that only begins like a private address counts as local.
dressed_up : is_local_host (codes "10.example.com") ≡ true
unfolding is_local_host same_text without
dressed_up = refl

-- The association of a peer whose connection shows up at the third attempt.
abbrev shows_late : ℕ → Option (Option ℕ)
shows_late zero = none
shows_late (suc zero) = none
shows_late (suc (suc n)) = some (some 0)

abbrev one_connection : Probe
one_connection = construct 5 (codes "{}") installed

associate_ends_example :
    ((n : ℕ) × (w : Option ℕ) × (t : Probe) × (n ≤ 10)
      × IsFirst shows_late n w
      × (associate shows_late (some (codes "peer")) Direction.outgoing one_connection ≡ some t)
      × Named (codes "peer") Direction.outgoing w one_connection t)
    ⊎ (Never shows_late
        × (associate shows_late (some (codes "peer")) Direction.outgoing one_connection
            ≡ some one_connection))
associate_ends_example =
    associate_ends shows_late (codes "peer") Direction.outgoing one_connection (λ e. cc e)

-- A report with one pair, whose ends redact their addresses.
abbrev blank : Stat
blank = record {
  id = [];
  type = [];
  selected_pair_id = none;
  state = none;
  nominated = false;
  local_id = none;
  remote_id = none;
  is_remote = none;
  candidate_type = none;
  address = none;
  ip = none;
  port = missing;
  protocol = none;
  foundation = none;
  priority = missing;
}

abbrev local_end : Stat
local_end = record blank {
  id = codes "L";
  type = codes "local-candidate";
  candidate_type = some (codes "host");
  address = some [];
  port = number 50;
  protocol = some (codes "udp");
  foundation = some (codes "1");
  priority = number 2122;
}

abbrev pair_stat : Stat
pair_stat = record blank {
  id = codes "P";
  type = codes "candidate-pair";
  state = some (codes "succeeded");
  nominated = true;
  local_id = some (codes "L");
}

abbrev one_pair : List Stat
one_pair = local_end ∷ pair_stat ∷ []

abbrev checking_pair : List Stat
checking_pair = record pair_stat { state = some (codes "in-progress"); nominated = false } ∷ []

abbrev signalled : Signaled
signalled = record {
  at_ms = 7;
  candidate = [];
  type = some (codes "host");
  address = some (codes "a.local");
  port = some 50;
  protocol = some (codes "udp");
  foundation = some (codes "1");
  priority = some 2122;
  is_mdns = true;
}

recovers : (locate (signalled ∷ []) [] local_end).address ≡ some (codes "a.local")
unfolding locate locate_in match_signaled match_strong filter same_strong same_base
    is_remote_candidate same_text non_empty num_or_null
recovers = refl

-- Two candidates that agree on everything: no guess.
guesses_nothing : (locate (signalled ∷ signalled ∷ []) [] local_end).address ≡ none
unfolding locate locate_in match_signaled match_strong filter same_strong same_base
    is_remote_candidate same_text non_empty num_or_null
guesses_nothing = refl

address_known_example :
    (direct local_end ≡ some (codes "a.local"))
    ⊎ ((direct local_end ≡ none)
        × ((c : Signaled) × IsOnly local_end (pool (signalled ∷ []) [] local_end) c
            × (c.address ≡ some (codes "a.local"))))
address_known_example = address_known (signalled ∷ []) [] local_end (codes "a.local") recovers

abbrev the_pair : Pair
the_pair = record {
  id = codes "P";
  state = some (codes "succeeded");
  nominated = true;
  selected = true;
  local = describe_stat_candidate (signalled ∷ []) [] (some local_end);
  remote = none;
}

falls_back : (digest_stats (signalled ∷ []) [] one_pair).selected ≡ some the_pair
unfolding digest_stats select pairs_of pair_of selected_id by_id same_text non_empty
    describe_stat_candidate
falls_back = refl

selected_pair_example : IsSelection one_pair (digest_stats (signalled ∷ []) [] one_pair) the_pair
selected_pair_example = selected_pair (signalled ∷ []) [] one_pair the_pair falls_back
