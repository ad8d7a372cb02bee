-- ===== src/PeerManager/Report/Tests.antt =====
-- Reports of the peer manager's fds.
use dip_distributed_llm_runt.Prelude.{◌≡◌, refl, List, [], ◌∷◌, some, map, All, Member}
use dip_distributed_llm_runt.PeerManager.{Message, Kind, create}
use dip_distributed_llm_runt.PeerManager.Api.{reserved_fds, Op, closes_fd, hears, run}
use dip_distributed_llm_runt.PeerManager.Report.{fd_stats, insert, sort}
use dip_distributed_llm_runt.PeerManager.Report.Sorting.{IsAscending}
use dip_distributed_llm_runt.PeerManager.Report.Rows.{IsAccounted, fd_stats-run}

abbrev hello : Message
hello = record { sender = "b"; to = "a"; kind = Kind.connect }

-- b connects, the Runtime closes its fd, and b connects again.
abbrev session : List Op
session = hears hello ∷ closes_fd 0 ∷ hears hello ∷ []

fd_stats-run_example :
    IsAscending (map (λ r. r.fd) (fd_stats (run session (create "a" (some 2)))))
    × All IsAccounted (fd_stats (run session (create "a" (some 2))))
    × All
        (λ fd. Member fd (map (λ r. r.fd) (fd_stats (run session (create "a" (some 2))))))
        (reserved_fds (run session (create "a" (some 2))))
fd_stats-run_example = fd_stats-run "a" (some 2) session

sorts : sort (3 ∷ 1 ∷ 2 ∷ []) ≡ 1 ∷ 2 ∷ 3 ∷ []
unfolding sort insert
sorts = refl
