-- ===== src/LanProbe/Peers.antt =====
-- The wrappers of scripts/lan-probe.js around Peer.prototype.connect and Peer.prototype.on.
--
-- A data connection is its `peer` and what its `peerConnection` is at each attempt of `associate`, which is
-- run to its end. The originals are outside code: what `connect` returns is an argument.
use dip_distributed_llm_runt.Prelude.{ℕ, Bool, ◌&&◌, if◌then◌else◌, Option, none, some}
use dip_distributed_llm_runt.Prelude.Text.{codes}
use dip_distributed_llm_runt.LanProbe.Candidates.{Text, same_text}
use dip_distributed_llm_runt.LanProbe.Snapshots.{Direction, outgoing, incoming}
use dip_distributed_llm_runt.LanProbe.Connections.{Probe, associate}

pub record DataConnection : Type 0 where
  pub peer : Option Text
  pub peer_connection : ℕ → Option (Option ℕ)

-- `associate(conn, peerId, direction, 0)`, where `conn` may be missing.
unfoldable pub associate_conn :
    Option DataConnection → Option Text → Direction → Probe → Option Probe
associate_conn none peer direction s = some s
associate_conn (some c) peer direction s = associate c.peer_connection peer direction s

-- `peer.connect(dst)`
unfoldable pub connect : Option DataConnection → Option Text → Probe → Option Probe
connect conn dst s = associate_conn conn dst outgoing s

-- What `peer.on(event, cb)` hands to the original.
pub data Listener : Type 0 where
  wrapped as_given : Listener

unfoldable pub on_event : Text → Bool → Listener
on_event event is_function =
    if same_text event (codes "connection") && is_function then wrapped else as_given

abbrev pub peer_of : Option DataConnection → Option Text
peer_of none = none
peer_of (some c) = c.peer

-- The listener is called with a connection; `cb` is called in both cases.
unfoldable pub receive : Listener → Option DataConnection → Probe → Option Probe
receive wrapped conn s = associate_conn conn (peer_of conn) incoming s
receive as_given conn s = some s
