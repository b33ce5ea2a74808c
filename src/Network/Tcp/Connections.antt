-- ===== src/Network/Tcp/Connections.antt =====
-- The connections of a capture and the loop over them in `_aggregate_tcp`, network/metrics.py.
use sahabino.Common.{
  ℕ, ◌+◌, ◌-◌, Bool, true, false, ◌||◌, none, some, List, [], ◌∷◌, ◌++◌, if◌then◌else◌, sort_by,
}
use sahabino.Common.Maps.{update}
use sahabino.Network.Packets.{PacketRecord, TcpConnectionKey, tcp_connection_key, same_connection}
use sahabino.Network.Tcp.Handshake.{tcp_handshake_completed}
use sahabino.Network.Tcp.Stalls.{Stalls, stalls_of, close_stalls, stall_duration}

-- The connections, with their packets in order of arrival.
abbrev pub Connections : Type 0
Connections = List (TcpConnectionKey × List PacketRecord)

-- A packet is appended to those of its connection; one without a key is passed over.
unfoldable pub add_packet : Connections → PacketRecord → Connections
unfolding tcp_connection_key update
add_packet flows p = elim (tcp_connection_key p) [
  | none ↦ flows
  | some key ↦ update same_connection [] (λ ps. ps ++ p ∷ []) key flows
]

unfoldable pub flow_packets : Connections → List PacketRecord → Connections
unfolding add_packet
flow_packets flows [] = flows
flow_packets flows (p ∷ ps) = flow_packets (add_packet flows p) ps

-- The variables of the loop over the connections.
pub record TcpTotals : Type 0 where
  pub successful : ℕ
  pub initial_rtts : List ℕ
  pub reset_flows : ℕ
  pub active_duration_ms : ℕ
  pub zero_window_duration_ms : ℕ
  pub open_at_end : Bool

-- The first round trip of the records.
unfoldable pub first_rtt : List PacketRecord → List ℕ
first_rtt [] = []
first_rtt (p ∷ ps) = elim p.tcp_initial_rtt_seconds [ none ↦ first_rtt ps | some t ↦ t ∷ [] ]

unfoldable pub any_reset : List PacketRecord → Bool
any_reset [] = false
any_reset (p ∷ ps) = p.tcp_rst || any_reset ps

-- `records[-1].timestamp`, and the given time for no records.
unfoldable pub last_timestamp : ℕ → List PacketRecord → ℕ
last_timestamp t [] = t
last_timestamp t (p ∷ ps) = last_timestamp p.timestamp ps

unfoldable pub first_timestamp : List PacketRecord → ℕ
first_timestamp [] = 0
first_timestamp (p ∷ ps) = p.timestamp

abbrev pub no_stalls : Stalls
no_stalls = record { open_stalls = []; stall_intervals = [] }

-- `max(0.0, records[-1].timestamp - records[0].timestamp)`
unfoldable pub active_duration : List PacketRecord → ℕ
unfolding last_timestamp first_timestamp
active_duration records = last_timestamp 0 records - first_timestamp records

unfoldable pub zero_window_duration : List PacketRecord → ℕ
unfolding stalls_of close_stalls stall_duration last_timestamp
zero_window_duration records =
    stall_duration (close_stalls (last_timestamp 0 records) (stalls_of no_stalls records))

abbrev pub is_empty {ℓ} : {A : Type ℓ} → List A → Bool
is_empty [] = true
is_empty (x ∷ xs) = false

-- One connection of the loop, its records sorted by time.
unfoldable pub add_connection : TcpTotals → List PacketRecord → TcpTotals
unfolding tcp_handshake_completed first_rtt any_reset active_duration zero_window_duration stalls_of
add_connection t records = record {
  successful = t.successful + (if tcp_handshake_completed records then 1 else 0);
  initial_rtts = t.initial_rtts ++ first_rtt records;
  reset_flows = t.reset_flows + (if any_reset records then 1 else 0);
  active_duration_ms = t.active_duration_ms + active_duration records;
  zero_window_duration_ms = t.zero_window_duration_ms + zero_window_duration records;
  open_at_end =
      t.open_at_end
      || (if is_empty ((stalls_of no_stalls records).open_stalls) then false else true);
}

abbrev pub no_totals : TcpTotals
no_totals = record {
  successful = 0;
  initial_rtts = [];
  reset_flows = 0;
  active_duration_ms = 0;
  zero_window_duration_ms = 0;
  open_at_end = false;
}

unfoldable pub add_connections : TcpTotals → Connections → TcpTotals
unfolding add_connection sort_by
add_connections t [] = t
add_connections t ((key, records) ∷ flows) =
    add_connections (add_connection t (sort_by (λ p. p.timestamp) records)) flows
