-- ===== src/Network/Tcp/Metrics.antt =====
-- `_aggregate_tcp`, network/metrics.py.
use sahabino.Common.{
  ℕ, ◌-◌, Bool, true, false, ◌&&◌, ◌||◌, Option, none, some, List, [], ◌∷◌, ltb, leb, ◌==◌,
  if◌then◌else◌, length, sum_of, count_of, filter_by, min,
}
use sahabino.Network.Packets.{PacketRecord, is_tcp}
use sahabino.Network.Stats.{Quotient, ratio, percentile}
use sahabino.Network.Tcp.Connections.{flow_packets, TcpTotals, no_totals, add_connections, is_empty}

pub record TcpMetrics : Type 0 where
  pub tcp_connection_count : ℕ
  pub tcp_successful_handshake_count : ℕ
  pub tcp_incomplete_handshake_count : ℕ
  pub tcp_handshake_success_rate : Option Quotient
  pub tcp_initial_rtt_avg_ms : Option Quotient
  pub tcp_initial_rtt_p50_ms : Option ℕ
  pub tcp_initial_rtt_p95_ms : Option ℕ
  pub tcp_ack_rtt_min_ms : Option ℕ
  pub tcp_ack_rtt_p50_ms : Option ℕ
  pub tcp_ack_rtt_p95_ms : Option ℕ
  pub tcp_rtt_tail_inflation : Option Quotient
  pub tcp_data_segment_count : ℕ
  pub tcp_retransmission_count : ℕ
  pub tcp_fast_retransmission_count : ℕ
  pub tcp_spurious_retransmission_count : ℕ
  pub tcp_retransmitted_payload_bytes : ℕ
  pub tcp_retransmission_rate : Option Quotient
  pub tcp_recovery_tax : Option Quotient
  pub tcp_zero_window_count : ℕ
  pub tcp_window_full_count : ℕ
  pub tcp_zero_window_duration_ms : ℕ
  pub tcp_active_duration_ms : ℕ
  pub tcp_receiver_stall_ratio : Option Quotient
  pub tcp_reset_count : ℕ
  pub tcp_reset_rate : Option Quotient
  pub tcp_out_of_order_count : ℕ
  pub tcp_duplicate_ack_count : ℕ
  pub tcp_lost_segment_indicator_count : ℕ

-- `[packet.tcp_ack_rtt_seconds for packet in tcp_packets if ... is not None]`
unfoldable pub ack_rtts_of : List PacketRecord → List ℕ
ack_rtts_of [] = []
ack_rtts_of (p ∷ ps) = elim p.tcp_ack_rtt_seconds [
  | none ↦ ack_rtts_of ps
  | some t ↦ t ∷ ack_rtts_of ps
]

-- `min(values) if values else None`
unfoldable pub least : List ℕ → Option ℕ
least [] = none
least (x ∷ xs) = elim (least xs) [ none ↦ some x | some y ↦ some (min x y) ]

-- `sum(values) / len(values) if values else None`
unfoldable pub average : List ℕ → Option Quotient
unfolding ratio sum_of
average values = ratio (sum_of (λ x. x) values) (length values)

-- `ack_p95 / ack_p50`, if both are there and the second is not 0.
unfoldable pub tail_inflation : Option ℕ → Option ℕ → Option Quotient
unfolding ratio
tail_inflation (some high) (some mid) = ratio high mid
tail_inflation _ _ = none

unfoldable pub is_retransmitted : PacketRecord → Bool
is_retransmitted p =
    p.tcp_retransmission || p.tcp_fast_retransmission || p.tcp_spurious_retransmission

abbrev pub payload_bytes : List PacketRecord → ℕ
payload_bytes ps = sum_of (λ p. p.l4_payload_bytes) ps

-- The metrics of the TCP packets, their connections and the totals of the loop.
unfoldable pub tcp_metrics : List PacketRecord → ℕ → TcpTotals → TcpMetrics
unfolding ratio average percentile ack_rtts_of least tail_inflation is_retransmitted sum_of count_of
    filter_by
tcp_metrics tcp_packets connection_count t =
    let ack_rtts = ack_rtts_of tcp_packets in
    let retransmitted = filter_by is_retransmitted tcp_packets in
    let data_segments = count_of (λ p. ltb 0 p.l4_payload_bytes) tcp_packets in
    record {
      tcp_connection_count = connection_count;
      tcp_successful_handshake_count = t.successful;
      tcp_incomplete_handshake_count = connection_count - t.successful;
      tcp_handshake_success_rate = ratio t.successful connection_count;
      tcp_initial_rtt_avg_ms = average t.initial_rtts;
      tcp_initial_rtt_p50_ms = percentile t.initial_rtts 50;
      tcp_initial_rtt_p95_ms = percentile t.initial_rtts 95;
      tcp_ack_rtt_min_ms = least ack_rtts;
      tcp_ack_rtt_p50_ms = percentile ack_rtts 50;
      tcp_ack_rtt_p95_ms = percentile ack_rtts 95;
      tcp_rtt_tail_inflation = tail_inflation (percentile ack_rtts 95) (percentile ack_rtts 50);
      tcp_data_segment_count = data_segments;
      tcp_retransmission_count = length retransmitted;
      tcp_fast_retransmission_count = count_of (λ p. p.tcp_fast_retransmission) tcp_packets;
      tcp_spurious_retransmission_count = count_of (λ p. p.tcp_spurious_retransmission) tcp_packets;
      tcp_retransmitted_payload_bytes = payload_bytes retransmitted;
      tcp_retransmission_rate = ratio (length retransmitted) data_segments;
      tcp_recovery_tax = ratio (payload_bytes retransmitted) (payload_bytes tcp_packets);
      tcp_zero_window_count = count_of (λ p. p.tcp_zero_window) tcp_packets;
      tcp_window_full_count = count_of (λ p. p.tcp_window_full) tcp_packets;
      tcp_zero_window_duration_ms = t.zero_window_duration_ms;
      tcp_active_duration_ms = t.active_duration_ms;
      tcp_receiver_stall_ratio = ratio t.zero_window_duration_ms t.active_duration_ms;
      tcp_reset_count = t.reset_flows;
      tcp_reset_rate = ratio t.reset_flows connection_count;
      tcp_out_of_order_count = count_of (λ p. p.tcp_out_of_order) tcp_packets;
      tcp_duplicate_ack_count = count_of (λ p. p.tcp_duplicate_ack) tcp_packets;
      tcp_lost_segment_indicator_count = count_of (λ p. p.tcp_lost_segment) tcp_packets;
    }

abbrev pub tcp_only : List PacketRecord → List PacketRecord
tcp_only packets = filter_by (λ p. is_tcp p.transport) packets

-- What `_aggregate_tcp` returns, with the two warnings it may add.
pub record TcpResult : Type 0 where
  pub metrics : Option TcpMetrics
  pub rtt_available : Bool
  pub missing_tcp_handshake : Bool
  pub open_at_capture_end : Bool

unfoldable pub aggregate_tcp : List PacketRecord → TcpResult
unfolding flow_packets add_connections tcp_metrics ack_rtts_of filter_by
aggregate_tcp packets =
    let tcp_packets = tcp_only packets in
    let flows = flow_packets [] tcp_packets in
    let t = add_connections no_totals flows in
    if is_empty tcp_packets
    then record {
      metrics = none;
      rtt_available = false;
      missing_tcp_handshake = false;
      open_at_capture_end = false;
    }
    else record {
      metrics = some (tcp_metrics tcp_packets (length flows) t);
      rtt_available =
          (if is_empty t.initial_rtts && is_empty (ack_rtts_of tcp_packets) then false else true);
      missing_tcp_handshake = t.successful == 0;
      open_at_capture_end = t.open_at_end;
    }

-- A field of the type `Ratio` is validated: it is at most 1.
unfoldable pub at_most_one : Option Quotient → Bool
at_most_one none = true
at_most_one (some q) = leb q.numerator q.denominator

-- The validation of `TcpMetricsV1`: its fields of the type `Ratio`. The others are not negative.
unfoldable pub accepts_tcp : TcpMetrics → Bool
unfolding at_most_one
accepts_tcp m =
    at_most_one m.tcp_handshake_success_rate
    && at_most_one m.tcp_retransmission_rate
    && at_most_one m.tcp_recovery_tax
    && at_most_one m.tcp_receiver_stall_ratio
    && at_most_one m.tcp_reset_rate
