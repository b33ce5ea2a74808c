-- ===== src/Network/Tests.antt =====
-- Runs of the metrics on small captures, network/metrics.py.
use sahabino.Common.{
  ℕ, suc, insert_by, ◌*◌, ◌≤◌, ◌<◌, ◌≡◌, refl, ◌↔◌, ◌⊎◌, true, false, none, some, List, [], ◌∷◌,
  arith, length, sum_of, count_of, take, ltb, leb,
}
use sahabino.Network.Packets.{PacketRecord, tx, rx, tcp}
use sahabino.Network.Stats.{percentile, flows_for_80_percent, sort_desc}
use sahabino.Network.Stats.Percentile.{percentile_rank}
use sahabino.Network.Stats.Flows.{flows_for_80_minimal}
use sahabino.Network.Tcp.Handshake.{tcp_handshake_completed}
use sahabino.Network.Tcp.Handshakes.{ThreeWay, handshake_iff}
use sahabino.Network.Tcp.Connections.{flow_packets, add_connections, no_totals}
use sahabino.Network.Tcp.Metrics.{TcpMetrics, tcp_metrics, tcp_only, aggregate_tcp, accepts_tcp}
use sahabino.Network.Tcp.Ratios.{zero_window_within_active, tcp_event_accepted}
use sahabino.Network.Quic.{SupportedFields}
use sahabino.Network.Aggregate.{aggregate_packets, accepts_event}
use sahabino.Network.Aggregate.Records.{upload, pcap}
use sahabino.Network.Aggregate.Parts.{ip_only}
use sahabino.Network.Aggregate.Ready.{ready_iff, some_forbids}
use sahabino.Network.Aggregate.Bytes.{direction_split, both}
use sahabino.Network.Aggregate.Accepted.{event_accepted, rate_accepted}

-- A packet from the device to its peer, without flags.
abbrev plain : PacketRecord
plain = record {
  timestamp = 0;
  frame_len = 60;
  captured_len = 60;
  direction = some tx;
  ip_version = some 4;
  network_bytes = 40;
  src_ip = some 1;
  dst_ip = some 2;
  src_port = some 5000;
  dst_port = some 443;
  transport = tcp;
  l4_payload_bytes = 0;
  tcp_stream = some 0;
  ip_fragment = false;
  ecn_ce = false;
  icmp_error = false;
  tcp_syn = false;
  tcp_ack = true;
  tcp_rst = false;
  tcp_window_size = none;
  tcp_initial_rtt_seconds = none;
  tcp_ack_rtt_seconds = none;
  tcp_retransmission = false;
  tcp_fast_retransmission = false;
  tcp_spurious_retransmission = false;
  tcp_zero_window = false;
  tcp_window_full = false;
  tcp_out_of_order = false;
  tcp_duplicate_ack = false;
  tcp_lost_segment = false;
  quic = false;
  quic_version = none;
  quic_packet_type = none;
  quic_spin_bit = none;
  dns_is_response = none;
  dns_response_code = none;
  dns_time_seconds = none;
}

abbrev reply : PacketRecord
reply = record plain {
  direction = some rx;
  src_ip = some 2;
  dst_ip = some 1;
  src_port = some 443;
  dst_port = some 5000;
}

-- A handshake whose SYN is sent again twice, data, and a stall of the peer's window.
abbrev capture : List PacketRecord
capture =
    record plain { tcp_syn = true; tcp_ack = false }
    ∷ record plain { timestamp = 1; tcp_syn = true; tcp_ack = false; tcp_retransmission = true }
    ∷ record plain { timestamp = 2; tcp_syn = true; tcp_ack = false; tcp_retransmission = true }
    ∷ record reply { timestamp = 3; tcp_syn = true }
    ∷ record plain { timestamp = 4 }
    ∷ record plain { timestamp = 5; l4_payload_bytes = 100; network_bytes = 140 }
    ∷ record reply { timestamp = 6; tcp_zero_window = true }
    ∷ record reply { timestamp = 9; tcp_window_size = some 10 }
    ∷ []

abbrev fields : SupportedFields
fields = record { quic_version = true; quic_long_packet_type = true; quic_spin_bit = true }

abbrev capture_tcp : TcpMetrics
capture_tcp =
    tcp_metrics (tcp_only capture) (length (flow_packets [] (tcp_only capture)))
      (add_connections no_totals (flow_packets [] (tcp_only capture)))

percentile_rank_example :
    (v : ℕ) × ((percentile (30 ∷ 10 ∷ 20 ∷ []) 50 ≡ some v)
      × (50 * 3 ≤ 100 * count_of (λ y. leb y v) (30 ∷ 10 ∷ 20 ∷ []))
      × (100 * count_of (λ y. ltb y v) (30 ∷ 10 ∷ 20 ∷ []) ≤ 50 * 3))
percentile_rank_example = percentile_rank 30 (10 ∷ 20 ∷ []) 50 (omega arith)

flows_for_80_minimal_example :
    ((j : ℕ) × ((flows_for_80_percent (10 ∷ 80 ∷ 10 ∷ []) 100 ≡ suc j)
        × (suc j ≤ 3)
        × (400 ≤ 5 * sum_of (λ x. x) (take (suc j) (sort_desc (10 ∷ 80 ∷ 10 ∷ []))))
        × (5 * sum_of (λ x. x) (take j (sort_desc (10 ∷ 80 ∷ 10 ∷ []))) < 400)))
    ⊎ ((5 * sum_of (λ x. x) (10 ∷ 80 ∷ 10 ∷ []) < 400)
        × (flows_for_80_percent (10 ∷ 80 ∷ 10 ∷ []) 100 ≡ 3))
flows_for_80_minimal_example = flows_for_80_minimal (10 ∷ 80 ∷ 10 ∷ []) 100 (omega arith)

handshake_iff_example : (tcp_handshake_completed capture ≡ true) ↔ ThreeWay capture
handshake_iff_example = handshake_iff capture

-- The connection of the capture has a completed handshake, and a stall of 3 of its 9 ticks.
capture_handshake : tcp_handshake_completed capture ≡ true
unfolding tcp_handshake_completed
capture_handshake = refl

capture_stall : capture_tcp.tcp_zero_window_duration_ms ≡ 3
unfolding tcp_metrics add_connections flow_packets insert_by
capture_stall = refl

zero_window_within_active_example :
    capture_tcp.tcp_zero_window_duration_ms ≤ capture_tcp.tcp_active_duration_ms
unfolding aggregate_tcp
zero_window_within_active_example = zero_window_within_active capture capture_tcp refl

tcp_event_accepted_example : (accepts_tcp capture_tcp ≡ true) ↔ (
    (capture_tcp.tcp_data_segment_count ≡ 0)
    ⊎ (capture_tcp.tcp_retransmission_count ≤ capture_tcp.tcp_data_segment_count))
unfolding aggregate_tcp
tcp_event_accepted_example = tcp_event_accepted capture capture_tcp refl

-- The SYN that is sent again twice, with one data segment, makes a rate of 2: the event is refused.
capture_refused : accepts_tcp capture_tcp ≡ false
unfolding accepts_tcp tcp_metrics add_connections flow_packets insert_by
capture_refused = refl

event_accepted_example :
    accepts_event (aggregate_packets capture pcap 1 upload 1 fields)
    ≡ rate_accepted (aggregate_packets capture pcap 1 upload 1 fields).tcp
event_accepted_example = event_accepted capture pcap 1 upload 1 fields (omega arith) (omega arith)

direction_split_example :
    let m = aggregate_packets capture pcap 1 upload 1 fields in
    (both m.traffic.tx_network_bytes m.traffic.rx_network_bytes
      ≡ some m.traffic.network_bytes_total)
    × (both m.traffic.tx_l4_payload_bytes m.traffic.rx_l4_payload_bytes
        ≡ some m.traffic.l4_payload_bytes_total)
    × (both m.traffic.tx_packet_count m.traffic.rx_packet_count ≡ some (length (ip_only capture)))
unfolding aggregate_packets
direction_split_example = direction_split capture pcap 1 upload 1 fields refl

ready_iff_example :
    let m = aggregate_packets capture pcap 1 upload 1 fields in
    (m.capabilities.comparison_ready ≡ true)
    ↔ ((0 < m.capture.capture_duration_ms) × (some_forbids m.capture.analysis_warnings ≡ false))
ready_iff_example = ready_iff capture pcap 1 upload 1 fields
