-- ===== src/Network/Aggregate/Parts.antt =====
-- The parts of `aggregate_packets`, network/metrics.py, over the packets of IP.
use sahabino.Common.{
  ℕ, ◌+◌, ◌-◌, Bool, true, false, ◌&&◌, ◌||◌, not, Option, none, some, List, [], ◌∷◌, ltb, ◌==◌,
  length, sum_of, count_of, filter_by, is_some, map, max,
}
use sahabino.Network.Packets.{PacketRecord, tx, rx, goes, is_tcp}
use sahabino.Network.Stats.{ratio}
use sahabino.Network.Tcp.Connections.{is_empty}
use sahabino.Network.Tcp.Metrics.{TcpMetrics, least}
use sahabino.Network.Udp.{DnsMetrics, is_other_udp}
use sahabino.Network.Aggregate.Records.{TrafficMetrics, ProtocolMixMetrics, IpMetrics}

abbrev pub bytes : List PacketRecord → ℕ
bytes ps = sum_of (λ p. p.network_bytes) ps

abbrev pub payload : List PacketRecord → ℕ
payload ps = sum_of (λ p. p.l4_payload_bytes) ps

-- `packet.ip_version == version`
abbrev pub of_version : ℕ → PacketRecord → Bool
of_version n p = elim p.ip_version [ none ↦ false | some v ↦ v == n ]

abbrev pub ip_only : List PacketRecord → List PacketRecord
ip_only ps = filter_by (λ p. of_version 4 p || of_version 6 p) ps

abbrev pub timestamps : List PacketRecord → List ℕ
timestamps ps = map (λ p. p.timestamp) ps

-- `max(values) if values else None`
unfoldable pub greatest : List ℕ → Option ℕ
greatest [] = none
greatest (x ∷ xs) = elim (greatest xs) [ none ↦ some x | some y ↦ some (max x y) ]

-- `max(times) - min(times)`, and 0 for no times.
unfoldable pub duration_of : List ℕ → ℕ
unfolding least greatest
duration_of times = elim (greatest times) [
  | none ↦ 0
  | some late ↦ elim (least times) [ none ↦ 0 | some early ↦ late - early ]
]

unfoldable pub truncated_count : List PacketRecord → ℕ
unfolding count_of
truncated_count packets = count_of (λ p. ltb p.captured_len p.frame_len) packets

unfoldable pub all_directed : List PacketRecord → Bool
all_directed [] = true
all_directed (p ∷ ps) = is_some p.direction && all_directed ps

unfoldable pub direction_available : List PacketRecord → Bool
unfolding all_directed
direction_available ip_packets = not (is_empty ip_packets) && all_directed ip_packets

abbrev pub directed : Bool → ℕ → Option ℕ
directed true n = some n
directed false n = none

unfoldable pub traffic_of : List PacketRecord → TrafficMetrics
unfolding direction_available ratio sum_of filter_by
traffic_of ip_packets =
    let available = direction_available ip_packets in
    let sent = filter_by (goes tx) ip_packets in
    let received = filter_by (goes rx) ip_packets in
    let header_bytes = bytes ip_packets - payload ip_packets in
    record {
      network_bytes_total = bytes ip_packets;
      tx_network_bytes = directed available (bytes sent);
      rx_network_bytes = directed available (bytes received);
      l4_payload_bytes_total = payload ip_packets;
      tx_l4_payload_bytes = directed available (payload sent);
      rx_l4_payload_bytes = directed available (payload received);
      ip_transport_header_bytes = header_bytes;
      ip_transport_header_overhead_ratio = ratio header_bytes (bytes ip_packets);
      tx_packet_count = directed available (length sent);
      rx_packet_count = directed available (length received);
    }

unfoldable pub protocol_mix_of : List PacketRecord → ProtocolMixMetrics
unfolding ratio sum_of filter_by
protocol_mix_of ip_packets =
    let over_tcp = bytes (filter_by (λ p. is_tcp p.transport) ip_packets) in
    let over_quic = bytes (filter_by (λ p. p.quic) ip_packets) in
    let over_udp = bytes (filter_by is_other_udp ip_packets) in
    let transport_bytes = over_tcp + over_quic + over_udp in
    record {
      tcp_bytes = over_tcp;
      quic_identified_bytes = over_quic;
      other_udp_bytes = over_udp;
      tcp_byte_share = ratio over_tcp transport_bytes;
      quic_byte_share = ratio over_quic transport_bytes;
      other_udp_byte_share = ratio over_udp transport_bytes;
      ipv4_byte_share = ratio (bytes (filter_by (of_version 4) ip_packets)) (bytes ip_packets);
      ipv6_byte_share = ratio (bytes (filter_by (of_version 6) ip_packets)) (bytes ip_packets);
    }

unfoldable pub ip_of : List PacketRecord → List PacketRecord → IpMetrics
unfolding ratio count_of
ip_of packets ip_packets =
    let fragments = count_of (λ p. p.ip_fragment) ip_packets in
    let marked = count_of (λ p. p.ecn_ce) ip_packets in
    record {
      ip_fragment_count = fragments;
      ip_fragment_rate = ratio fragments (length ip_packets);
      ecn_ce_packet_count = marked;
      ecn_ce_packet_rate = ratio marked (length ip_packets);
      icmp_error_count = count_of (λ p. p.icmp_error) packets;
    }

-- `dns is not None and dns.dns_query_count != dns.dns_response_count`
abbrev pub is_incomplete : Option DnsMetrics → Bool
is_incomplete none = false
is_incomplete (some d) = not (d.dns_query_count == d.dns_response_count)

-- `tcp is not None and tcp.tcp_successful_handshake_count > 0`
abbrev pub observed : Option TcpMetrics → Bool
observed none = false
observed (some m) = ltb 0 m.tcp_successful_handshake_count
