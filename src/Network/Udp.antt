-- ===== src/Network/Udp.antt =====
-- `_aggregate_udp` and `_aggregate_dns`, network/metrics.py.
use sahabino.Common.{
  ℕ, ◌+◌, Bool, false, ◌&&◌, not, Option, none, some, List, [], ◌∷◌, ◌==◌, if◌then◌else◌, length,
  map, count_of, filter_by, sum_of, max, min, is_some,
}
use sahabino.Common.Maps.{update}
use sahabino.Network.Packets.{PacketRecord, FlowKey, flow_key, same_flow, is_udp, same_option}
use sahabino.Network.Stats.{Quotient, ratio, percentile}
use sahabino.Network.Tcp.Connections.{is_empty}

pub record UdpMetrics : Type 0 where
  pub udp_flow_count : ℕ
  pub udp_datagram_count : ℕ
  pub udp_network_bytes : ℕ
  pub udp_payload_bytes : ℕ
  pub udp_payload_size_p50 : Option ℕ
  pub udp_payload_size_p95 : Option ℕ
  pub udp_bidirectional_byte_ratio : Option Quotient

-- `packet.transport == "udp" and not packet.quic`
abbrev pub is_other_udp : PacketRecord → Bool
is_other_udp p = is_udp p.transport && not p.quic

-- The bytes from the first endpoint of a flow key, and those from the second.
abbrev pub Both : Type 0
Both = ℕ × ℕ

-- A packet's bytes are added to those of its direction.
abbrev pub add_bytes : FlowKey → PacketRecord → Both → Both
add_bytes key p (first, second) =
    if same_option p.src_ip (some key.a_ip) && same_option p.src_port (some key.a_port)
    then (first + p.network_bytes, second)
    else (first, second + p.network_bytes)

unfoldable pub add_datagram : List (FlowKey × Both) → PacketRecord → List (FlowKey × Both)
unfolding flow_key update
add_datagram flows p = elim (flow_key p) [
  | none ↦ flows
  | some key ↦ update same_flow (0, 0) (add_bytes key p) key flows
]

unfoldable pub udp_flows : List (FlowKey × Both) → List PacketRecord → List (FlowKey × Both)
unfolding add_datagram
udp_flows flows [] = flows
udp_flows flows (p ∷ ps) = udp_flows (add_datagram flows p) ps

-- `direction_totals`
unfoldable pub direction_totals : List (FlowKey × Both) → Both
direction_totals [] = (0, 0)
direction_totals ((key, both) ∷ flows) =
    let rest = direction_totals flows in (both.0 + rest.0, both.1 + rest.1)

-- `min(direction_totals) / largest_direction if largest_direction > 0 else None`
unfoldable pub byte_ratio : Both → Option Quotient
unfolding ratio
byte_ratio (first, second) = ratio (min first second) (max first second)

unfoldable pub aggregate_udp : List PacketRecord → Option UdpMetrics
unfolding udp_flows direction_totals byte_ratio percentile sum_of filter_by
aggregate_udp packets =
    let udp_packets = filter_by is_other_udp packets in
    let flows = udp_flows [] udp_packets in
    let payload_sizes = map (λ p. p.l4_payload_bytes) udp_packets in
    if is_empty udp_packets
    then none
    else some (record {
      udp_flow_count = length flows;
      udp_datagram_count = length udp_packets;
      udp_network_bytes = sum_of (λ p. p.network_bytes) udp_packets;
      udp_payload_bytes = sum_of (λ p. p.l4_payload_bytes) udp_packets;
      udp_payload_size_p50 = percentile payload_sizes 50;
      udp_payload_size_p95 = percentile payload_sizes 95;
      udp_bidirectional_byte_ratio = byte_ratio (direction_totals flows);
    })

pub record DnsMetrics : Type 0 where
  pub dns_query_count : ℕ
  pub dns_response_count : ℕ
  pub dns_failure_count : ℕ
  pub dns_rtt_p50_ms : Option ℕ
  pub dns_rtt_p95_ms : Option ℕ

abbrev pub is_query : PacketRecord → Bool
is_query p = elim p.dns_is_response [ none ↦ false | some b ↦ not b ]

abbrev pub is_response : PacketRecord → Bool
is_response p = elim p.dns_is_response [ none ↦ false | some b ↦ b ]

-- A response with a response code other than 0.
abbrev pub is_failure : PacketRecord → Bool
is_failure p =
    is_response p && (elim p.dns_response_code [ none ↦ false | some code ↦ not (code == 0) ])

unfoldable pub dns_rtts : List PacketRecord → List ℕ
dns_rtts [] = []
dns_rtts (p ∷ ps) = elim p.dns_time_seconds [ none ↦ dns_rtts ps | some t ↦ t ∷ dns_rtts ps ]

unfoldable pub aggregate_dns : List PacketRecord → Option DnsMetrics
unfolding dns_rtts percentile count_of filter_by
aggregate_dns packets =
    let dns_packets = filter_by (λ p. is_some p.dns_is_response) packets in
    let rtts = dns_rtts dns_packets in
    if is_empty dns_packets
    then none
    else some (record {
      dns_query_count = count_of is_query dns_packets;
      dns_response_count = count_of is_response dns_packets;
      dns_failure_count = count_of is_failure dns_packets;
      dns_rtt_p50_ms = percentile rtts 50;
      dns_rtt_p95_ms = percentile rtts 95;
    })
