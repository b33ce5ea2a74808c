-- ===== src/Network/Aggregate.antt =====
-- `aggregate_packets`, network/metrics.py. A tick of time is a microsecond, so bits by ticks are
-- megabits by seconds; a throughput of one second is in bits. The size of the transferred file is
-- positive, as the event requires.
pub mod Records
pub mod Parts
pub mod Transfer
pub mod Bytes
pub mod Ready
pub mod Accepted
use sahabino.Common.{
  ℕ, ◌+◌, ◌-◌, ◌*◌, ◌/◌, Bool, true, false, ◌&&◌, not, Option, none, some, List, [], ◌∷◌, ltb, ◌==◌,
  if◌then◌else◌, length, sum_of, count_of, filter_by, is_some, map,
}
use sahabino.Common.Maps.{values}
use sahabino.Network.Packets.{PacketRecord, Direction, tx, rx, goes}
use sahabino.Network.Stats.{ratio, flows_for_80_percent}
use sahabino.Network.Warnings.{Warnings, sorted_warnings}
use sahabino.Network.Tcp.Connections.{is_empty}
use sahabino.Network.Tcp.Metrics.{TcpMetrics, TcpResult, aggregate_tcp, at_most_one, accepts_tcp}
use sahabino.Network.Quic.{SupportedFields, QuicResult, aggregate_quic}
use sahabino.Network.Udp.{UdpMetrics, DnsMetrics, aggregate_udp, aggregate_dns}
use sahabino.Network.Aggregate.Records.*
use sahabino.Network.Aggregate.Parts.*
use sahabino.Network.Aggregate.Transfer.*

-- The warnings that the aggregation adds.
unfoldable pub warnings_of :
    List PacketRecord → Scenario → TcpResult → QuicResult → Option DnsMetrics → Warnings
unfolding duration_of truncated_count direction_available primary_payload_times has_no_span
warnings_of packets scenario tcp_result quic_result dns_result =
    let ip_packets = ip_only packets in
    let times = primary_payload_times scenario ip_packets in
    let has_payload = direction_available ip_packets && not (is_empty times) in
    record {
      truncated = ltb 0 (truncated_count packets);
      no_direction = not (direction_available ip_packets);
      dns = is_incomplete dns_result;
      no_handshake = tcp_result.missing_tcp_handshake;
      no_payload = not has_payload;
      no_spin = is_some quic_result.metrics && not quic_result.spin_available;
      open_window = tcp_result.open_at_capture_end;
      zero_span = has_payload && has_no_span times;
    }

-- `comparison_ready`
unfoldable pub is_comparison_ready : List PacketRecord → Scenario → Bool
unfolding duration_of truncated_count direction_available primary_span
is_comparison_ready packets scenario =
    not (is_empty packets)
    && ltb 0 (duration_of (timestamps packets))
    && truncated_count packets == 0
    && direction_available (ip_only packets)
    && is_some (primary_span scenario (ip_only packets))

unfoldable pub aggregate_packets :
    List PacketRecord → CaptureFormat → ℕ → Scenario → ℕ → SupportedFields → AggregatedMetrics
unfolding warnings_of is_comparison_ready aggregate_tcp aggregate_quic aggregate_udp aggregate_dns
    sorted_warnings traffic_of protocol_mix_of ip_of flow_of transfer_of duration_of truncated_count
    direction_available
aggregate_packets packets capture_format capture_size scenario file_size fields =
    let ip_packets = ip_only packets in
    let tcp_result = aggregate_tcp ip_packets in
    let quic_result = aggregate_quic ip_packets fields in
    let udp_result = aggregate_udp ip_packets in
    let dns_result = aggregate_dns packets in
    let warned = sorted_warnings (warnings_of packets scenario tcp_result quic_result dns_result) in
    record {
      capture = record {
        capture_format = capture_format;
        capture_size_bytes = capture_size;
        transfer_file_size_bytes = file_size;
        capture_duration_ms = duration_of (timestamps packets);
        packet_count = length packets;
        truncated_packet_count = truncated_count packets;
        analysis_warning_count = length warned;
        analysis_warnings = warned;
      };
      capabilities = record {
        direction_metadata_available = direction_available ip_packets;
        payload_plaintext_available = true;
        handshake_observed = observed tcp_result.metrics;
        tcp_present = is_some tcp_result.metrics;
        quic_present = is_some quic_result.metrics;
        other_udp_present = is_some udp_result;
        tcp_rtt_available = tcp_result.rtt_available;
        quic_initial_rtt_available = quic_result.initial_available;
        quic_spin_rtt_available = quic_result.spin_available;
        dns_metrics_available = is_some dns_result;
        comparison_ready = is_comparison_ready packets scenario;
      };
      traffic = traffic_of ip_packets;
      protocol_mix = protocol_mix_of ip_packets;
      ip = ip_of packets ip_packets;
      flow = flow_of ip_packets file_size;
      transfer = transfer_of packets ip_packets scenario file_size;
      tcp = tcp_result.metrics;
      quic = quic_result.metrics;
      udp = udp_result;
      dns = dns_result;
    }

abbrev pub accepts_tcp_part : Option TcpMetrics → Bool
accepts_tcp_part none = true
accepts_tcp_part (some m) = accepts_tcp m

abbrev pub accepts_udp_part : Option UdpMetrics → Bool
accepts_udp_part none = true
accepts_udp_part (some m) = at_most_one m.udp_bidirectional_byte_ratio

-- The validation of the event's parts: the fields of the types `Ratio` and `PositiveInt`. The other
-- numbers are not negative.
unfoldable pub accepts_event : AggregatedMetrics → Bool
unfolding at_most_one accepts_tcp
accepts_event m =
    ltb 0 m.capture.capture_size_bytes
    && ltb 0 m.capture.transfer_file_size_bytes
    && at_most_one m.traffic.ip_transport_header_overhead_ratio
    && at_most_one m.protocol_mix.tcp_byte_share
    && at_most_one m.protocol_mix.quic_byte_share
    && at_most_one m.protocol_mix.other_udp_byte_share
    && at_most_one m.protocol_mix.ipv4_byte_share
    && at_most_one m.protocol_mix.ipv6_byte_share
    && at_most_one m.ip.ip_fragment_rate
    && at_most_one m.ip.ecn_ce_packet_rate
    && at_most_one m.flow.top_flow_payload_share
    && accepts_tcp_part m.tcp
    && accepts_udp_part m.udp
