-- ===== src/Network/Aggregate/Records.antt =====
-- The metrics of a capture, network/metrics.py and messaging/network_events.py.
use sahabino.Common.{ℕ, Bool, Option, List}
use sahabino.Network.Stats.{Quotient}
use sahabino.Network.Warnings.{Warning}
use sahabino.Network.Tcp.Metrics.{TcpMetrics}
use sahabino.Network.Quic.{QuicMetrics}
use sahabino.Network.Udp.{UdpMetrics, DnsMetrics}

pub data Scenario : Type 0 where
  upload download : Scenario

pub data CaptureFormat : Type 0 where
  pcap pcapng : CaptureFormat

pub record CaptureMetrics : Type 0 where
  pub capture_format : CaptureFormat
  pub capture_size_bytes : ℕ
  pub transfer_file_size_bytes : ℕ
  pub capture_duration_ms : ℕ
  pub packet_count : ℕ
  pub truncated_packet_count : ℕ
  pub analysis_warning_count : ℕ
  pub analysis_warnings : List Warning

pub record NetworkCapabilities : Type 0 where
  pub direction_metadata_available : Bool
  pub payload_plaintext_available : Bool
  pub handshake_observed : Bool
  pub tcp_present : Bool
  pub quic_present : Bool
  pub other_udp_present : Bool
  pub tcp_rtt_available : Bool
  pub quic_initial_rtt_available : Bool
  pub quic_spin_rtt_available : Bool
  pub dns_metrics_available : Bool
  pub comparison_ready : Bool

pub record TrafficMetrics : Type 0 where
  pub network_bytes_total : ℕ
  pub tx_network_bytes : Option ℕ
  pub rx_network_bytes : Option ℕ
  pub l4_payload_bytes_total : ℕ
  pub tx_l4_payload_bytes : Option ℕ
  pub rx_l4_payload_bytes : Option ℕ
  pub ip_transport_header_bytes : ℕ
  pub ip_transport_header_overhead_ratio : Option Quotient
  pub tx_packet_count : Option ℕ
  pub rx_packet_count : Option ℕ

pub record ProtocolMixMetrics : Type 0 where
  pub tcp_bytes : ℕ
  pub quic_identified_bytes : ℕ
  pub other_udp_bytes : ℕ
  pub tcp_byte_share : Option Quotient
  pub quic_byte_share : Option Quotient
  pub other_udp_byte_share : Option Quotient
  pub ipv4_byte_share : Option Quotient
  pub ipv6_byte_share : Option Quotient

pub record IpMetrics : Type 0 where
  pub ip_fragment_count : ℕ
  pub ip_fragment_rate : Option Quotient
  pub ecn_ce_packet_count : ℕ
  pub ecn_ce_packet_rate : Option Quotient
  pub icmp_error_count : ℕ

pub record FlowMetrics : Type 0 where
  pub flow_count : ℕ
  pub unique_remote_ip_count : Option ℕ
  pub top_flow_payload_share : Option Quotient
  pub flows_for_80pct_payload : ℕ
  pub connection_churn_per_mib : Quotient

pub record TransferMetrics : Type 0 where
  pub observed_primary_payload_span_ms : Option ℕ
  pub average_network_throughput_mbps : Option Quotient
  pub peak_1s_network_throughput_mbps : Option ℕ
  pub p95_1s_network_throughput_mbps : Option ℕ
  pub effective_file_throughput_mbps : Option Quotient
  pub primary_direction_amplification_ratio : Option Quotient
  pub total_transfer_amplification_ratio : Quotient
  pub reverse_path_cost_ratio : Option Quotient

pub record AggregatedMetrics : Type 0 where
  pub capture : CaptureMetrics
  pub capabilities : NetworkCapabilities
  pub traffic : TrafficMetrics
  pub protocol_mix : ProtocolMixMetrics
  pub ip : IpMetrics
  pub flow : FlowMetrics
  pub transfer : TransferMetrics
  pub tcp : Option TcpMetrics
  pub quic : Option QuicMetrics
  pub udp : Option UdpMetrics
  pub dns : Option DnsMetrics
