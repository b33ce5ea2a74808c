-- ===== src/Network/Aggregate/Transfer.antt =====
-- The flow and transfer metrics of `aggregate_packets`, network/metrics.py.
use sahabino.Common.{
  ℕ, ◌+◌, ◌*◌, ◌/◌, Bool, ◌&&◌, not, Option, none, some, List, [], ◌∷◌, ltb, ◌==◌, if◌then◌else◌,
  length, sum_of, filter_by, map,
}
use sahabino.Common.Maps.{update, values}
use sahabino.Network.Packets.{PacketRecord, Direction, tx, rx, goes, FlowKey, flow_key, same_flow}
use sahabino.Network.Stats.{Quotient, ratio, percentile, flows_for_80_percent}
use sahabino.Network.Tcp.Connections.{is_empty}
use sahabino.Network.Quic.{has}
use sahabino.Network.Aggregate.Records.{Scenario, upload, download, FlowMetrics, TransferMetrics}
use sahabino.Network.Aggregate.Parts.{
  bytes, payload, timestamps, greatest, duration_of, direction_available, directed,
}

-- `flow_payload`
unfoldable pub flow_payload : List (FlowKey × ℕ) → List PacketRecord → List (FlowKey × ℕ)
unfolding flow_key update
flow_payload flows [] = flows
flow_payload flows (p ∷ ps) =
    flow_payload
      (elim (flow_key p) [
        | none ↦ flows
        | some key ↦ update same_flow 0 (λ n. n + p.l4_payload_bytes) key flows
      ])
      ps

-- The address of the other end, if it is not empty.
unfoldable pub remote_of : PacketRecord → Option ℕ
remote_of p = elim (if goes tx p then p.dst_ip else p.src_ip) [
  | none ↦ none
  | some a ↦ if a == 0 then none else some a
]

-- `remote_ips`
unfoldable pub remote_ips : List PacketRecord → List ℕ
unfolding remote_of
remote_ips [] = []
remote_ips (p ∷ ps) =
    let rest = remote_ips ps in
    elim (remote_of p) [ none ↦ rest | some a ↦ if has a rest then rest else a ∷ rest ]

-- `_ratio(max(flow_payload.values()), payload_total) if flow_payload else None`
unfoldable pub top_share : List ℕ → ℕ → Option Quotient
unfolding greatest ratio
top_share payloads total = elim (greatest payloads) [ none ↦ none | some top ↦ ratio top total ]

unfoldable pub flow_of : List PacketRecord → ℕ → FlowMetrics
unfolding flow_payload remote_ips top_share flows_for_80_percent direction_available values sum_of
flow_of ip_packets file_size =
    let payloads = values (flow_payload [] ip_packets) in
    record {
      flow_count = length payloads;
      unique_remote_ip_count =
          directed (direction_available ip_packets) (length (remote_ips ip_packets));
      top_flow_payload_share = top_share payloads (payload ip_packets);
      flows_for_80pct_payload = flows_for_80_percent payloads (payload ip_packets);
      connection_churn_per_mib = record {
        numerator = length payloads * 1048576;
        denominator = file_size;
      };
    }

abbrev pub ticks_per_second : ℕ
ticks_per_second = 1000000

abbrev pub same_second : ℕ → ℕ → Bool
same_second a b = a == b

-- `one_second_bytes`
unfoldable pub one_second_bytes : List (ℕ × ℕ) → List PacketRecord → List (ℕ × ℕ)
unfolding update
one_second_bytes windows [] = windows
one_second_bytes windows (p ∷ ps) =
    one_second_bytes
      (update same_second 0 (λ n. n + p.network_bytes) (p.timestamp / ticks_per_second) windows) ps

abbrev pub primary_direction : Scenario → Direction
primary_direction upload = tx
primary_direction download = rx

unfoldable pub primary_payload_times : Scenario → List PacketRecord → List ℕ
unfolding filter_by
primary_payload_times scenario ip_packets =
    timestamps
      (filter_by (λ p. goes (primary_direction scenario) p && ltb 0 p.l4_payload_bytes) ip_packets)

-- `primary_span_ms <= 0`
unfoldable pub has_no_span : List ℕ → Bool
unfolding duration_of
has_no_span times = duration_of times == 0

-- `primary_span_ms`
unfoldable pub primary_span : Scenario → List PacketRecord → Option ℕ
unfolding primary_payload_times direction_available has_no_span duration_of
primary_span scenario ip_packets =
    let times = primary_payload_times scenario ip_packets in
    if direction_available ip_packets && not (is_empty times) && not (has_no_span times)
    then some (duration_of times)
    else none

abbrev pub opposite : Scenario → Scenario
opposite upload = download
opposite download = upload

-- The bytes of the scenario's direction.
abbrev pub scenario_bytes : Scenario → List PacketRecord → ℕ
scenario_bytes scenario ip_packets =
    bytes (filter_by (goes (primary_direction scenario)) ip_packets)

unfoldable pub transfer_of : List PacketRecord → List PacketRecord → Scenario → ℕ → TransferMetrics
unfolding primary_span one_second_bytes duration_of direction_available greatest percentile ratio
    values sum_of filter_by
transfer_of packets ip_packets scenario file_size =
    let windows = map (λ n. n * 8) (values (one_second_bytes [] ip_packets)) in
    let available = direction_available ip_packets in
    let forward = scenario_bytes scenario ip_packets in
    let reverse = scenario_bytes (opposite scenario) ip_packets in
    record {
      observed_primary_payload_span_ms = primary_span scenario ip_packets;
      average_network_throughput_mbps =
          ratio (bytes ip_packets * 8) (duration_of (timestamps packets));
      peak_1s_network_throughput_mbps = greatest windows;
      p95_1s_network_throughput_mbps = percentile windows 95;
      effective_file_throughput_mbps = (elim (primary_span scenario ip_packets) [
        | none ↦ none
        | some span ↦ some (record { numerator = file_size * 8; denominator = span })
      ]);
      primary_direction_amplification_ratio =
          (if available
            then some (record { numerator = forward; denominator = file_size })
            else none);
      total_transfer_amplification_ratio = record {
        numerator = bytes ip_packets;
        denominator = file_size;
      };
      reverse_path_cost_ratio = (if available then ratio reverse forward else none);
    }
