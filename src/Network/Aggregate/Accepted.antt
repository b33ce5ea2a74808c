-- ===== src/Network/Aggregate/Accepted.antt =====
-- The metrics that the validation of messaging/network_events.py is given, network/metrics.py.
use sahabino.Common.{
  ℕ, ◌≤◌, ◌<◌, ◌≡◌, refl, inl, inr, Bool, true, ◌&&◌, Option, none, some, List, [], ◌∷◌, arith,
  sum_of, count_of, filter_by, sum-filter, length, lt→ltb, Option-cases, Bool-cases, min, max,
}
use sahabino.Common.Maps.{values}
use sahabino.Network.Packets.{PacketRecord}
use sahabino.Network.Tcp.Metrics.{TcpMetrics, aggregate_tcp, at_most_one}
use sahabino.Network.Tcp.Connections.{is_empty}
use sahabino.Network.Tcp.Ratios.{at_most_one-ratio, accepts_tcp-rate}
use sahabino.Network.Quic.{SupportedFields}
use sahabino.Network.Udp.{aggregate_udp, byte_ratio, is_other_udp}
use sahabino.Network.Aggregate.{
  aggregate_packets, accepts_event, accepts_tcp_part, accepts_udp_part,
}
use sahabino.Network.Aggregate.Records.{Scenario, CaptureFormat}
use sahabino.Network.Aggregate.Parts.{
  traffic_of, protocol_mix_of, ip_of, ip_only, greatest, payload,
}
use sahabino.Network.Aggregate.Transfer.{flow_of, top_share, flow_payload}
use sahabino.Network.Aggregate.Bytes.{flow_payload_sum, greatest_bound}

pub count_bound {ℓ} : {A : Type ℓ} (test : A → Bool) (xs : List A) → count_of test xs ≤ length xs
unfolding count_of
count_bound test [] = omega arith
count_bound test (x ∷ xs) = ground (arith, count_bound test xs)

top_share_accepted :
    (xs : List ℕ) (n : ℕ) → sum_of (λ x. x) xs ≤ n → at_most_one (top_share xs n) ≡ true
unfolding top_share at_most_one
top_share_accepted xs n h = elim (Option-cases (greatest xs)) [
  | inl e ↦ rw (e, top_share, at_most_one) refl
  | inr (top, e) ↦
      rw (e, top_share) (at_most_one-ratio top n (omega (arith, greatest_bound xs top e)))
]

byte_ratio_accepted : (a b : ℕ) → at_most_one (byte_ratio (a, b)) ≡ true
unfolding byte_ratio
byte_ratio_accepted a b = at_most_one-ratio (min a b) (max a b) (omega arith)

udp_accepted : (ps : List PacketRecord) → accepts_udp_part (aggregate_udp ps) ≡ true
unfolding aggregate_udp
udp_accepted ps = elim (Bool-cases (is_empty (filter_by is_other_udp ps))) [
  | inl e ↦ rw e refl
  | inr e ↦ rw e (byte_ratio_accepted _ _)
]

-- The parts of the event without TCP and UDP are accepted.
rest_accepted :
    (ps : List PacketRecord) (packets : List PacketRecord) (file_size : ℕ)
    → (at_most_one (traffic_of ps).ip_transport_header_overhead_ratio ≡ true)
      × (at_most_one (protocol_mix_of ps).tcp_byte_share ≡ true)
      × (at_most_one (protocol_mix_of ps).quic_byte_share ≡ true)
      × (at_most_one (protocol_mix_of ps).other_udp_byte_share ≡ true)
      × (at_most_one (protocol_mix_of ps).ipv4_byte_share ≡ true)
      × (at_most_one (protocol_mix_of ps).ipv6_byte_share ≡ true)
      × (at_most_one (ip_of packets ps).ip_fragment_rate ≡ true)
      × (at_most_one (ip_of packets ps).ecn_ce_packet_rate ≡ true)
      × (at_most_one (flow_of ps file_size).top_flow_payload_share ≡ true)
unfolding traffic_of protocol_mix_of ip_of flow_of
rest_accepted ps packets file_size = (
  at_most_one-ratio _ _ (omega arith),
  at_most_one-ratio _ _ (omega arith),
  at_most_one-ratio _ _ (omega arith),
  at_most_one-ratio _ _ (omega arith),
  at_most_one-ratio _ _ (sum-filter _ _ ps),
  at_most_one-ratio _ _ (sum-filter _ _ ps),
  at_most_one-ratio _ _ (count_bound _ ps),
  at_most_one-ratio _ _ (count_bound _ ps),
  top_share_accepted (values (flow_payload [] ps)) (payload ps)
      (omega (arith, flow_payload_sum [] ps)),
)

-- What the validation of the TCP part turns on.
abbrev pub rate_accepted : Option TcpMetrics → Bool
rate_accepted none = true
rate_accepted (some m) = at_most_one m.tcp_retransmission_rate

and_true : (b : Bool) → (b && true) ≡ b
and_true b = ground arith

tcp_part :
    (ps : List PacketRecord)
    → accepts_tcp_part ((aggregate_tcp ps).metrics) ≡ rate_accepted ((aggregate_tcp ps).metrics)
tcp_part ps = elim (Option-cases ((aggregate_tcp ps).metrics)) [
  | inl e ↦ rw e refl
  | inr (m, e) ↦ rw e ((accepts_tcp-rate ps m e).0)
]

-- For a capture and a transferred file of positive size, the validation of the event accepts the
-- metrics exactly if they have no TCP part or its rate of retransmissions is absent or at most 1.
pub event_accepted :
    (packets : List PacketRecord) (capture_format : CaptureFormat) (capture_size : ℕ)
    (scenario : Scenario) (file_size : ℕ) (fields : SupportedFields)
    → 0 < capture_size
    → 0 < file_size
    → let m = aggregate_packets packets capture_format capture_size scenario file_size fields in
      accepts_event m ≡ rate_accepted m.tcp
unfolding accepts_event aggregate_packets
event_accepted packets capture_format capture_size scenario file_size fields h h' =
    let ps = ip_only packets in
    let rest = rest_accepted ps packets file_size in
    rw
      (
        lt→ltb 0 capture_size h,
        lt→ltb 0 file_size h',
        rest.0,
        rest.1,
        rest.2,
        rest.3,
        rest.4,
        rest.5,
        rest.6,
        rest.7,
        rest.8,
        udp_accepted ps,
        tcp_part ps,
      )
      (and_true (rate_accepted ((aggregate_tcp ps).metrics)))
