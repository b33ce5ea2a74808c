-- ===== src/Network/Aggregate/Bytes.antt =====
-- Bytes by direction, protocol and flow, `aggregate_packets` of network/metrics.py.
use sahabino.Common.{
  ℕ, ◌+◌, ◌≤◌, ◌≡◌, refl, ap, inl, inr, true, Option, none, some, List, [], ◌∷◌, arith, sum_of,
  filter_by, length, Option-cases,
}
use sahabino.Common.Maps.{update, values}
use sahabino.Network.Packets.{PacketRecord, tx, rx, goes, FlowKey, flow_key, same_flow}
use sahabino.Network.Quic.{SupportedFields}
use sahabino.Network.Aggregate.{aggregate_packets}
use sahabino.Network.Aggregate.Records.{Scenario, CaptureFormat}
use sahabino.Network.Aggregate.Parts.{
  all_directed, direction_available, traffic_of, ip_only, greatest, payload,
}
use sahabino.Network.Aggregate.Transfer.{flow_payload}

split_sum :
    (f : PacketRecord → ℕ) (ps : List PacketRecord)
    → all_directed ps ≡ true
    → sum_of f (filter_by (goes tx) ps) + sum_of f (filter_by (goes rx) ps) ≡ sum_of f ps
unfolding all_directed sum_of filter_by
split_sum f [] h = refl
split_sum f (p ∷ ps) h = ground (arith, split_sum f ps)

split_length :
    (ps : List PacketRecord)
    → all_directed ps ≡ true
    → length (filter_by (goes tx) ps) + length (filter_by (goes rx) ps) ≡ length ps
unfolding all_directed filter_by
split_length [] h = refl
split_length (p ∷ ps) h = ground (arith, split_length ps)

-- The sum of two numbers that are there.
abbrev pub both : Option ℕ → Option ℕ → Option ℕ
both (some a) (some b) = some (a + b)
both _ _ = none

available_directed :
    (ps : List PacketRecord) → direction_available ps ≡ true → all_directed ps ≡ true
unfolding direction_available
available_directed ps h = ground arith

-- Where the directions of a capture are known, the bytes, the payload and the packets sent and
-- received add up to those of the packets of IP.
pub direction_split :
    (packets : List PacketRecord) (capture_format : CaptureFormat) (capture_size : ℕ)
    (scenario : Scenario) (file_size : ℕ) (fields : SupportedFields)
    → let m = aggregate_packets packets capture_format capture_size scenario file_size fields in
      m.capabilities.direction_metadata_available ≡ true
      → (both m.traffic.tx_network_bytes m.traffic.rx_network_bytes
          ≡ some m.traffic.network_bytes_total)
        × (both m.traffic.tx_l4_payload_bytes m.traffic.rx_l4_payload_bytes
            ≡ some m.traffic.l4_payload_bytes_total)
        × (both m.traffic.tx_packet_count m.traffic.rx_packet_count
            ≡ some (length (ip_only packets)))
unfolding aggregate_packets traffic_of
direction_split packets capture_format capture_size scenario file_size fields h =
    let all = available_directed (ip_only packets) h in
    rw h (
      ap some (split_sum (λ p. p.network_bytes) (ip_only packets) all),
      ap some (split_sum (λ p. p.l4_payload_bytes) (ip_only packets) all),
      ap some (split_length (ip_only packets) all),
    )

sum_update :
    (key : FlowKey) (n : ℕ) (d : List (FlowKey × ℕ))
    → sum_of (λ x. x) (values (update same_flow 0 (λ k. k + n) key d))
      ≡ sum_of (λ x. x) (values d) + n
unfolding sum_of values update
sum_update key n [] = omega arith
sum_update key n ((j, w) ∷ d) = ground (arith, sum_update key n d)

pub flow_payload_sum :
    (d : List (FlowKey × ℕ)) (ps : List PacketRecord)
    → sum_of (λ x. x) (values (flow_payload d ps)) ≤ sum_of (λ x. x) (values d) + payload ps
unfolding sum_of flow_payload
flow_payload_sum d [] = omega arith
flow_payload_sum d (p ∷ ps) = elim (Option-cases (flow_key p)) [
  | inl e ↦ rw e (omega (arith, flow_payload_sum d ps))
  | inr (key, e) ↦ rw e (
      omega (
        arith,
        sum_update key p.l4_payload_bytes d,
        flow_payload_sum (update same_flow 0 (λ k. k + p.l4_payload_bytes) key d) ps,
      ))
]

pub greatest_bound : (xs : List ℕ) (top : ℕ) → greatest xs ≡ some top → top ≤ sum_of (λ x. x) xs
unfolding greatest sum_of
greatest_bound [] top e = cc
greatest_bound (x ∷ xs) top e = elim (Option-cases (greatest xs)) [
  | inl f ↦ ground arith
  | inr (y, f) ↦ ground (arith, greatest_bound xs y f)
]
