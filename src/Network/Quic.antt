-- ===== src/Network/Quic.antt =====
-- `_aggregate_quic`, network/metrics.py. A version is counted once, by the number of its text.
use sahabino.Common.{
  ℕ, ◌+◌, ◌-◌, Bool, true, false, ◌||◌, not, Option, none, some, List, [], ◌∷◌, ◌++◌, ◌==◌,
  if◌then◌else◌, length, sort_by, sorted, count_of, filter_by,
}
use sahabino.Common.Maps.{get, update, put, set_default}
use sahabino.Network.Packets.{
  PacketRecord, Direction, tx, rx, zero_version, version, initial, zero_rtt, retry, FlowKey,
  flow_key, same_flow, same_direction,
}
use sahabino.Network.Stats.{Quotient, percentile}
use sahabino.Network.Tcp.Connections.{is_empty}
use sahabino.Network.Tcp.Metrics.{average, least}

-- The fields that the installed analyzer can print, as far as the code asks for them.
pub record SupportedFields : Type 0 where
  pub quic_version : Bool
  pub quic_long_packet_type : Bool
  pub quic_spin_bit : Bool

pub record QuicMetrics : Type 0 where
  pub quic_identified_connection_count : ℕ
  pub quic_version_count : Option ℕ
  pub quic_versions_seen : Option (List ℕ)
  pub quic_retry_count : Option ℕ
  pub quic_version_negotiation_count : Option ℕ
  pub quic_0rtt_observed_count : Option ℕ
  pub quic_initial_rtt_avg_ms : Option Quotient
  pub quic_initial_rtt_p50_ms : Option ℕ
  pub quic_initial_rtt_p95_ms : Option ℕ
  pub quic_spin_rtt_sample_count : Option ℕ
  pub quic_spin_rtt_min_ms : Option ℕ
  pub quic_spin_rtt_p50_ms : Option ℕ
  pub quic_spin_rtt_p95_ms : Option ℕ

abbrev pub Flows : Type 0
Flows = List (FlowKey × List PacketRecord)

-- The packets by flow; one without a key is passed over.
unfoldable pub quic_flows : Flows → List PacketRecord → Flows
unfolding flow_key update
quic_flows flows [] = flows
quic_flows flows (p ∷ ps) =
    quic_flows
      (elim (flow_key p) [
        | none ↦ flows
        | some key ↦ update same_flow [] (λ qs. qs ++ p ∷ []) key flows
      ])
      ps

abbrev pub has : ℕ → List ℕ → Bool
has n [] = false
has n (m ∷ ms) = n == m || has n ms

-- The set of the versions seen, without the reserved ones.
unfoldable pub versions_seen : List PacketRecord → List ℕ
versions_seen [] = []
versions_seen (p ∷ ps) =
    let rest = versions_seen ps in
    elim p.quic_version [
      | none ↦ rest
      | some v ↦ elim v [ version n ↦ (if has n rest then rest else n ∷ rest) | _ ↦ rest ]
    ]

abbrev pub is_retry : PacketRecord → Bool
is_retry p = elim p.quic_packet_type [ none ↦ false | some t ↦ elim t [ retry ↦ true | _ ↦ false ] ]

abbrev pub is_zero_rtt : PacketRecord → Bool
is_zero_rtt p = elim p.quic_packet_type [
  | none ↦ false
  | some t ↦ elim t [ zero_rtt ↦ true | _ ↦ false ]
]

abbrev pub is_initial : PacketRecord → Bool
is_initial p = elim p.quic_packet_type [
  | none ↦ false
  | some t ↦ elim t [ initial ↦ true | _ ↦ false ]
]

abbrev pub is_negotiation : PacketRecord → Bool
is_negotiation p = elim p.quic_version [
  | none ↦ false
  | some v ↦ elim v [ zero_version ↦ true | _ ↦ false ]
]

-- The first Initial packet of each direction.
unfoldable pub first_by_direction : List (Direction × ℕ) → List PacketRecord → List (Direction × ℕ)
unfolding update
first_by_direction firsts [] = firsts
first_by_direction firsts (p ∷ ps) =
    first_by_direction
      (elim p.direction [
        | none ↦ firsts
        | some d ↦ if is_initial p then set_default same_direction d p.timestamp firsts else firsts
      ])
      ps

-- `abs(a - b)`
abbrev pub distance : ℕ → ℕ → ℕ
distance a b = (a - b) + (b - a)

-- The round trip of a flow with an Initial packet in both directions.
unfoldable pub initial_rtt : List PacketRecord → List ℕ
unfolding first_by_direction get
initial_rtt records =
    let firsts = first_by_direction [] records in
    elim (get same_direction tx firsts) [
      | none ↦ []
      | some sent ↦ elim (get same_direction rx firsts) [
        | none ↦ []
        | some received ↦ distance received sent ∷ []
      ]
    ]

-- The sample that a packet adds when the spin bit of its direction has changed.
abbrev pub spin_sample : Option (ℕ × ℕ) → ℕ → ℕ → List ℕ
spin_sample none bit now = []
spin_sample (some (old_bit, before)) bit now = if old_bit == bit then [] else (now - before) ∷ []

-- The loop over the spin bits, with the previous bit and time of each direction.
unfoldable pub spin_samples : List (Direction × (ℕ × ℕ)) → List PacketRecord → List ℕ
unfolding get update
spin_samples previous [] = []
spin_samples previous (p ∷ ps) = elim p.direction [
  | none ↦ spin_samples previous ps
  | some d ↦ elim p.quic_spin_bit [
    | none ↦ spin_samples previous ps
    | some bit ↦
        spin_sample (get same_direction d previous) bit p.timestamp
        ++ spin_samples (put same_direction d (bit, p.timestamp) previous) ps
  ]
]

-- The round trips and the samples of all flows.
unfoldable pub quic_rtts : Flows → List ℕ
unfolding initial_rtt sort_by
quic_rtts [] = []
quic_rtts ((key, records) ∷ flows) =
    initial_rtt (sort_by (λ p. p.timestamp) records) ++ quic_rtts flows

unfoldable pub quic_spins : Flows → List ℕ
unfolding spin_samples sort_by
quic_spins [] = []
quic_spins ((key, records) ∷ flows) =
    spin_samples [] (sort_by (λ p. p.timestamp) records) ++ quic_spins flows

abbrev pub when {ℓ} : {A : Type ℓ} → Bool → A → Option A
when true x = some x
when false x = none

unfoldable pub quic_metrics : List PacketRecord → SupportedFields → QuicMetrics
unfolding quic_flows versions_seen quic_rtts quic_spins percentile average least count_of sort_by
quic_metrics quic_packets fields =
    let flows = quic_flows [] quic_packets in
    let versions = sorted (versions_seen quic_packets) in
    let rtts = quic_rtts flows in
    let spins = quic_spins flows in
    record {
      quic_identified_connection_count = length flows;
      quic_version_count = when fields.quic_version (length versions);
      quic_versions_seen = when fields.quic_version versions;
      quic_retry_count = when fields.quic_long_packet_type (count_of is_retry quic_packets);
      quic_version_negotiation_count =
          when fields.quic_version (count_of is_negotiation quic_packets);
      quic_0rtt_observed_count =
          when fields.quic_long_packet_type (count_of is_zero_rtt quic_packets);
      quic_initial_rtt_avg_ms = average rtts;
      quic_initial_rtt_p50_ms = percentile rtts 50;
      quic_initial_rtt_p95_ms = percentile rtts 95;
      quic_spin_rtt_sample_count = when fields.quic_spin_bit (length spins);
      quic_spin_rtt_min_ms = least spins;
      quic_spin_rtt_p50_ms = percentile spins 50;
      quic_spin_rtt_p95_ms = percentile spins 95;
    }

-- What `_aggregate_quic` returns.
pub record QuicResult : Type 0 where
  pub metrics : Option QuicMetrics
  pub initial_available : Bool
  pub spin_available : Bool

unfoldable pub aggregate_quic : List PacketRecord → SupportedFields → QuicResult
unfolding quic_metrics quic_flows quic_rtts quic_spins filter_by
aggregate_quic packets fields =
    let quic_packets = filter_by (λ p. p.quic) packets in
    let flows = quic_flows [] quic_packets in
    if is_empty quic_packets
    then record { metrics = none; initial_available = false; spin_available = false }
    else record {
      metrics = some (quic_metrics quic_packets fields);
      initial_available = not (is_empty (quic_rtts flows));
      spin_available = not (is_empty (quic_spins flows));
    }
