-- ===== src/Network/Tcp/Ratios.antt =====
-- The ratios that a TCP event is validated against, network/metrics.py and
-- messaging/network_events.py.
use sahabino.Common.{
  ℕ, ◌+◌, ◌≤◌, ◌≡◌, refl, sym, subst, suc, ◌⊎◌, inl, inr, ◌↔◌, Bool, true, ◌&&◌, some, List, [],
  ◌∷◌, arith, All, IsSorted, sort_by, sort_by-IsSorted, length, sum_of, sum-filter, filter_by,
  Bool-cases,
}
use sahabino.Network.Packets.{PacketRecord}
use sahabino.Network.Stats.{ratio}
use sahabino.Network.Tcp.Stalls.Bound.{stalls_bound}
use sahabino.Network.Tcp.Connections.{
  Connections, flow_packets, TcpTotals, no_totals, add_connection, add_connections, active_duration,
  zero_window_duration, first_timestamp, last_timestamp, no_stalls, is_empty,
}
use sahabino.Network.Tcp.Metrics.{
  TcpMetrics, tcp_metrics, aggregate_tcp, tcp_only, is_retransmitted, at_most_one, accepts_tcp,
}

abbrev time : PacketRecord → ℕ
time p = p.timestamp

last_late :
    (p : PacketRecord) (ps : List PacketRecord)
    → IsSorted time (p ∷ ps)
    → p.timestamp ≤ last_timestamp p.timestamp ps
unfolding IsSorted last_timestamp
last_late p [] s = omega arith
last_late p (q ∷ qs) (all, s) = omega (arith, all.0, last_late q qs s)

-- Every record of a connection is at most as late as its last one.
each_early :
    (t : ℕ) (ps : List PacketRecord)
    → IsSorted time ps
    → All (λ p. p.timestamp ≤ last_timestamp t ps) ps
unfolding IsSorted last_timestamp
each_early t [] s = tt
each_early t (p ∷ ps) (all, s) = (last_late p ps (all, s), each_early p.timestamp ps s)

All-both :
    (a b : ℕ) (ps : List PacketRecord)
    → All (λ p. a ≤ p.timestamp) ps
    → All (λ p. p.timestamp ≤ b) ps
    → All (λ p. (a ≤ p.timestamp) × (p.timestamp ≤ b)) ps
All-both a b [] all all' = tt
All-both a b (p ∷ ps) (h, all) (h', all') = ((h, h'), All-both a b ps all all')

connection_bound :
    (ps : List PacketRecord) → IsSorted time ps → zero_window_duration ps ≤ active_duration ps
unfolding zero_window_duration active_duration first_timestamp IsSorted
connection_bound [] s = omega arith
connection_bound (p ∷ ps) s =
    stalls_bound p.timestamp (last_timestamp 0 (p ∷ ps)) no_stalls (p ∷ ps)
      (All-both p.timestamp (last_timestamp 0 (p ∷ ps)) (p ∷ ps) (omega arith, s.0)
        (each_early 0 (p ∷ ps) s))
      (tt, tt)

-- The totals of n connections.
record Fair (n : ℕ) (t : TcpTotals) : Type 0 where
  handshakes : t.successful ≤ n
  resets : t.reset_flows ≤ n
  stalls : t.zero_window_duration_ms ≤ t.active_duration_ms

add_connection-Fair :
    (n : ℕ) (t : TcpTotals) (records : List PacketRecord)
    → IsSorted time records
    → Fair n t
    → Fair (suc n) (add_connection t records)
unfolding add_connection
add_connection-Fair n t records s f =
    let bound = connection_bound records s in
    record {
      handshakes = ground (arith, f.handshakes);
      resets = ground (arith, f.resets);
      stalls = omega (arith, f.stalls, bound);
    }

add_connections-Fair :
    (n : ℕ) (t : TcpTotals) (flows : Connections)
    → Fair n t
    → Fair (n + length flows) (add_connections t flows)
unfolding add_connections
add_connections-Fair n t [] f = subst (λ k. Fair k t) (omega arith) f
add_connections-Fair n t ((key, records) ∷ flows) f =
    subst (λ k. Fair k (add_connections (add_connection t (sort_by time records)) flows))
      (omega arith)
      (add_connections-Fair (suc n) (add_connection t (sort_by time records)) flows
        (add_connection-Fair n t (sort_by time records) (sort_by-IsSorted time records) f))

totals-Fair : (flows : Connections) → Fair (length flows) (add_connections no_totals flows)
totals-Fair flows =
    subst (λ k. Fair k (add_connections no_totals flows)) (omega arith)
      (add_connections-Fair 0 no_totals flows
        (record { handshakes = omega arith; resets = omega arith; stalls = omega arith }))

-- The metrics of a nonempty list of TCP packets.
metrics_of :
    (packets : List PacketRecord) (m : TcpMetrics)
    → (aggregate_tcp packets).metrics ≡ some m
    → let flows = flow_packets [] (tcp_only packets) in
      m ≡ tcp_metrics (tcp_only packets) (length flows) (add_connections no_totals flows)
unfolding aggregate_tcp
metrics_of packets m e = elim (Bool-cases (is_empty (tcp_only packets))) [
  | inl empty ↦ ground arith
  | inr full ↦ ground arith
]

-- The zero-window time of a capture's connections is at most the time that they are active.
pub zero_window_within_active :
    (packets : List PacketRecord) (m : TcpMetrics)
    → (aggregate_tcp packets).metrics ≡ some m
    → m.tcp_zero_window_duration_ms ≤ m.tcp_active_duration_ms
unfolding tcp_metrics
zero_window_within_active packets m e =
    subst (λ n. n.tcp_zero_window_duration_ms ≤ n.tcp_active_duration_ms)
      (sym (metrics_of packets m e)) (totals-Fair (flow_packets [] (tcp_only packets))).stalls

pub at_most_one-ratio : (a b : ℕ) → a ≤ b → at_most_one (ratio a b) ≡ true
unfolding ratio at_most_one
at_most_one-ratio a b h = ground arith

rate_accepted : (a b : ℕ) → (at_most_one (ratio a b) ≡ true) ↔ ((b ≡ 0) ⊎ (a ≤ b))
unfolding ratio at_most_one
rate_accepted a b = ground arith

rate_only : (b : Bool) → (b && true && true && true) ≡ b
rate_only b = ground arith

accepted_metrics :
    (packets : List PacketRecord)
    → let flows = flow_packets [] (tcp_only packets) in
      let m = tcp_metrics (tcp_only packets) (length flows) (add_connections no_totals flows) in
      (accepts_tcp m ≡ at_most_one m.tcp_retransmission_rate)
      × (m.tcp_retransmission_rate ≡ ratio m.tcp_retransmission_count m.tcp_data_segment_count)
unfolding accepts_tcp tcp_metrics
accepted_metrics packets =
    let flows = flow_packets [] (tcp_only packets) in
    let t = add_connections no_totals flows in
    let fair = totals-Fair flows in
    let success = at_most_one-ratio t.successful (length flows) fair.handshakes in
    let reset = at_most_one-ratio t.reset_flows (length flows) fair.resets in
    let stall = at_most_one-ratio t.zero_window_duration_ms t.active_duration_ms fair.stalls in
    let payload : PacketRecord → ℕ = λ p. p.l4_payload_bytes in
    let tax =
      at_most_one-ratio (sum_of payload (filter_by is_retransmitted (tcp_only packets)))
        (sum_of payload (tcp_only packets))
        (sum-filter payload is_retransmitted (tcp_only packets)) in
    let m = tcp_metrics (tcp_only packets) (length flows) t in
    (rw (success, reset, stall, tax) (rate_only (at_most_one m.tcp_retransmission_rate)), refl)

-- The validation of the TCP metrics turns on the retransmission rate.
pub accepts_tcp-rate :
    (packets : List PacketRecord) (m : TcpMetrics)
    → (aggregate_tcp packets).metrics ≡ some m
    → (accepts_tcp m ≡ at_most_one m.tcp_retransmission_rate)
      × (m.tcp_retransmission_rate ≡ ratio m.tcp_retransmission_count m.tcp_data_segment_count)
accepts_tcp-rate packets m e =
    subst
      (λ n.
        (accepts_tcp n ≡ at_most_one n.tcp_retransmission_rate)
        × (n.tcp_retransmission_rate ≡ ratio n.tcp_retransmission_count n.tcp_data_segment_count))
      (sym (metrics_of packets m e)) (accepted_metrics packets)

-- The event of a capture's TCP metrics is valid if and only if the capture has no data segment or
-- at most as many retransmitted packets as data segments; the other ratios are at most 1 in any case.
pub tcp_event_accepted :
    (packets : List PacketRecord) (m : TcpMetrics)
    → (aggregate_tcp packets).metrics ≡ some m
    → (accepts_tcp m ≡ true)
      ↔ ((m.tcp_data_segment_count ≡ 0) ⊎ (m.tcp_retransmission_count ≤ m.tcp_data_segment_count))
tcp_event_accepted packets m e =
    let rate = accepts_tcp-rate packets m e in
    rw (rate.0, rate.1) (rate_accepted m.tcp_retransmission_count m.tcp_data_segment_count)
