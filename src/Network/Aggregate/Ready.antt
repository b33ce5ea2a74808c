-- ===== src/Network/Aggregate/Ready.antt =====
-- The flag that a capture is ready for comparison, `aggregate_packets` of network/metrics.py.
use sahabino.Common.{
  ℕ, ◌<◌, ◌≡◌, refl, ◌↔◌, Bool, true, false, ◌&&◌, ◌||◌, not, Option, List, [], ◌∷◌, arith, ltb,
  is_some, ◌==◌,
}
use sahabino.Network.Packets.{PacketRecord}
use sahabino.Network.Warnings.{
  Warning, Warnings, sorted_warnings, listed, capture_truncated, direction_unavailable,
  no_primary_payload, zero_transfer_span,
}
use sahabino.Network.Quic.{SupportedFields, QuicResult, aggregate_quic}
use sahabino.Network.Udp.{DnsMetrics, aggregate_dns}
use sahabino.Network.Tcp.Metrics.{TcpResult, aggregate_tcp}
use sahabino.Network.Tcp.Connections.{is_empty}
use sahabino.Network.Aggregate.{warnings_of, is_comparison_ready, aggregate_packets}
use sahabino.Network.Aggregate.Records.{Scenario, CaptureFormat}
use sahabino.Network.Aggregate.Parts.{
  direction_available, truncated_count, duration_of, timestamps, ip_only,
}
use sahabino.Network.Aggregate.Transfer.{primary_span, primary_payload_times, has_no_span}

-- The warnings that say that a capture cannot be compared.
unfoldable pub forbids : Warning → Bool
forbids capture_truncated = true
forbids direction_unavailable = true
forbids no_primary_payload = true
forbids zero_transfer_span = true
forbids _ = false

unfoldable pub some_forbids : List Warning → Bool
unfolding forbids
some_forbids [] = false
some_forbids (w ∷ ws) = forbids w || some_forbids ws

some_forbids-listed :
    (b : Bool) (w : Warning) (ws : List Warning)
    → some_forbids (listed b w ws) ≡ ((b && forbids w) || some_forbids ws)
unfolding some_forbids listed
some_forbids-listed true w ws = refl
some_forbids-listed false w ws = refl

some_forbids-sorted :
    (w : Warnings)
    → some_forbids (sorted_warnings w)
      ≡ (w.truncated || (w.no_direction || (w.no_payload || w.zero_span)))
unfolding sorted_warnings forbids some_forbids
some_forbids-sorted w = simp (some_forbids-listed) (ground arith)

empty_duration :
    (packets : List PacketRecord) → 0 < duration_of (timestamps packets) → is_empty packets ≡ false
unfolding duration_of
empty_duration [] h = absurd (omega arith)
empty_duration (p ∷ ps) h = refl

-- The span of the payload is there in the same cases as its warnings are not.
span_warnings :
    (scenario : Scenario) (ip_packets : List PacketRecord)
    → let times = primary_payload_times scenario ip_packets in
      let has_payload = direction_available ip_packets && not (is_empty times) in
      is_some (primary_span scenario ip_packets)
      ≡ not (not has_payload || (has_payload && has_no_span times))
unfolding primary_span
span_warnings scenario ip_packets = ground arith

ready_tests :
    (x d e z : Bool) (n t : ℕ)
    → (0 < n → x ≡ false)
    → ((not x && ltb 0 n && t == 0 && d && not (not (d && not e) || (d && not e && z))) ≡ true)
      ↔ ((0 < n) × ((ltb 0 t || (not d || (not (d && not e) || (d && not e && z)))) ≡ false))
ready_tests x d e z n t h = ground arith

ready_warnings :
    (packets : List PacketRecord) (scenario : Scenario) (tcp_result : TcpResult)
    (quic_result : QuicResult) (dns_result : Option DnsMetrics)
    → (is_comparison_ready packets scenario ≡ true) ↔ (
        (0 < duration_of (timestamps packets))
        × (some_forbids
              (sorted_warnings (warnings_of packets scenario tcp_result quic_result dns_result))
            ≡ false))
unfolding is_comparison_ready warnings_of
ready_warnings packets scenario tcp_result quic_result dns_result =
    rw
      (
        some_forbids-sorted (warnings_of packets scenario tcp_result quic_result dns_result),
        span_warnings scenario (ip_only packets),
      )
      (ready_tests (is_empty packets) (direction_available (ip_only packets))
        (is_empty (primary_payload_times scenario (ip_only packets)))
        (has_no_span (primary_payload_times scenario (ip_only packets)))
        (duration_of (timestamps packets)) (truncated_count packets) (empty_duration packets))

-- A capture is ready for comparison if and only if it has a positive duration and none of its
-- warnings is one of a truncated capture, of missing directions, of missing payload in the
-- scenario's direction, or of a payload without a time span.
pub ready_iff :
    (packets : List PacketRecord) (capture_format : CaptureFormat) (capture_size : ℕ)
    (scenario : Scenario) (file_size : ℕ) (fields : SupportedFields)
    → let m = aggregate_packets packets capture_format capture_size scenario file_size fields in
      (m.capabilities.comparison_ready ≡ true)
      ↔ ((0 < m.capture.capture_duration_ms) × (some_forbids m.capture.analysis_warnings ≡ false))
unfolding aggregate_packets
ready_iff packets capture_format capture_size scenario file_size fields =
    ready_warnings packets scenario (aggregate_tcp (ip_only packets))
      (aggregate_quic (ip_only packets) fields) (aggregate_dns packets)
