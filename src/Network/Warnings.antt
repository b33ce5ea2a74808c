-- ===== src/Network/Warnings.antt =====
-- The set of analysis warnings, network/metrics.py: a field says whether a warning is in the set.
use sahabino.Common.{Bool, true, false, List, [], ◌∷◌}

pub data Warning : Type 0 where
  capture_truncated direction_unavailable dns_incomplete missing_tcp_handshake : Warning
  no_primary_payload quic_spin_unavailable tcp_zero_window_open_at_capture_end : Warning
  zero_transfer_span : Warning

pub record Warnings : Type 0 where
  pub truncated : Bool
  pub no_direction : Bool
  pub dns : Bool
  pub no_handshake : Bool
  pub no_payload : Bool
  pub no_spin : Bool
  pub open_window : Bool
  pub zero_span : Bool

-- A warning of the set comes before those behind it in the alphabet.
unfoldable pub listed : Bool → Warning → List Warning → List Warning
listed true w ws = w ∷ ws
listed false w ws = ws

-- `tuple(sorted(warnings))`: the names of the set in alphabetical order.
unfoldable pub sorted_warnings : Warnings → List Warning
unfolding listed
sorted_warnings w = listed w.truncated capture_truncated (
    listed w.no_direction direction_unavailable (
      listed w.dns dns_incomplete (
        listed w.no_handshake missing_tcp_handshake (
          listed w.no_payload no_primary_payload (
            listed w.no_spin quic_spin_unavailable (
              listed w.open_window tcp_zero_window_open_at_capture_end
                (listed w.zero_span zero_transfer_span [])))))))
