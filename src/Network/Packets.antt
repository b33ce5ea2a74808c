-- ===== src/Network/Packets.antt =====
-- Packets, flow keys and connection keys, network/metrics.py. Times and round trips count ticks of one
-- fixed unit, an address is a number (0 for the empty string), and a version or a packet type of
-- QUIC is told apart as far as the code reads it.
use sahabino.Common.{
  ℕ, Bool, true, false, ◌&&◌, ◌||◌, not, Option, none, some, ltb, ◌==◌, if◌then◌else◌,
}

pub data Direction : Type 0 where
  tx rx : Direction

pub data Transport : Type 0 where
  tcp udp other : Transport

-- `quic_version`: the text "0" or "0x00000000", the empty text, or another version.
pub data QuicVersion : Type 0 where
  zero_version empty_version : QuicVersion
  version : ℕ → QuicVersion

-- `quic_packet_type.lower()`: a name or number of the code, or another text.
pub data QuicPacketType : Type 0 where
  initial zero_rtt retry unnamed : QuicPacketType

pub record PacketRecord : Type 0 where
  pub timestamp : ℕ
  pub frame_len : ℕ
  pub captured_len : ℕ
  pub direction : Option Direction
  pub ip_version : Option ℕ
  pub network_bytes : ℕ
  pub src_ip : Option ℕ
  pub dst_ip : Option ℕ
  pub src_port : Option ℕ
  pub dst_port : Option ℕ
  pub transport : Transport
  pub l4_payload_bytes : ℕ
  pub tcp_stream : Option ℕ
  pub ip_fragment : Bool
  pub ecn_ce : Bool
  pub icmp_error : Bool
  pub tcp_syn : Bool
  pub tcp_ack : Bool
  pub tcp_rst : Bool
  pub tcp_window_size : Option ℕ
  pub tcp_initial_rtt_seconds : Option ℕ
  pub tcp_ack_rtt_seconds : Option ℕ
  pub tcp_retransmission : Bool
  pub tcp_fast_retransmission : Bool
  pub tcp_spurious_retransmission : Bool
  pub tcp_zero_window : Bool
  pub tcp_window_full : Bool
  pub tcp_out_of_order : Bool
  pub tcp_duplicate_ack : Bool
  pub tcp_lost_segment : Bool
  pub quic : Bool
  pub quic_version : Option QuicVersion
  pub quic_packet_type : Option QuicPacketType
  pub quic_spin_bit : Option ℕ
  pub dns_is_response : Option Bool
  pub dns_response_code : Option ℕ
  pub dns_time_seconds : Option ℕ

pub record FlowKey : Type 0 where
  pub version_of : ℕ
  pub a_ip : ℕ
  pub a_port : ℕ
  pub b_ip : ℕ
  pub b_port : ℕ
  pub carried_by : Transport

pub data TcpConnectionKey : Type 0 where
  stream : ℕ → TcpConnectionKey
  flow : FlowKey → TcpConnectionKey

abbrev pub is_tcp : Transport → Bool
is_tcp tcp = true
is_tcp _ = false

abbrev pub is_udp : Transport → Bool
is_udp udp = true
is_udp _ = false

abbrev pub same_transport : Transport → Transport → Bool
same_transport tcp t = is_tcp t
same_transport udp t = is_udp t
same_transport other t = not (is_tcp t || is_udp t)

abbrev pub same_direction : Direction → Direction → Bool
same_direction tx tx = true
same_direction rx rx = true
same_direction _ _ = false

-- `packet.direction == direction`
abbrev pub goes : Direction → PacketRecord → Bool
goes d p = elim p.direction [ none ↦ false | some e ↦ same_direction d e ]

abbrev pub same_option : Option ℕ → Option ℕ → Bool
same_option none none = true
same_option (some a) (some b) = a == b
same_option _ _ = false

-- The order of two endpoints, as tuples of address and port.
abbrev pub endpoint_ltb : ℕ → ℕ → ℕ → ℕ → Bool
endpoint_ltb ip port ip' port' = ltb ip ip' || (ip == ip' && ltb port port')

abbrev pub sorted_endpoints : ℕ → Transport → ℕ → ℕ → ℕ → ℕ → FlowKey
sorted_endpoints v t ip port ip' port' =
    if endpoint_ltb ip' port' ip port
    then record {
      version_of = v;
      a_ip = ip';
      a_port = port';
      b_ip = ip;
      b_port = port;
      carried_by = t;
    }
    else record {
      version_of = v;
      a_ip = ip;
      a_port = port;
      b_ip = ip';
      b_port = port';
      carried_by = t;
    }

infixr 10 ◌>>=◌
abbrev ◌>>=◌ {ℓ κ} : {A : Type ℓ} {B : Type κ} → Option A → (A → Option B) → Option B
none >>= f = none
(some a) >>= f = f a

-- `_flow_key`
unfoldable pub flow_key : PacketRecord → Option FlowKey
flow_key p = do
  v ← p.ip_version
  src ← p.src_ip
  dst ← p.dst_ip
  sport ← p.src_port
  dport ← p.dst_port
  if is_tcp p.transport || is_udp p.transport
      then some (sorted_endpoints v p.transport src sport dst dport)
      else none

abbrev pub same_flow : FlowKey → FlowKey → Bool
same_flow k j =
    k.version_of == j.version_of
    && k.a_ip == j.a_ip
    && k.a_port == j.a_port
    && k.b_ip == j.b_ip
    && k.b_port == j.b_port
    && same_transport k.carried_by j.carried_by

-- `_tcp_connection_key`
unfoldable pub tcp_connection_key : PacketRecord → Option TcpConnectionKey
unfolding flow_key
tcp_connection_key p = elim p.tcp_stream [
  | some n ↦ some (stream n)
  | none ↦ elim (flow_key p) [ none ↦ none | some k ↦ some (flow k) ]
]

abbrev pub same_connection : TcpConnectionKey → TcpConnectionKey → Bool
same_connection (stream n) (stream m) = n == m
same_connection (flow k) (flow j) = same_flow k j
same_connection _ _ = false

-- `(packet.src_ip, packet.src_port, packet.dst_ip, packet.dst_port)`
pub record DirectionKey : Type 0 where
  pub from_ip : Option ℕ
  pub from_port : Option ℕ
  pub to_ip : Option ℕ
  pub to_port : Option ℕ

unfoldable pub direction_key : PacketRecord → DirectionKey
direction_key p = record {
  from_ip = p.src_ip;
  from_port = p.src_port;
  to_ip = p.dst_ip;
  to_port = p.dst_port;
}

abbrev pub same_key : DirectionKey → DirectionKey → Bool
same_key k j =
    same_option k.from_ip j.from_ip
    && same_option k.from_port j.from_port
    && same_option k.to_ip j.to_ip
    && same_option k.to_port j.to_port
