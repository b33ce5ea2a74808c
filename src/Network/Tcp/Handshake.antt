-- ===== src/Network/Tcp/Handshake.antt =====
-- `_tcp_handshake_completed`, network/metrics.py.
use sahabino.Common.{Bool, false, ◌&&◌, ◌||◌, not, List, [], ◌∷◌}
use sahabino.Network.Packets.{PacketRecord, same_option}

-- The two packets go the same way, or opposite ways, between the same endpoints.
abbrev pub same_way : PacketRecord → PacketRecord → Bool
same_way p q =
    same_option q.src_ip p.src_ip
    && same_option q.src_port p.src_port
    && same_option q.dst_ip p.dst_ip
    && same_option q.dst_port p.dst_port

abbrev pub opposite_way : PacketRecord → PacketRecord → Bool
opposite_way p q =
    same_option q.src_ip p.dst_ip
    && same_option q.src_port p.dst_port
    && same_option q.dst_ip p.src_ip
    && same_option q.dst_port p.src_port

unfoldable pub is_syn : PacketRecord → Bool
is_syn p = p.tcp_syn && not p.tcp_ack

unfoldable pub is_syn_ack : PacketRecord → PacketRecord → Bool
is_syn_ack syn p = p.tcp_syn && p.tcp_ack && opposite_way syn p

unfoldable pub is_acknowledgment : PacketRecord → PacketRecord → Bool
is_acknowledgment syn p = not p.tcp_syn && p.tcp_ack && same_way syn p

-- The innermost loop: the rest of the records has the initiator's acknowledgment.
unfoldable pub acknowledged : PacketRecord → List PacketRecord → Bool
unfolding is_acknowledgment
acknowledged syn [] = false
acknowledged syn (p ∷ ps) = is_acknowledgment syn p || acknowledged syn ps

-- The loop over the responder's answers.
unfoldable pub answered : PacketRecord → List PacketRecord → Bool
unfolding is_syn_ack acknowledged
answered syn [] = false
answered syn (p ∷ ps) = (is_syn_ack syn p && acknowledged syn ps) || answered syn ps

unfoldable pub tcp_handshake_completed : List PacketRecord → Bool
unfolding is_syn answered
tcp_handshake_completed [] = false
tcp_handshake_completed (p ∷ ps) = (is_syn p && answered p ps) || tcp_handshake_completed ps
