-- ===== src/Network/Tcp/Handshakes.antt =====
-- Three packets of a handshake and `_tcp_handshake_completed`, network/metrics.py.
use sahabino.Common.{◌≡◌, ◌↔◌, inl, inr, true, ◌&&◌, List, [], ◌∷◌, arith, Bool-cases}
use sahabino.Network.Packets.{PacketRecord}
use sahabino.Network.Tcp.Handshake.{
  is_syn, is_syn_ack, is_acknowledgment, acknowledged, answered, tcp_handshake_completed,
}

-- The first list is left when records are taken out of the second.
pub data Sublist : List PacketRecord → List PacketRecord → Type 0 where
  done : Sublist [] []
  keep : {p : PacketRecord} {ps qs : List PacketRecord} → Sublist ps qs → Sublist (p ∷ ps) (p ∷ qs)
  skip : {p : PacketRecord} {ps qs : List PacketRecord} → Sublist ps qs → Sublist ps (p ∷ qs)

-- Three packets of the records, in this order, make a handshake.
pub record ThreeWay (records : List PacketRecord) : Type 0 where
  pub syn : PacketRecord
  pub syn_ack : PacketRecord
  pub acknowledgment : PacketRecord
  pub in_order : Sublist (syn ∷ syn_ack ∷ acknowledgment ∷ []) records
  pub opens : is_syn syn ≡ true
  pub answers : is_syn_ack syn syn_ack ≡ true
  pub confirms : is_acknowledgment syn acknowledgment ≡ true

none_of : (qs : List PacketRecord) → Sublist [] qs
none_of [] = done
none_of (q ∷ qs) = skip (none_of qs)

acknowledged-Sublist :
    (syn : PacketRecord) (ps : List PacketRecord)
    → acknowledged syn ps ≡ true
    → (a : PacketRecord) × (Sublist (a ∷ []) ps × (is_acknowledgment syn a ≡ true))
unfolding acknowledged
acknowledged-Sublist syn [] h = cc
acknowledged-Sublist syn (p ∷ ps) h = elim (Bool-cases (is_acknowledgment syn p)) [
  | inl e ↦ (p, (keep (none_of ps), e))
  | inr e ↦
      let rest = acknowledged-Sublist syn ps (rw e at h) in (rest.0, (skip rest.1.0, rest.1.1))
]

Sublist-acknowledged :
    (syn a : PacketRecord) (ps : List PacketRecord)
    → Sublist (a ∷ []) ps
    → is_acknowledgment syn a ≡ true
    → acknowledged syn ps ≡ true
unfolding acknowledged
Sublist-acknowledged syn a [] s h = elim s [ ]
Sublist-acknowledged syn a (p ∷ ps) (keep s) h = ground arith
Sublist-acknowledged syn a (p ∷ ps) (skip s) h = ground (arith, Sublist-acknowledged syn a ps s h)

answered-Sublist :
    (syn : PacketRecord) (ps : List PacketRecord)
    → answered syn ps ≡ true
    → (b a : PacketRecord) × (Sublist (b ∷ a ∷ []) ps
        × (is_syn_ack syn b ≡ true)
        × (is_acknowledgment syn a ≡ true))
unfolding answered
answered-Sublist syn [] h = cc
answered-Sublist syn (p ∷ ps) h = elim (Bool-cases (is_syn_ack syn p && acknowledged syn ps)) [
  | inl e ↦
      let both : (is_syn_ack syn p ≡ true) × (acknowledged syn ps ≡ true) = ground arith in
      let found = acknowledged-Sublist syn ps both.1 in
      (p, found.0, (keep found.1.0, both.0, found.1.1))
  | inr e ↦
      let rest = answered-Sublist syn ps (rw e at h) in
      (rest.0, rest.1, (skip rest.2.0, rest.2.1, rest.2.2))
]

Sublist-answered :
    (syn b a : PacketRecord) (ps : List PacketRecord)
    → Sublist (b ∷ a ∷ []) ps
    → is_syn_ack syn b ≡ true
    → is_acknowledgment syn a ≡ true
    → answered syn ps ≡ true
unfolding answered
Sublist-answered syn b a [] s h h' = elim s [ ]
Sublist-answered syn b a (p ∷ ps) (keep s) h h' = ground (arith, Sublist-acknowledged syn a ps s h')
Sublist-answered syn b a (p ∷ ps) (skip s) h h' = ground (arith, Sublist-answered syn b a ps s h h')

completed→ : (ps : List PacketRecord) → tcp_handshake_completed ps ≡ true → ThreeWay ps
unfolding tcp_handshake_completed
completed→ [] h = cc
completed→ (p ∷ ps) h = elim (Bool-cases (is_syn p && answered p ps)) [
  | inl e ↦
      let both : (is_syn p ≡ true) × (answered p ps ≡ true) = ground arith in
      let found = answered-Sublist p ps both.1 in
      record {
        syn = p;
        syn_ack = found.0;
        acknowledgment = found.1;
        in_order = keep found.2.0;
        opens = both.0;
        answers = found.2.1;
        confirms = found.2.2;
      }
  | inr e ↦
      let rest = completed→ ps (rw e at h) in
      record {
        syn = rest.syn;
        syn_ack = rest.syn_ack;
        acknowledgment = rest.acknowledgment;
        in_order = skip rest.in_order;
        opens = rest.opens;
        answers = rest.answers;
        confirms = rest.confirms;
      }
]

Sublist-completed :
    (syn b a : PacketRecord) (ps : List PacketRecord)
    → Sublist (syn ∷ b ∷ a ∷ []) ps
    → is_syn syn ≡ true
    → is_syn_ack syn b ≡ true
    → is_acknowledgment syn a ≡ true
    → tcp_handshake_completed ps ≡ true
unfolding tcp_handshake_completed
Sublist-completed syn b a [] s h h' h'' = elim s [ ]
Sublist-completed syn b a (p ∷ ps) (keep s) h h' h'' =
    ground (arith, Sublist-answered syn b a ps s h' h'')
Sublist-completed syn b a (p ∷ ps) (skip s) h h' h'' =
    ground (arith, Sublist-completed syn b a ps s h h' h'')

-- A handshake counts as completed if and only if the records hold, in this order, a SYN, the SYN-ACK
-- of the other end and the acknowledgment of the end that sent the SYN.
pub handshake_iff :
    (records : List PacketRecord) → (tcp_handshake_completed records ≡ true) ↔ ThreeWay records
handshake_iff records = (
  completed→ records,
  λ s.
      Sublist-completed s.syn s.syn_ack s.acknowledgment records s.in_order s.opens s.answers
        s.confirms,
)
