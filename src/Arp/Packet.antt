-- ===== src/Arp/Packet.antt =====
-- rpkt/src/arp/packet.rs: `ArpPacket` over any buffer.
use rpkt.Base.{ℕ, leb, if◌then◌else◌, List, Outcome, ok, length, ◌⊎◌, inl, inr}
use rpkt.Extern.{Buf}
use rpkt.Traits.{PktMut}
use rpkt.Packet.{get}
use rpkt.Packet.Fixed.{push_header_checked}
use rpkt.Arp.Header
use rpkt.Arp.Header.{arp_header_len}

module _ (B : Buf) where
  -- `Ok` on the left.
  unfoldable pub parse : B.Buffer → Outcome (B.Buffer ⊎ B.Buffer)
  parse buf = if leb arp_header_len (length (B.chunk buf)) then ok (inl buf) else ok (inr buf)

  unfoldable pub sender_hardware_addr : B.Buffer → Outcome (List ℕ)
  sender_hardware_addr buf = get B Header.sender_hardware_addr buf

  unfoldable pub sender_protocol_addr : B.Buffer → Outcome (List ℕ)
  sender_protocol_addr buf = get B Header.sender_protocol_addr buf

  unfoldable pub target_hardware_addr : B.Buffer → Outcome (List ℕ)
  target_hardware_addr buf = get B Header.target_hardware_addr buf

  unfoldable pub target_protocol_addr : B.Buffer → Outcome (List ℕ)
  target_protocol_addr buf = get B Header.target_protocol_addr buf

module _ (P : PktMut) where
  unfoldable pub prepend_header : P.Buffer → List ℕ → Outcome P.Buffer
  prepend_header buf header = push_header_checked P arp_header_len buf header
