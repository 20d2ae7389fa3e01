-- ===== src/Icmpv4/Packet.antt =====
-- rpkt/src/icmpv4/packet.rs: `Icmpv4Packet` over any buffer. A method that takes `&mut self` gives
-- the buffer back with its result.
use rpkt.Base.{ℕ, leb, ◌==◌, Bool, if◌then◌else◌, List, Outcome, ok, ◌>>=◌, length, ◌⊎◌, inl, inr}
use rpkt.Extern.{ByteOrder, Buf, Take}
use rpkt.Traits.{PktBuf, PktMut}
use rpkt.Packet.{set}
use rpkt.Packet.Checksum.{sum_over}
use rpkt.Packet.Fixed.{push_header_checked}
use rpkt.Ipv4.Header.{not_u16}
use rpkt.Icmpv4.Header
use rpkt.Icmpv4.Header.{icmpv4_header_len}

module _ (B : Buf) where
  -- `Ok` on the left.
  unfoldable pub parse : B.Buffer → Outcome (B.Buffer ⊎ B.Buffer)
  parse buf = if leb icmpv4_header_len (length (B.chunk buf)) then ok (inl buf) else ok (inr buf)

  unfoldable pub data_ : B.Buffer → Outcome B.Buffer
  data_ buf = B.advance buf icmpv4_header_len

module _ (net : ByteOrder) where
  module _ (P : PktBuf) (T : Take P.buf) where
    unfoldable pub calc_checksum : P.Buffer → Outcome (ℕ × P.Buffer)
    calc_checksum buf = sum_over net P T (P.remaining buf) buf

    unfoldable pub verify_checksum : P.Buffer → Outcome (Bool × P.Buffer)
    verify_checksum buf = calc_checksum buf >>= λ cksum. ok (cksum.0 == 0xffff, cksum.1)

  module _ (P : PktMut) (T : Take P.pkt_buf.buf) where
    unfoldable pub adjust_checksum : P.Buffer → Outcome P.Buffer
    adjust_checksum buf = do
      zeroed ← set P (λ chunk. Header.set_checksum net chunk 0) buf
      cksum ← calc_checksum P.pkt_buf T zeroed
      set P (λ chunk. Header.set_checksum net chunk (not_u16 cksum.0)) cksum.1

module _ (P : PktMut) where
  unfoldable pub prepend_header : P.Buffer → List ℕ → Outcome P.Buffer
  prepend_header buf header = push_header_checked P icmpv4_header_len buf header
