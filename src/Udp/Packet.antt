-- ===== src/Udp/Packet.antt =====
-- rpkt/src/udp/packet.rs: `UdpPacket` over any buffer.
use rpkt.Base.{
  ℕ, ltb, leb, ◌&&◌, if◌then◌else◌, List, Outcome, ok, ◌>>=◌, ◌>>◌, assert, length, ◌⊎◌, inl, inr,
}
use rpkt.Extern.{ByteOrder, Buf}
use rpkt.Traits.{PktBuf, PktMut}
use rpkt.Packet.{get, trim_and_advance, set, put_header, try_u16}
use rpkt.Udp.Header
use rpkt.Udp.Header.{udp_header_len, as_bytes}

module _ (net : ByteOrder) where
  module _ (B : Buf) where
    unfoldable pub packet_len : B.Buffer → Outcome ℕ
    packet_len buf = get B (Header.packet_len net) buf

    -- `Ok` on the left.
    unfoldable pub parse : B.Buffer → Outcome (B.Buffer ⊎ B.Buffer)
    parse buf =
        if ltb (length (B.chunk buf)) udp_header_len
        then ok (inr buf)
        else (packet_len buf >>= λ len.
            if leb udp_header_len len && leb len (B.remaining buf)
            then ok (inl buf)
            else ok (inr buf))

  module _ (P : PktBuf) where
    unfoldable pub payload : P.Buffer → Outcome P.Buffer
    payload buf = do
      len ← packet_len P.buf buf
      assert (leb len (P.remaining buf))
      trim_and_advance P len udp_header_len buf

  module _ (P : PktMut) where
    unfoldable pub prepend_header : P.Buffer → List ℕ → Outcome P.Buffer
    prepend_header buf header = do
      assert (leb udp_header_len (P.chunk_headroom buf))
      moved ← P.move_back buf udp_header_len
      bytes ← as_bytes header
      udppkt ← put_header P udp_header_len bytes moved
      len ← try_u16 (P.remaining udppkt)
      set P (λ chunk. Header.set_packet_len net chunk len) udppkt
