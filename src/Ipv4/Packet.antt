-- ===== src/Ipv4/Packet.antt =====
-- rpkt/src/ipv4/packet.rs: `Ipv4Packet` over any buffer.
use rpkt.Base.{
  ℕ, ltb, leb, ◌&&◌, ◌==◌, Bool, if◌then◌else◌, List, Outcome, ok, ◌>>=◌, ◌>>◌, assert, length, ◌⊎◌,
  inl, inr,
}
use rpkt.Extern.{ByteOrder, Buf}
use rpkt.Wire.{slice, set_range}
use rpkt.Traits.{PktBuf, PktMut}
use rpkt.Packet.{get, trim_and_advance, set, put_header, try_u16}
use rpkt.Checksum.{from_slice}
use rpkt.Ipv4.Header
use rpkt.Ipv4.Header.{ipv4_header_len, as_bytes, not_u16}

module _ (net : ByteOrder) where
  module _ (B : Buf) where
    unfoldable pub header_len : B.Buffer → Outcome ℕ
    header_len buf = get B Header.header_len buf

    unfoldable pub packet_len : B.Buffer → Outcome ℕ
    packet_len buf = get B (Header.packet_len net) buf

    -- `Ok` on the left.
    unfoldable pub parse : B.Buffer → Outcome (B.Buffer ⊎ B.Buffer)
    parse buf =
        if ltb (length (B.chunk buf)) ipv4_header_len
        then ok (inr buf)
        else (header_len buf >>= λ hlen. packet_len buf >>= λ len.
            if leb ipv4_header_len hlen
              && (leb hlen len && (leb hlen (length (B.chunk buf)) && leb len (B.remaining buf)))
            then ok (inl buf)
            else ok (inr buf))

    unfoldable pub option_bytes : B.Buffer → Outcome (List ℕ)
    option_bytes buf = header_len buf >>= λ hlen. slice (B.chunk buf) ipv4_header_len hlen

    unfoldable pub calc_checksum : B.Buffer → Outcome ℕ
    calc_checksum buf = do
      hlen ← header_len buf
      data_ ← slice (B.chunk buf) 0 hlen
      from_slice net data_

    unfoldable pub verify_checksum : B.Buffer → Outcome Bool
    verify_checksum buf = calc_checksum buf >>= λ sum. ok (sum == 0xffff)

  module _ (P : PktBuf) where
    unfoldable pub payload : P.Buffer → Outcome P.Buffer
    payload buf = do
      len ← packet_len P.buf buf
      assert (leb len (P.remaining buf))
      hlen ← header_len P.buf buf
      trim_and_advance P len hlen buf

  module _ (P : PktMut) where
    -- `option_bytes_mut`: the option bytes are written in place.
    unfoldable pub set_option_bytes : P.Buffer → List ℕ → Outcome P.Buffer
    set_option_bytes buf bytes = header_len P.pkt_buf.buf buf >>= λ hlen.
        set P (λ chunk. set_range chunk ipv4_header_len hlen bytes) buf

    unfoldable pub adjust_checksum : P.Buffer → Outcome P.Buffer
    adjust_checksum buf = do
      cleared ← set P (λ chunk. Header.set_checksum net chunk 0) buf
      sum ← calc_checksum P.pkt_buf.buf cleared
      set P (λ chunk. Header.set_checksum net chunk (not_u16 sum)) cleared

    unfoldable pub prepend_header : P.Buffer → List ℕ → Outcome P.Buffer
    prepend_header buf header = do
      hlen ← Header.header_len header
      assert (leb ipv4_header_len hlen && leb hlen (P.chunk_headroom buf))
      moved ← P.move_back buf hlen
      bytes ← as_bytes header
      ippkt ← put_header P ipv4_header_len bytes moved
      len ← try_u16 (P.remaining ippkt)
      set P (λ chunk. Header.set_packet_len net chunk len) ippkt
