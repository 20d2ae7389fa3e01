-- ===== src/Tcp/Packet.antt =====
-- rpkt/src/tcp/packet.rs: `TcpPacket` over any buffer.
use rpkt.Base.{
  ℕ, ltb, leb, ◌&&◌, ◌||◌, if◌then◌else◌, List, Outcome, ok, ◌>>=◌, ◌>>◌, assert, length, ◌⊎◌, inl,
  inr,
}
use rpkt.Extern.{ByteOrder, Buf}
use rpkt.Wire.{slice, set_range}
use rpkt.Traits.{PktMut}
use rpkt.Packet.{get, set, put_header}
use rpkt.Tcp.Header
use rpkt.Tcp.Header.{tcp_header_len, as_bytes}

module _ (net : ByteOrder) where
  module _ (B : Buf) where
    unfoldable pub header_len : B.Buffer → Outcome ℕ
    header_len buf = get B (Header.header_len net) buf

    -- `Ok` on the left.
    unfoldable pub parse : B.Buffer → Outcome (B.Buffer ⊎ B.Buffer)
    parse buf =
        if ltb (length (B.chunk buf)) tcp_header_len
        then ok (inr buf)
        else (header_len buf >>= λ hlen.
            if ltb hlen tcp_header_len || ltb (length (B.chunk buf)) hlen
            then ok (inr buf)
            else ok (inl buf))

    unfoldable pub option_bytes : B.Buffer → Outcome (List ℕ)
    option_bytes buf = header_len buf >>= λ hlen. slice (B.chunk buf) tcp_header_len hlen

    unfoldable pub payload : B.Buffer → Outcome B.Buffer
    payload buf = header_len buf >>= λ hlen. B.advance buf hlen

  module _ (P : PktMut) where
    -- `option_bytes_mut`: the option bytes are written in place.
    unfoldable pub set_option_bytes : P.Buffer → List ℕ → Outcome P.Buffer
    set_option_bytes buf bytes = header_len P.pkt_buf.buf buf >>= λ hlen.
        set P (λ chunk. set_range chunk tcp_header_len hlen bytes) buf

    unfoldable pub prepend_header : P.Buffer → List ℕ → Outcome P.Buffer
    prepend_header buf header = do
      hlen ← Header.header_len net header
      assert (leb tcp_header_len hlen && leb hlen (P.chunk_headroom buf))
      moved ← P.move_back buf hlen
      bytes ← as_bytes header
      put_header P tcp_header_len bytes moved
