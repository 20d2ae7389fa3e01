-- ===== src/Ipv6/Packet.antt =====
-- rpkt/src/ipv6/packet.rs: `Ipv6Packet` over any buffer.
use rpkt.Base.{
  ℕ, ◌+◌, ltb, leb, if◌then◌else◌, List, Outcome, ok, ◌>>=◌, ◌>>◌, assert, length, ◌⊎◌, inl, inr,
}
use rpkt.Extern.{ByteOrder, Buf}
use rpkt.Traits.{PktBuf, PktMut}
use rpkt.Packet.{get, trim_and_advance, set, try_u16}
use rpkt.Packet.Fixed.{push_header}
use rpkt.Ipv6.Header
use rpkt.Ipv6.Header.{ipv6_header_len}

module _ (net : ByteOrder) where
  module _ (B : Buf) where
    unfoldable pub payload_len : B.Buffer → Outcome ℕ
    payload_len buf = get B (Header.payload_len net) buf

    -- `Ok` on the left.
    unfoldable pub parse : B.Buffer → Outcome (B.Buffer ⊎ B.Buffer)
    parse buf =
        if ltb (length (B.chunk buf)) ipv6_header_len
        then ok (inr buf)
        else (payload_len buf >>= λ len.
            if leb (ipv6_header_len + len) (B.remaining buf) then ok (inl buf) else ok (inr buf))

  module _ (P : PktBuf) where
    unfoldable pub payload : P.Buffer → Outcome P.Buffer
    payload buf = do
      len ← payload_len P.buf buf
      assert (leb (ipv6_header_len + len) (P.remaining buf))
      trim_and_advance P (ipv6_header_len + len) ipv6_header_len buf

  module _ (P : PktMut) where
    unfoldable pub prepend_header : P.Buffer → List ℕ → Outcome P.Buffer
    prepend_header buf header = do
      ippkt ← push_header P ipv6_header_len buf header
      len ← try_u16 (P.remaining buf)
      set P (λ chunk. Header.set_payload_len net chunk len) ippkt
