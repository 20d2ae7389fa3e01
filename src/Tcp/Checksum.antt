-- ===== src/Tcp/Checksum.antt =====
-- The checksum of `TcpPacket`. A method that takes `&mut self` gives the buffer back with its result.
use rpkt.Base.{ℕ, ◌==◌, Bool}
use rpkt.Base.{List, Outcome, ok, ◌>>=◌}
use rpkt.Extern.{ByteOrder, Take}
use rpkt.Traits.{PktBuf, PktMut}
use rpkt.Packet.{set}
use rpkt.Packet.Checksum.{sum_over}
use rpkt.Ipv4.Header.{not_u16}
use rpkt.Ipv4.Pseudo.{from_tcp_pkt, combine_with}
use rpkt.Tcp.Header

module _ (net : ByteOrder) where
  module _ (P : PktBuf) (T : Take P.buf) where
    unfoldable pub calc_checksum : P.Buffer → Outcome (ℕ × P.Buffer)
    calc_checksum buf = sum_over net P T (P.remaining buf) buf

    unfoldable pub combined : List ℕ → List ℕ → P.Buffer → Outcome (ℕ × P.Buffer)
    combined src_addr dst_addr buf =
        combine_with net (from_tcp_pkt net P.buf src_addr dst_addr buf) (calc_checksum buf)

    unfoldable pub verify_ipv4_checksum : List ℕ → List ℕ → P.Buffer → Outcome (Bool × P.Buffer)
    verify_ipv4_checksum src_addr dst_addr buf =
        combined src_addr dst_addr buf >>= λ cksum. ok (cksum.0 == 0xffff, cksum.1)

  module _ (P : PktMut) (T : Take P.pkt_buf.buf) where
    unfoldable pub adjust_ipv4_checksum : List ℕ → List ℕ → P.Buffer → Outcome P.Buffer
    adjust_ipv4_checksum src_addr dst_addr buf = do
      zeroed ← set P (λ chunk. Header.set_checksum net chunk 0) buf
      cksum ← combined P.pkt_buf T src_addr dst_addr zeroed
      set P (λ chunk. Header.set_checksum net chunk (not_u16 cksum.0)) cksum.1
