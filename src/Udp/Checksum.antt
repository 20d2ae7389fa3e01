-- ===== src/Udp/Checksum.antt =====
-- The checksum of `UdpPacket`. A method that takes `&mut self` gives the buffer back with its result.
use rpkt.Base.{ℕ, ◌==◌, Bool, true}
use rpkt.Base.{List, Outcome, ok, ◌>>=◌, if◌then◌else◌}
use rpkt.Extern.{ByteOrder, Take}
use rpkt.Traits.{PktBuf, PktMut}
use rpkt.Packet.{get, set}
use rpkt.Packet.Checksum.{sum_over}
use rpkt.Checksum.Field.{nonzero}
use rpkt.Ipv4.Header.{not_u16}
use rpkt.Ipv4.Pseudo.{from_udp_pkt, combine_with}
use rpkt.Udp.Header
use rpkt.Udp.Packet.{packet_len}

module _ (net : ByteOrder) where
  module _ (P : PktBuf) (T : Take P.buf) where
    unfoldable pub calc_checksum : P.Buffer → Outcome (ℕ × P.Buffer)
    calc_checksum buf = packet_len net P.buf buf >>= λ total_len. sum_over net P T total_len buf

    unfoldable pub combined : List ℕ → List ℕ → P.Buffer → Outcome (ℕ × P.Buffer)
    combined src_addr dst_addr buf =
        combine_with net (from_udp_pkt net P.buf src_addr dst_addr buf) (calc_checksum buf)

    unfoldable pub verify_ipv4_checksum : List ℕ → List ℕ → P.Buffer → Outcome (Bool × P.Buffer)
    verify_ipv4_checksum src_addr dst_addr buf = do
      checksum ← get P.buf (Header.checksum net) buf
      if checksum == 0
          then ok (true, buf)
          else (combined src_addr dst_addr buf >>= λ cksum. ok (cksum.0 == 0xffff, cksum.1))

  module _ (P : PktMut) (T : Take P.pkt_buf.buf) where
    unfoldable pub adjust_ipv4_checksum : List ℕ → List ℕ → P.Buffer → Outcome P.Buffer
    adjust_ipv4_checksum src_addr dst_addr buf = do
      zeroed ← set P (λ chunk. Header.set_checksum net chunk 0) buf
      cksum ← combined P.pkt_buf T src_addr dst_addr zeroed
      set P (λ chunk. Header.set_checksum net chunk (nonzero (not_u16 cksum.0))) cksum.1
