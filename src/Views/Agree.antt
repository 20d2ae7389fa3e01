-- ===== src/Views/Agree.antt =====
-- The packet types over `Cursor` and `CursorMut` against the same over any buffer.
use rpkt.Base.{
  ℕ, ◌+◌, leb, Bool, true, false, List, Outcome, ok, panic, ◌>>=◌, ◌>>◌, assert, ◌≡◌, refl, sym, ap,
  ◌∙◌, >>=_assoc, >>=_congr, arith,
}
use rpkt.Extern.{ByteOrder}
use rpkt.Wire.{slice, slice_to}
use rpkt.Packet.{trim_and_advance}
use rpkt.Cursors.{Cursor, IsValid, chunk}
use rpkt.Cursors.Contract.{cursor_mut}
use rpkt.Views.{split_cursor, sub_cursor, sub_cursor_from}
use rpkt.Views.Laws.{
  restart, sub_cursor_from-advance, sub_cursor-trim, split_cursor-sub_cursor,
  split_cursor-sub_cursor_from, split_options, halves, thirds, split_again,
}
use rpkt.Ether.Packet as EtherPacket
use rpkt.Ipv6.Frag as FragPacket
use rpkt.Udp.Packet as UdpPacket
use rpkt.Tcp.Packet as TcpPacket
use rpkt.Ipv4.Packet as Ipv4Packet
use rpkt.Ipv6.Packet as Ipv6Packet
use rpkt.Udp.Header.{udp_header_len}
use rpkt.Ether.Header.{ether_header_len}
use rpkt.Ipv6.Frag.{frag_header_len}
use rpkt.Ipv6.Header.{ipv6_header_len}
use rpkt.Ipv4.Header.{ipv4_header_len}
use rpkt.Tcp.Header.{tcp_header_len}
use rpkt.Views.Ether
use rpkt.Views.Frag
use rpkt.Views.Udp
use rpkt.Views.Tcp
use rpkt.Views.Ipv4
use rpkt.Views.Ipv6

-- The view is the payload over any buffer, without headroom.
abbrev IsPayload : Outcome Cursor → Outcome Cursor → Type 0
IsPayload view payload = view ≡ (payload >>= λ d. ok (restart d))

-- The halves are the views of the header and the payload, and likewise with the options between.
abbrev IsSplit : Outcome (List ℕ × Cursor) → Outcome (List ℕ) → Outcome Cursor → Type 0
IsSplit parts header payload = parts ≡ halves header payload

abbrev IsSplit3 :
    Outcome (List ℕ × List ℕ × Cursor)
    → Outcome (List ℕ)
    → Outcome (List ℕ)
    → Outcome Cursor
    → Type 0
IsSplit3 parts header options payload = parts ≡ thirds header options payload

-- All packet types.
abbrev pub Agrees : ByteOrder → Cursor → Type 0
Agrees net c =
    (IsPayload (Ether.cursor_payload c) (EtherPacket.payload cursor_mut.pkt_buf.buf c)
      × IsSplit (Ether.split c) (Ether.cursor_header c) (Ether.cursor_payload c))
    × (IsPayload (Frag.cursor_payload c) (FragPacket.payload cursor_mut.pkt_buf.buf c)
        × IsSplit (Frag.split c) (Frag.cursor_header c) (Frag.cursor_payload c))
    × (IsPayload (Udp.cursor_payload net c) (UdpPacket.payload net cursor_mut.pkt_buf c)
        × IsSplit (Udp.split net c) (Udp.cursor_header net c) (Udp.cursor_payload net c))
    × (IsPayload (Ipv6.cursor_payload net c) (Ipv6Packet.payload net cursor_mut.pkt_buf c)
        × IsSplit (Ipv6.split net c) (Ipv6.cursor_header net c) (Ipv6.cursor_payload net c))
    × (IsPayload (Tcp.cursor_payload net c) (TcpPacket.payload net cursor_mut.pkt_buf.buf c)
        × IsSplit3 (Tcp.split net c) (Tcp.cursor_header net c) (Tcp.cursor_options net c)
            (Tcp.cursor_payload net c)
        × (Tcp.cursor_options net c ≡ TcpPacket.option_bytes net cursor_mut.pkt_buf.buf c))
    × (IsPayload (Ipv4.cursor_payload net c) (Ipv4Packet.payload net cursor_mut.pkt_buf c)
        × IsSplit3 (Ipv4.split net c) (Ipv4.cursor_header net c) (Ipv4.cursor_options net c)
            (Ipv4.cursor_payload net c)
        × (Ipv4.cursor_options net c ≡ Ipv4Packet.option_bytes net cursor_mut.pkt_buf.buf c))

-- A length read first does not change what is behind a header.
read_later :
    {A B C : Type 0} (m : Outcome A) (header : Outcome B) (k : A → B → Outcome C)
    → (m >>= λ a. header >>= k a) ≡ (header >>= λ h. m >>= λ a. k a h)
read_later (ok a) header k = refl
read_later panic (ok h) k = refl
read_later panic panic k = refl

read_options :
    (m : Outcome ℕ) (header : Outcome (List ℕ)) (options : ℕ → Outcome (List ℕ))
    (payload : ℕ → Outcome Cursor)
    → (m >>= λ n. thirds header (options n) (payload n))
      ≡ thirds header (m >>= options) (m >>= payload)
read_options (ok n) header options payload = refl
read_options panic (ok h) options payload = refl
read_options panic panic options payload = refl

read_payload :
    (m : Outcome ℕ) (header options : Outcome (List ℕ)) (payload : ℕ → Outcome Cursor)
    → (m >>= λ n. thirds header options (payload n)) ≡ thirds header options (m >>= payload)
read_payload (ok n) header options payload = refl
read_payload panic (ok h) (ok o) payload = refl
read_payload panic (ok h) panic payload = refl
read_payload panic panic options payload = refl

assert_panics : (b : Bool) → panic ≡ (assert b >> panic >>= λ d. ok (restart d))
assert_panics true = refl
assert_panics false = refl

module _ (net : ByteOrder) (c : Cursor) (v : IsValid c) where
  udp_payload : IsPayload (Udp.cursor_payload net c) (UdpPacket.payload net cursor_mut.pkt_buf c)
  unfolding Udp.cursor_payload UdpPacket.payload
  udp_payload =
      let len : Outcome ℕ = UdpPacket.packet_len net cursor_mut.pkt_buf.buf c in
      >>=_congr len _ _ (λ n. sub_cursor-trim c v udp_header_len n) ∙ sym (>>=_assoc len _ _)

  udp_split : IsSplit (Udp.split net c) (Udp.cursor_header net c) (Udp.cursor_payload net c)
  unfolding Udp.split Udp.cursor_header Udp.cursor_payload
  udp_split =
      let len : Outcome ℕ = UdpPacket.packet_len net cursor_mut.pkt_buf.buf c in
      >>=_congr len _ _ (λ n. split_cursor-sub_cursor c v n udp_header_len)
      ∙ read_later len (slice_to (chunk c) udp_header_len) _
      ∙ >>=_congr (slice_to (chunk c) udp_header_len) _ _ (λ h. sym (>>=_assoc len _ _))

  ipv6_payload : IsPayload (Ipv6.cursor_payload net c) (Ipv6Packet.payload net cursor_mut.pkt_buf c)
  unfolding Ipv6.cursor_payload Ipv6Packet.payload
  ipv6_payload =
      let len : Outcome ℕ = Ipv6Packet.payload_len net cursor_mut.pkt_buf.buf c in
      >>=_congr len _ _ (λ n. sub_cursor-trim c v ipv6_header_len (ipv6_header_len + n))
      ∙ sym (>>=_assoc len _ _)

  ipv6_split : IsSplit (Ipv6.split net c) (Ipv6.cursor_header net c) (Ipv6.cursor_payload net c)
  unfolding Ipv6.split Ipv6.cursor_header Ipv6.cursor_payload
  ipv6_split =
      let len : Outcome ℕ = Ipv6Packet.payload_len net cursor_mut.pkt_buf.buf c in
      let same : (n : ℕ) → n + ipv6_header_len ≡ ipv6_header_len + n = λ n. omega arith in
      >>=_congr len _ _ (λ n.
        ap (λ m. slice_to (chunk c) m >>= λ bytes. split_cursor c bytes ipv6_header_len) (same n)
        ∙ split_cursor-sub_cursor c v (ipv6_header_len + n) ipv6_header_len)
      ∙ read_later len (slice_to (chunk c) ipv6_header_len) _
      ∙ >>=_congr (slice_to (chunk c) ipv6_header_len) _ _ (λ h. sym (>>=_assoc len _ _))

  ether_views :
      IsPayload (Ether.cursor_payload c) (EtherPacket.payload cursor_mut.pkt_buf.buf c)
      × IsSplit (Ether.split c) (Ether.cursor_header c) (Ether.cursor_payload c)
  unfolding Ether.cursor_payload EtherPacket.payload Ether.split Ether.cursor_header
  ether_views = (
    sub_cursor_from-advance c v ether_header_len,
    split_cursor-sub_cursor_from c v ether_header_len,
  )

  frag_views :
      IsPayload (Frag.cursor_payload c) (FragPacket.payload cursor_mut.pkt_buf.buf c)
      × IsSplit (Frag.split c) (Frag.cursor_header c) (Frag.cursor_payload c)
  unfolding Frag.cursor_payload FragPacket.payload Frag.split Frag.cursor_header
  frag_views = (
    sub_cursor_from-advance c v frag_header_len,
    split_cursor-sub_cursor_from c v frag_header_len,
  )

  tcp_payload :
      IsPayload (Tcp.cursor_payload net c) (TcpPacket.payload net cursor_mut.pkt_buf.buf c)
  unfolding Tcp.cursor_payload TcpPacket.payload
  tcp_payload =
      let hlen : Outcome ℕ = TcpPacket.header_len net cursor_mut.pkt_buf.buf c in
      >>=_congr hlen _ _ (λ n. sub_cursor_from-advance c v n) ∙ sym (>>=_assoc hlen _ _)

  tcp_split :
      IsSplit3
        (Tcp.split net c)
        (Tcp.cursor_header net c)
        (Tcp.cursor_options net c)
        (Tcp.cursor_payload net c)
  unfolding Tcp.split Tcp.cursor_header Tcp.cursor_options Tcp.cursor_payload
  tcp_split =
      let hlen : Outcome ℕ = TcpPacket.header_len net cursor_mut.pkt_buf.buf c in
      >>=_congr hlen _ _ (λ n.
        ap (split_again tcp_header_len) (split_cursor-sub_cursor_from c v n)
        ∙ split_options (chunk c) tcp_header_len n (sub_cursor_from c n))
      ∙ read_options hlen (slice_to (chunk c) tcp_header_len) (slice (chunk c) tcp_header_len)
          (sub_cursor_from c)

  trim_ipv4 :
      (hlen len : Outcome ℕ)
      → IsPayload (hlen >>= λ n. len >>= λ m. sub_cursor c n m) (
          len >>= λ m.
          assert (leb m (cursor_mut.remaining c))
          >> (hlen >>= λ n. trim_and_advance cursor_mut.pkt_buf m n c))
  trim_ipv4 (ok n) (ok m) = sub_cursor-trim c v n m
  trim_ipv4 (ok n) panic = refl
  trim_ipv4 panic (ok m) = assert_panics (leb m (cursor_mut.remaining c))
  trim_ipv4 panic panic = refl

  ipv4_payload : IsPayload (Ipv4.cursor_payload net c) (Ipv4Packet.payload net cursor_mut.pkt_buf c)
  unfolding Ipv4.cursor_payload Ipv4Packet.payload
  ipv4_payload =
      trim_ipv4 (Ipv4Packet.header_len net cursor_mut.pkt_buf.buf c)
        (Ipv4Packet.packet_len net cursor_mut.pkt_buf.buf c)

  ipv4_split :
      IsSplit3
        (Ipv4.split net c)
        (Ipv4.cursor_header net c)
        (Ipv4.cursor_options net c)
        (Ipv4.cursor_payload net c)
  unfolding Ipv4.split Ipv4.cursor_header Ipv4.cursor_options Ipv4.cursor_payload
  ipv4_split =
      let hlen : Outcome ℕ = Ipv4Packet.header_len net cursor_mut.pkt_buf.buf c in
      let len : Outcome ℕ = Ipv4Packet.packet_len net cursor_mut.pkt_buf.buf c in
      let header : Outcome (List ℕ) = slice_to (chunk c) ipv4_header_len in
      >>=_congr hlen _ _ (λ n.
        >>=_congr len _ _ (λ m.
          sym (>>=_assoc (slice_to (chunk c) m) _ _)
          ∙ ap (split_again ipv4_header_len) (split_cursor-sub_cursor c v m n)
          ∙ split_options (chunk c) ipv4_header_len n (sub_cursor c n m))
        ∙ read_payload len header (slice (chunk c) ipv4_header_len n) (sub_cursor c n))
      ∙ read_options hlen header (slice (chunk c) ipv4_header_len) (λ n. len >>= sub_cursor c n)

  -- For a cursor whose pointers lie in the allocation, and every packet type: `cursor_payload` is
  -- `payload` over any buffer, without headroom, and panics where it panics. `split` gives what
  -- `cursor_header`, `cursor_options` and `cursor_payload` give, and panics where one of them panics.
  -- `cursor_options` of TCP and IPv4 is `option_bytes`.
  pub cursor_payload-payload : Agrees net c
  unfolding Tcp.cursor_options Ipv4.cursor_options TcpPacket.option_bytes Ipv4Packet.option_bytes
  cursor_payload-payload = (
    ether_views,
    frag_views,
    (udp_payload, udp_split),
    (ipv6_payload, ipv6_split),
    (tcp_payload, tcp_split, refl),
    (ipv4_payload, ipv4_split, refl),
  )
