-- ===== src/Stack.antt =====
-- The packet types on top of each other, as the tests of rpkt/src/udp/packet.rs use them: each layer's
-- buffer is the payload of the layer below.
use rpkt.Base.{
  ℕ, ◌+◌, ◌-◌, ◌≤◌, ◌<◌, ◌^◌, List, ◌++◌, Outcome, ok, panic, ◌>>=◌, ◌≡◌, refl, arith, ◌∙◌, ap,
  length, take, drop, ◌⊎◌, inl, inr,
}
use rpkt.Base.{length-append, length-take, length-drop, drop_prefix}
use rpkt.Extern.{ByteOrder}
use rpkt.Traits.{PktMut, IsPktMut}
use rpkt.Packet.Laws.{Holds, ok_then}
use rpkt.Udp.Packet as UdpPacket
use rpkt.Udp.Laws as UdpLaws
use rpkt.Udp.Laws.{datagram, HasDatagram, datagram-HasDatagram, drop-take-datagram, length-datagram}
use rpkt.Ipv4.Packet as Ipv4Packet
use rpkt.Ipv4.Laws as Ipv4Laws
use rpkt.Ipv4.Laws.{
  packet, HasPacket, stated_header_len, packet-HasPacket, drop-take-packet, length-packet,
}
use rpkt.Ipv4.Exchange as Ipv4Exchange
use rpkt.Ether.Packet as EtherPacket
use rpkt.Ether.Laws as EtherLaws

-- `Result::unwrap`
abbrev pub unwrap {ℓ} : {A E : Type ℓ} → A ⊎ E → Outcome A
unwrap (inl a) = ok a
unwrap (inr e) = panic

module _ (net : ByteOrder) (P : PktMut) where
  abbrev pub send : P.Buffer → List ℕ → List ℕ → List ℕ → Outcome P.Buffer
  send buf ether ipv4 udp = do
    udppkt ← UdpPacket.prepend_header net P buf udp
    ippkt ← Ipv4Packet.prepend_header net P udppkt ipv4
    EtherPacket.prepend_header P ippkt ether

  abbrev pub receive : P.Buffer → Outcome P.Buffer
  receive buf = do
    ethpkt ← EtherPacket.parse P.pkt_buf.buf buf >>= unwrap
    ipbuf ← EtherPacket.payload P.pkt_buf.buf ethpkt
    ippkt ← Ipv4Packet.parse net P.pkt_buf.buf ipbuf >>= unwrap
    udpbuf ← Ipv4Packet.payload net P.pkt_buf ippkt
    udppkt ← UdpPacket.parse net P.pkt_buf.buf udpbuf >>= unwrap
    UdpPacket.payload net P.pkt_buf udppkt

  module _ (L : IsPktMut P) where
    -- A frame whose layers hold each other is taken apart down to its message.
    receive-Gives :
        (b : P.Buffer) (f ether ipv4 options udp y : List ℕ)
        → let d = datagram udp y in
          Holds P L b f (ether ++ packet ipv4 (options ++ d))
          → length ether ≡ 14
          → 20 ≤ length ipv4
          → 8 ≤ length udp
          → stated_header_len ipv4 ≡ 20 + length options
          → 20 + length options + (8 + length y) < 2 ^ 16
          → (q : P.Buffer) × (receive b ≡ ok q) × L.IsSound q × (L.body q ≡ y)
    receive-Gives b f ether ipv4 options udp y at he hi hu ho k =
        let d : List ℕ = datagram udp y in
        let size : length d ≡ 8 + length y = length-datagram udp y hu in
        let z : List ℕ = options ++ d in
        let total : length z ≡ length options + (8 + length y) =
          omega (arith, length-append options d) in
        let ip : List ℕ = packet ipv4 z in
        let big : 14 ≤ length (ether ++ ip) = omega (arith, length-append ether ip) in
        let valid_ip : HasPacket ip =
          packet-HasPacket ipv4 z hi (omega arith) (omega arith) (omega arith) in
        let valid_udp : HasDatagram d = datagram-HasDatagram udp y hu (omega arith) in
        let (b1, e1, (s1, f1, y1)) = EtherLaws.payload-Gives P L b f _ at big in
        let at1 : Holds P L b1 (L.front b1) ip = (s1, refl, y1 ∙ drop_prefix 14 ether ip he) in
        let (b2, e2, (s2, f2, y2)) = Ipv4Laws.payload-Gives net P L b1 _ ip at1 valid_ip in
        let at2 : Holds P L b2 (L.front b2) d =
          (s2, refl, y2 ∙ drop-take-packet ipv4 options d hi ho (omega arith)) in
        let (b3, e3, (s3, f3, y3)) = UdpLaws.payload-Gives net P L b2 _ d at2 valid_udp in
        (
          b3,
          ok_then _ b (ap (λ o. o >>= unwrap) (EtherLaws.parse-accepts P L b f _ at big)) (
              ok_then _ b1 e1 (
                ok_then _ b1
                  (ap (λ o. o >>= unwrap) (Ipv4Laws.parse-accepts net P L b1 _ ip at1 valid_ip))
                  (ok_then _ b2 e2 (
                    ok_then _ b2
                      (ap (λ o. o >>= unwrap) (UdpLaws.parse-accepts net P L b2 _ d at2 valid_udp))
                      e3)))),
          s3,
          y3 ∙ drop-take-datagram udp y hu (omega arith),
        )

    -- On a sound buffer with the message `y` behind a headroom that has room for the three headers,
    -- where the header length in the IPv4 header is at least 20 and the packet is shorter than 2 ^ 16
    -- bytes: prepending the UDP, the IPv4 and the Ethernet header returns a packet, and parsing it
    -- layer by layer accepts each layer and ends with a buffer that holds exactly `y`.
    pub receive-send :
        (b : P.Buffer) (f y ether ipv4 udp : List ℕ)
        → let hlen = stated_header_len ipv4 in
          Holds P L b f y
          → 14 ≤ length ether
          → 20 ≤ length ipv4
          → 8 ≤ length udp
          → 20 ≤ hlen
          → hlen + 22 ≤ length f
          → hlen + 8 + length y < 2 ^ 16
          → (p : P.Buffer) × (send b ether ipv4 udp ≡ ok p)
            × L.IsSound p
            × ((q : P.Buffer) × (receive p ≡ ok q) × L.IsSound q × (L.body q ≡ y))
    receive-send b f y ether ipv4 udp at he hi hu lo room k =
        let hlen : ℕ = stated_header_len ipv4 in
        let d : List ℕ = datagram udp y in
        let size : length d ≡ 8 + length y = length-datagram udp y hu in
        let g : List ℕ = take (length f - 8) f in
        let left : length g ≡ length f - 8 = omega (arith, length-take (length f - 8) f) in
        let options : List ℕ = drop 20 (drop (length g - hlen) g) in
        let (b1, e1, at1) =
          UdpLaws.prepend_header-Gives net P L b f y at udp hu (omega arith) (omega arith) in
        let (b2, e2, at2) =
          Ipv4Exchange.prepend_header-Gives net P L b1 g d at1 ipv4 hi lo (omega arith)
            (omega arith) in
        let (b3, e3, at3) =
          EtherLaws.prepend_header-Gives P L b2 _ (packet ipv4 (options ++ d)) at2 ether he
            (omega (arith, length-take (length g - hlen) g)) in
        (
          b3,
          ok_then _ b1 e1 (ok_then _ b2 e2 e3),
          at3.0,
          receive-Gives b3 _ (take 14 ether) ipv4 options udp y at3
              (omega (arith, length-take 14 ether)) hi hu
              (omega
                (arith, length-drop 20 (drop (length g - hlen) g), length-drop (length g - hlen) g))
              (omega (
                arith,
                length-drop 20 (drop (length g - hlen) g),
                length-drop (length g - hlen) g,
              )),
        )
