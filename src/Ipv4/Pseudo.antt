-- ===== src/Ipv4/Pseudo.antt =====
-- `Ipv4PseudoHeader` of rpkt/src/ipv4/mod.rs.
use rpkt.Base.{ℕ, ◌+◌, ◌≤◌, List, [], ◌∷◌, ◌++◌, Outcome, ok, ◌>>=◌, ◌≡◌, ap, ◌∙◌, arith}
use rpkt.Base.{length, All, All-append, append-nil, length-append}
use rpkt.Extern.{ByteOrder, Buf, IsByte, IsU16}
use rpkt.Wire.{splice, set_field_u16}
use rpkt.Wire.Laws.{set_field_u16_ok}
use rpkt.Wire.Fields.{wire_u16}
use rpkt.Traits.{PktMut, IsPktMut}
use rpkt.Packet.{try_u16}
use rpkt.Packet.Laws
use rpkt.Packet.Laws.{Holds, ok_then, try_u16_ok}
use rpkt.Checksum.{from_slice, combine}
use rpkt.Checksum.Spec.{fold, word_sum}
use rpkt.Checksum.Slice.{from_slice-fold}
use rpkt.Checksum.Combine.{combine-checksums, combine_pair}
use rpkt.Udp.Packet
use rpkt.Udp.Laws.{stated_len, packet_len-Holds}

pub record Ipv4PseudoHeader : Type 0 where
  pub src_ip : List ℕ
  pub dst_ip : List ℕ
  pub proto_len : List ℕ

-- The number of `IpProtocol::UDP` and of `IpProtocol::TCP`.
abbrev pub udp_protocol : ℕ
udp_protocol = 17

abbrev pub tcp_protocol : ℕ
tcp_protocol = 6

-- Four bytes, of an address or of the protocol and the length.
abbrev pub IsWord : List ℕ → Type 0
IsWord bytes = (length bytes ≡ 4) × All IsByte bytes

-- The bytes of the pseudo-header.
abbrev pub pseudo : List ℕ → List ℕ → ℕ → ℕ → List ℕ
pseudo src_ip dst_ip protocol len = src_ip ++ (dst_ip ++ (0 ∷ protocol ∷ wire_u16 len))

module _ (net : ByteOrder) where
  module _ (B : Buf) where
    unfoldable pub from_udp_pkt : List ℕ → List ℕ → B.Buffer → Outcome Ipv4PseudoHeader
    from_udp_pkt src_ip dst_ip pkt = do
      len ← Packet.packet_len net B pkt
      proto_len ← set_field_u16 net 2 4 (0 ∷ udp_protocol ∷ 0 ∷ 0 ∷ []) len
      ok (record { src_ip = src_ip; dst_ip = dst_ip; proto_len = proto_len })

    unfoldable pub from_tcp_pkt : List ℕ → List ℕ → B.Buffer → Outcome Ipv4PseudoHeader
    from_tcp_pkt src_ip dst_ip pkt = do
      len ← try_u16 (B.remaining pkt)
      proto_len ← set_field_u16 net 2 4 (0 ∷ tcp_protocol ∷ 0 ∷ 0 ∷ []) len
      ok (record { src_ip = src_ip; dst_ip = dst_ip; proto_len = proto_len })

  unfoldable pub calc_checksum : Ipv4PseudoHeader → Outcome ℕ
  calc_checksum p = do
    a ← from_slice net p.src_ip
    b ← from_slice net p.dst_ip
    c ← from_slice net p.proto_len
    ok (combine (a ∷ b ∷ c ∷ []))

  -- `checksum_utils::combine(&[phdr.calc_checksum(), self.calc_checksum()])`, with the buffer behind
  -- the call.
  unfoldable pub combine_with :
      {A : Type 0} → Outcome Ipv4PseudoHeader → Outcome (ℕ × A) → Outcome (ℕ × A)
  combine_with phdr calc = do
    header_sum ← phdr >>= calc_checksum
    (packet_sum, buf) ← calc
    ok (combine (header_sum ∷ packet_sum ∷ []), buf)

  calc_checksum_ok :
      (src_ip dst_ip proto_len : List ℕ)
      → IsWord src_ip
      → IsWord dst_ip
      → IsWord proto_len
      → calc_checksum (record { src_ip = src_ip; dst_ip = dst_ip; proto_len = proto_len })
        ≡ from_slice net (src_ip ++ (dst_ip ++ proto_len))
  unfolding calc_checksum
  calc_checksum_ok s d p hs hd hp =
      let all : List ℕ = s ++ (d ++ p) in
      let size : length all ≡ 12 = omega (arith, length-append s (d ++ p), length-append d p) in
      rw
        (
          from_slice-fold net s hs.1 (omega arith),
          from_slice-fold net d hd.1 (omega arith),
          from_slice-fold net p hp.1 (omega arith),
          from_slice-fold net all
              (All-append IsByte s (d ++ p) hs.1 (All-append IsByte d p hd.1 hp.1)) (omega arith),
        )
        (ap ok (
          combine-checksums (s ∷ d ∷ p ∷ []) (omega arith) (omega arith)
          ∙ ap (λ z. fold (word_sum (s ++ (d ++ z)))) (append-nil p)))

  pub combine_with_ok :
      {A : Type 0} (phdr : Outcome Ipv4PseudoHeader) (calc : Outcome (ℕ × A))
      (src_ip dst_ip : List ℕ) (protocol len words : ℕ) (buf : A)
      → IsWord src_ip
      → IsWord dst_ip
      → IsByte protocol
      → (phdr >>= calc_checksum) ≡ from_slice net (pseudo src_ip dst_ip protocol len)
      → calc ≡ ok (fold words, buf)
      → combine_with phdr calc
        ≡ ok (fold (word_sum (pseudo src_ip dst_ip protocol len) + words), buf)
  unfolding combine_with
  combine_with_ok phdr calc s d protocol len words buf hs hd hp e e' =
      let rest : List ℕ = 0 ∷ protocol ∷ wire_u16 len in
      let bytes : List ℕ = pseudo s d protocol len in
      let size : length bytes ≡ 12 =
        omega (arith, length-append s (d ++ rest), length-append d rest) in
      let sum : from_slice net bytes ≡ ok (fold (word_sum bytes)) =
        from_slice-fold net bytes
          (All-append IsByte s (d ++ rest) hs.1 (All-append IsByte d rest hd.1 (omega arith)))
          (omega arith) in
      rw (e, sum, e') (ap (λ n. ok (n, buf)) (combine_pair (word_sum bytes) words))

module _ (net : ByteOrder) (P : PktMut) (L : IsPktMut P) (b : P.Buffer) (f y : List ℕ)
    (at : Holds P L b f y) (src_ip dst_ip : List ℕ) (hs : IsWord src_ip) (hd : IsWord dst_ip) where
  -- On a sound buffer with the bytes `y`, 8 or more, and for addresses of four bytes, the checksum of
  -- the pseudo-header of a UDP packet is that of one slice: the addresses, zero, the protocol 17, and
  -- the length that the header states, which is below 2 ^ 16.
  pub calc_checksum-from_udp_pkt :
      8 ≤ length y
      → IsU16 (stated_len y)
      → (from_udp_pkt net P.pkt_buf.buf src_ip dst_ip b >>= calc_checksum net)
        ≡ from_slice net (src_ip ++ (dst_ip ++ (0 ∷ 17 ∷ wire_u16 (stated_len y))))
  unfolding from_udp_pkt splice
  calc_checksum-from_udp_pkt h u =
      rw
        (
          packet_len-Holds net P L b f y at h,
          set_field_u16_ok net 2 (0 ∷ 17 ∷ 0 ∷ 0 ∷ []) (stated_len y) (omega arith),
        )
        (calc_checksum_ok net src_ip dst_ip (0 ∷ 17 ∷ wire_u16 (stated_len y)) hs hd (omega arith))

  -- On a sound buffer of fewer than 2 ^ 16 bytes, and for addresses of four bytes, the checksum of the
  -- pseudo-header of a TCP packet is that of one slice: the addresses, zero, the protocol 6, and the
  -- length of the buffer.
  pub calc_checksum-from_tcp_pkt :
      IsU16 (length y)
      → (from_tcp_pkt net P.pkt_buf.buf src_ip dst_ip b >>= calc_checksum net)
        ≡ from_slice net (src_ip ++ (dst_ip ++ (0 ∷ 6 ∷ wire_u16 (length y))))
  unfolding from_tcp_pkt splice
  calc_checksum-from_tcp_pkt u =
      rw
        (
          Laws.remaining-Holds P L b f y at,
          try_u16_ok (length y) u,
          set_field_u16_ok net 2 (0 ∷ 6 ∷ 0 ∷ 0 ∷ []) (length y) (omega arith),
        )
        (calc_checksum_ok net src_ip dst_ip (0 ∷ 6 ∷ wire_u16 (length y)) hs hd (omega arith))
