-- ===== src/Arp/Layout.antt =====
-- The layout of the ARP header on the wire.
use rpkt.Base.{ℕ, ◌≤◌, List, [], ◌∷◌, ◌++◌, ok, ◌>>=◌, ◌≡◌, arith, length, drop, length-append}
use rpkt.Extern.{ByteOrder}
use rpkt.Wire.Fields.{wire_u16}
use rpkt.Wire.Fill.{filled, set_field_u16_fills, set_byte_fills, set_range_fills}
use rpkt.Packet.Laws.{ok_then}
use rpkt.Arp.Header.{
  set_hardware_type, set_protocol_type, set_hardware_len, set_protocol_len, set_operation,
  set_sender_hardware_addr, set_sender_protocol_addr, set_target_hardware_addr,
  set_target_protocol_addr,
}

-- The first eight bytes.
abbrev pub fixed_part : ℕ → ℕ → ℕ → ℕ → ℕ → List ℕ
fixed_part hw proto hlen plen op =
    (((wire_u16 hw ++ wire_u16 proto) ++ (hlen ∷ [])) ++ (plen ∷ [])) ++ wire_u16 op

module _ (net : ByteOrder) (buf : List ℕ) (h : 28 ≤ length buf) where
  fixed_fills :
      (hw proto hlen plen op : ℕ)
      → (set_hardware_type net buf hw >>= λ a. set_protocol_type net a proto >>= λ b.
          set_hardware_len b hlen >>= λ c. set_protocol_len c plen >>= λ d. set_operation net d op)
        ≡ ok (filled (fixed_part hw proto hlen plen op) 8 buf)
  unfolding set_hardware_type set_protocol_type set_hardware_len set_protocol_len set_operation
  fixed_fills hw proto hlen plen op =
      ok_then _ (filled (wire_u16 hw) 2 buf)
        (set_field_u16_fills buf [] 0 (omega arith) net hw (omega arith))
        (ok_then _ (filled (wire_u16 hw ++ wire_u16 proto) 4 buf)
          (set_field_u16_fills buf (wire_u16 hw) 2 (omega arith) net proto (omega arith))
          (ok_then _ _
            (set_byte_fills buf (wire_u16 hw ++ wire_u16 proto) 4 (omega arith) hlen (omega arith))
            (ok_then _ _
              (set_byte_fills buf ((wire_u16 hw ++ wire_u16 proto) ++ (hlen ∷ [])) 5 (omega arith)
                plen (omega arith))
              (set_field_u16_fills buf
                (((wire_u16 hw ++ wire_u16 proto) ++ (hlen ∷ [])) ++ (plen ∷ [])) 6 (omega arith)
                net op (omega arith)))))

  addresses_fill :
      (front sha spa tha tpa : List ℕ)
      → length front ≡ 8
      → length sha ≡ 6
      → length spa ≡ 4
      → length tha ≡ 6
      → length tpa ≡ 4
      → (set_sender_hardware_addr (filled front 8 buf) sha >>= λ a.
          set_sender_protocol_addr a spa >>= λ b.
          set_target_hardware_addr b tha >>= λ c. set_target_protocol_addr c tpa)
        ≡ ok (filled ((((front ++ sha) ++ spa) ++ tha) ++ tpa) 28 buf)
  unfolding set_sender_hardware_addr set_sender_protocol_addr set_target_hardware_addr
      set_target_protocol_addr
  addresses_fill front sha spa tha tpa e e1 e2 e3 e4 =
      let l1 : length (front ++ sha) ≡ 14 = omega (arith, length-append front sha) in
      let l2 : length ((front ++ sha) ++ spa) ≡ 18 =
        omega (arith, length-append (front ++ sha) spa) in
      let l3 : length (((front ++ sha) ++ spa) ++ tha) ≡ 24 =
        omega (arith, length-append ((front ++ sha) ++ spa) tha) in
      ok_then _ _ (set_range_fills buf front 8 e 14 sha (omega arith) (omega arith)) (
        ok_then _ _ (set_range_fills buf (front ++ sha) 14 l1 18 spa (omega arith) (omega arith)) (
          ok_then _ _
            (set_range_fills buf ((front ++ sha) ++ spa) 18 l2 24 tha (omega arith) (omega arith))
            (set_range_fills buf (((front ++ sha) ++ spa) ++ tha) 24 l3 28 tpa (omega arith)
              (omega arith))))

  -- On a buffer of at least 28 bytes, and for addresses of six and of four bytes, the nine setters in
  -- the order of the fields return; the buffer is then the fields one after the other, big-endian,
  -- and from byte 28 on what it was.
  pub setters_fill :
      (hw proto hlen plen op : ℕ) (sha spa tha tpa : List ℕ)
      → length sha ≡ 6
      → length spa ≡ 4
      → length tha ≡ 6
      → length tpa ≡ 4
      → ((set_hardware_type net buf hw >>= λ a. set_protocol_type net a proto >>= λ b.
            set_hardware_len b hlen >>= λ c.
            set_protocol_len c plen >>= λ d. set_operation net d op)
          >>= λ e. set_sender_hardware_addr e sha >>= λ a. set_sender_protocol_addr a spa >>= λ b.
              set_target_hardware_addr b tha >>= λ c. set_target_protocol_addr c tpa)
        ≡ ok (((((fixed_part hw proto hlen plen op ++ sha) ++ spa) ++ tha) ++ tpa) ++ drop 28 buf)
  setters_fill hw proto hlen plen op sha spa tha tpa e1 e2 e3 e4 =
      ok_then _ _ (fixed_fills hw proto hlen plen op) (
        addresses_fill (fixed_part hw proto hlen plen op) sha spa tha tpa (omega arith) e1 e2 e3 e4)
