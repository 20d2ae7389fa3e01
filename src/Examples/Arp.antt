-- ===== src/Examples/Arp.antt =====
-- An ARP request written over the template.
use rpkt.Base.{ℕ, ◌>>=◌, List, [], ◌∷◌, ◌++◌, replicate, drop, ok, ◌≡◌, arith}
use rpkt.Arp.Header.{
  arp_header_template, set_hardware_type, set_protocol_type, set_hardware_len, set_protocol_len,
  set_operation, set_sender_hardware_addr, set_sender_protocol_addr, set_target_hardware_addr,
  set_target_protocol_addr,
}
use rpkt.Arp.Layout.{fixed_part, setters_fill}
use rpkt.Examples.Crates.{network_endian}

abbrev hardware_addr : List ℕ
hardware_addr = 0 ∷ 0x50 ∷ 0x56 ∷ 0xae ∷ 0x76 ∷ 0xf5 ∷ []

abbrev protocol_addr : List ℕ
protocol_addr = 192 ∷ 168 ∷ 29 ∷ 58 ∷ []

setters_fill_example :
    ((set_hardware_type network_endian arp_header_template 1 >>= λ a.
    set_protocol_type network_endian a 0x0800 >>= λ b.
    set_hardware_len b 6 >>= λ c. set_protocol_len c 4 >>= λ d. set_operation network_endian d 1)
      >>= λ e. set_sender_hardware_addr e hardware_addr >>= λ a.
          set_sender_protocol_addr a protocol_addr >>= λ b.
          set_target_hardware_addr b (replicate 6 0) >>= λ c.
          set_target_protocol_addr c protocol_addr)
    ≡ ok (
        ((((fixed_part 1 0x0800 6 4 1 ++ hardware_addr) ++ protocol_addr) ++ replicate 6 0)
          ++ protocol_addr)
        ++ drop 28 arp_header_template)
setters_fill_example =
    setters_fill network_endian arp_header_template (omega arith) 1 0x0800 6 4 1 hardware_addr
      protocol_addr (replicate 6 0) protocol_addr (omega arith) (omega arith) (omega arith)
      (omega arith)
