-- ===== src/Ether/Header.antt =====
-- rpkt/src/ether/header.rs and `MacAddr` of rpkt/src/ether/mod.rs: an address is its six bytes, and
-- an `EtherType` its number.
use rpkt.Base.{
  ℕ, leb, if◌then◌else◌, not, ◌||◌, ◌==◌, ◌&&◌, Bool, true, false, bit_and, List, [], ◌∷◌, ◌++◌,
  replicate,
}
use rpkt.Base.{Outcome, ◌>>=◌, length, get_or, ◌⊎◌, inl, inr}
use rpkt.Extern.{ByteOrder}
use rpkt.Wire.{slice, set_range, copy_from_slice, field_u16, set_field_u16}

abbrev pub ether_header_len : ℕ
ether_header_len = 14

abbrev pub ether_header_template : List ℕ
ether_header_template = replicate 12 0 ++ (0x08 ∷ 0x00 ∷ [])

abbrev pub MacAddr : Type 0
MacAddr = List ℕ

-- `MacAddr::from_bytes`: six bytes, or a panic.
unfoldable pub from_bytes : List ℕ → Outcome MacAddr
from_bytes bytes = copy_from_slice (replicate 6 0) bytes

abbrev pub broadcast : MacAddr
broadcast = replicate 6 0xff

-- `==` of two addresses.
unfoldable pub same_bytes : List ℕ → List ℕ → Bool
same_bytes [] [] = true
same_bytes [] (y ∷ ys) = false
same_bytes (x ∷ xs) [] = false
same_bytes (x ∷ xs) (y ∷ ys) = (x == y) && same_bytes xs ys

unfoldable pub is_broadcast : MacAddr → Bool
is_broadcast addr = same_bytes addr broadcast

unfoldable pub is_multicast : MacAddr → Bool
is_multicast addr = not (bit_and (get_or addr 0 0) 0x01 == 0)

unfoldable pub is_local : MacAddr → Bool
is_local addr = not (bit_and (get_or addr 0 0) 0x02 == 0)

unfoldable pub is_unicast : MacAddr → Bool
is_unicast addr = not (is_broadcast addr || is_multicast addr)

unfoldable pub new : List ℕ → List ℕ ⊎ List ℕ
new buf = if leb ether_header_len (length buf) then inl buf else inr buf

unfoldable pub as_bytes : List ℕ → Outcome (List ℕ)
as_bytes buf = slice buf 0 ether_header_len

unfoldable pub to_owned : List ℕ → Outcome (List ℕ)
to_owned buf = as_bytes buf >>= copy_from_slice (replicate ether_header_len 0)

unfoldable pub dest_mac : List ℕ → Outcome MacAddr
dest_mac buf = slice buf 0 6 >>= from_bytes

unfoldable pub source_mac : List ℕ → Outcome MacAddr
source_mac buf = slice buf 6 12 >>= from_bytes

unfoldable pub set_dest_mac : List ℕ → MacAddr → Outcome (List ℕ)
set_dest_mac buf value = set_range buf 0 6 value

unfoldable pub set_source_mac : List ℕ → MacAddr → Outcome (List ℕ)
set_source_mac buf value = set_range buf 6 12 value

module _ (net : ByteOrder) where
  unfoldable pub ethertype : List ℕ → Outcome ℕ
  ethertype buf = field_u16 net 12 14 buf

  unfoldable pub set_ethertype : List ℕ → ℕ → Outcome (List ℕ)
  set_ethertype buf value = set_field_u16 net 12 14 buf value
