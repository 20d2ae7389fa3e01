-- ===== src/Ipv4/Addr.antt =====
-- `Ipv4Addr` of rpkt/src/ipv4/mod.rs: an address is its four bytes.
use rpkt.Base.{ℕ, ◌==◌, ◌||◌, not, Bool, bit_and, List, [], ◌∷◌, replicate, get_or, take}
use rpkt.Ether.Header.{same_bytes}

abbrev pub unspecified : List ℕ
unspecified = replicate 4 0

abbrev pub broadcast_ip : List ℕ
broadcast_ip = replicate 4 0xff

abbrev pub multicast_all_systems : List ℕ
multicast_all_systems = 224 ∷ 0 ∷ 0 ∷ 1 ∷ []

abbrev pub multicast_all_routers : List ℕ
multicast_all_routers = 224 ∷ 0 ∷ 0 ∷ 2 ∷ []

unfoldable pub new : ℕ → ℕ → ℕ → ℕ → List ℕ
new a0 a1 a2 a3 = a0 ∷ a1 ∷ a2 ∷ a3 ∷ []

unfoldable pub is_broadcast : List ℕ → Bool
is_broadcast addr = same_bytes (take 4 addr) broadcast_ip

unfoldable pub is_multicast : List ℕ → Bool
is_multicast addr = bit_and (get_or addr 0 0) 0xf0 == 224

unfoldable pub is_unspecified : List ℕ → Bool
is_unspecified addr = get_or addr 0 0 == 0

unfoldable pub is_unicast : List ℕ → Bool
is_unicast addr = not (is_broadcast addr || (is_multicast addr || is_unspecified addr))

unfoldable pub is_link_local : List ℕ → Bool
is_link_local addr = same_bytes (take 2 addr) (169 ∷ 254 ∷ [])

unfoldable pub is_loopback : List ℕ → Bool
is_loopback addr = get_or addr 0 0 == 127
