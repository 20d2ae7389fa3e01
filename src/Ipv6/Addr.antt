-- ===== src/Ipv6/Addr.antt =====
-- `Ipv6Addr` of rpkt/src/ipv6/mod.rs: an address is its sixteen bytes.
pub mod Laws
pub mod Display
pub mod Parse
pub mod Text
use rpkt.Base.{
  ℕ, zero, suc, ◌/◌, ◌%◌, ◌^◌, ◌==◌, ◌||◌, leb, not, Bool, if◌then◌else◌, Option, none, some,
}
use rpkt.Base.{
  List, [], ◌∷◌, ◌++◌, replicate, get_or, take, drop, length, Outcome, ok, panic, ◌>>=◌,
}
use rpkt.Base.{◌>>◌, assert}
use rpkt.Extern.{ByteOrder}
use rpkt.Wire.{slice_from, set_range}
use rpkt.Ether.Header.{same_bytes}
use rpkt.Ipv4.Header

abbrev pub unspecified : List ℕ
unspecified = replicate 16 0

abbrev pub link_local_all_nodes : List ℕ
link_local_all_nodes = 0xff ∷ 0x02 ∷ replicate 13 0 ++ (0x01 ∷ [])

abbrev pub link_local_all_routers : List ℕ
link_local_all_routers = 0xff ∷ 0x02 ∷ replicate 13 0 ++ (0x02 ∷ [])

abbrev pub loopback : List ℕ
loopback = replicate 15 0 ++ (0x01 ∷ [])

abbrev pub ipv4_mapped_prefix : List ℕ
ipv4_mapped_prefix = replicate 10 0 ++ (0xff ∷ 0xff ∷ 0 ∷ 0 ∷ 0 ∷ 0 ∷ [])

unfoldable pub new : ℕ → ℕ → ℕ → ℕ → ℕ → ℕ → ℕ → ℕ → List ℕ
new a0 a1 a2 a3 a4 a5 a6 a7 =
    a0 / 2 ^ 8 % 2 ^ 8
    ∷ a0 % 2 ^ 8
    ∷ a1 / 2 ^ 8 % 2 ^ 8
    ∷ a1 % 2 ^ 8
    ∷ a2 / 2 ^ 8 % 2 ^ 8
    ∷ a2 % 2 ^ 8
    ∷ a3 / 2 ^ 8 % 2 ^ 8
    ∷ a3 % 2 ^ 8
    ∷ a4 / 2 ^ 8 % 2 ^ 8
    ∷ a4 % 2 ^ 8
    ∷ a5 / 2 ^ 8 % 2 ^ 8
    ∷ a5 % 2 ^ 8
    ∷ a6 / 2 ^ 8 % 2 ^ 8
    ∷ a6 % 2 ^ 8
    ∷ a7 / 2 ^ 8 % 2 ^ 8
    ∷ a7 % 2 ^ 8
    ∷ []

unfoldable pub is_multicast : List ℕ → Bool
is_multicast addr = get_or addr 0 0 == 0xff

unfoldable pub is_unspecified : List ℕ → Bool
is_unspecified addr = same_bytes addr unspecified

unfoldable pub is_unicast : List ℕ → Bool
is_unicast addr = not (is_multicast addr || is_unspecified addr)

unfoldable pub is_link_local : List ℕ → Bool
is_link_local addr = same_bytes (take 8 addr) (0xfe ∷ 0x80 ∷ replicate 6 0)

unfoldable pub is_loopback : List ℕ → Bool
is_loopback addr = same_bytes addr loopback

unfoldable pub is_ipv4_mapped : List ℕ → Bool
is_ipv4_mapped addr = same_bytes (take 12 addr) (take 12 ipv4_mapped_prefix)

-- `&self.0[12..]` of the sixteen bytes.
unfoldable pub as_ipv4 : List ℕ → Outcome (Option (List ℕ))
as_ipv4 addr =
    if is_ipv4_mapped addr
    then (slice_from addr 12 >>= λ data_. Header.from_bytes data_ >>= λ ip. ok (some ip))
    else ok none

-- `From<Ipv4Addr>`
unfoldable pub from_ipv4 : List ℕ → Outcome (List ℕ)
from_ipv4 ip = set_range ipv4_mapped_prefix 12 16 ip

unfoldable pub solicited_node : List ℕ → Outcome (List ℕ)
solicited_node addr = do
  assert (is_unicast addr)
  ok (
      0xff ∷ 0x02 ∷ replicate 9 0
      ++ (0x01 ∷ 0xff ∷ get_or addr 13 0 ∷ get_or addr 14 0 ∷ get_or addr 15 0 ∷ []))

module _ (net : ByteOrder) where
  -- `for (word_idx, chunk) in bytes.chunks_mut(2).enumerate()`, for chunks of a zeroed array.
  unfoldable pub write_words : ℕ → List ℕ → Outcome (List ℕ)
  write_words zero data_ = ok []
  write_words (suc n) [] = panic
  write_words (suc n) (word ∷ data_) = do
    chunk ← net.write_u16 (0 ∷ 0 ∷ []) word
    rest ← write_words n data_
    ok (chunk ++ rest)

  unfoldable pub from_parts : List ℕ → Outcome (List ℕ)
  from_parts data_ = do assert (leb 8 (length data_)); write_words 8 data_

  -- `for (i, chunk) in self.0.chunks(2).enumerate()`, the words in their order.
  unfoldable pub read_words : List ℕ → Outcome (List ℕ)
  read_words (a ∷ b ∷ rest) = do
    word ← net.read_u16 (a ∷ b ∷ [])
    words ← read_words rest
    ok (word ∷ words)
  read_words (a ∷ []) = net.read_u16 (a ∷ []) >>= λ word. ok (word ∷ [])
  read_words [] = ok []

  -- The array that is written is behind the words as it was.
  unfoldable pub write_parts : List ℕ → List ℕ → Outcome (List ℕ)
  write_parts addr data_ = do
    assert (leb 8 (length data_))
    words ← read_words addr
    ok (words ++ drop 8 data_)
