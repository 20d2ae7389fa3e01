-- ===== src/Icmpv6/Ndp/Options.antt =====
-- rpkt/src/icmpv6/ndp/option.rs: the reader `NdpOptionIter`, and what it reads.
pub mod Reader
pub mod Fields
pub mod Writer
pub mod RoundTrip
use rpkt.Base.{
  ℕ, ◌*◌, ltb, ◌==◌, ◌||◌, not, if◌then◌else◌, Bool, true, false, List, Option, none, some, Outcome,
  ok, ◌>>=◌, length,
}
use rpkt.Wire.{slice_from, slice_to, byte_at}
use rpkt.OptionLoop

abbrev pub src_link_addr_type : ℕ
src_link_addr_type = 1

abbrev pub dst_link_addr_type : ℕ
dst_link_addr_type = 2

abbrev pub prefix_info_type : ℕ
prefix_info_type = 3

abbrev pub redirected_hdr_type : ℕ
redirected_hdr_type = 4

abbrev pub mtu_type : ℕ
mtu_type = 5

-- Each option holds its bytes.
pub data NdpOption : Type 0 where
  src_link_addr dst_link_addr prefix_info redirected_hdr mtu : List ℕ → NdpOption

pub record NdpOptionIter : Type 0 where
  pub buf : List ℕ
  pub valid : Bool

abbrev pub from_option_bytes : List ℕ → NdpOptionIter
from_option_bytes buf = record { buf = buf; valid = true }

abbrev pub Read : Type 0
Read = Outcome (Option NdpOption × NdpOptionIter)

-- `self.valid = false; None`
abbrev pub invalid : List ℕ → Read
invalid buf = ok (none, record { buf = buf; valid = false })

-- The first `opt_len` bytes are the option, unless they are refused: too short a buffer is.
pub take_option : List ℕ → ℕ → Bool → (List ℕ → NdpOption) → Read
take_option buf opt_len refused opt =
    if ltb (length buf) opt_len || refused then invalid buf else (do
      bytes ← slice_to buf opt_len
      rest ← slice_from buf opt_len
      ok (some (opt bytes), from_option_bytes rest))

-- `match opt_type`; `opt_len` is eight times the length byte.
pub read_option : ℕ → List ℕ → ℕ → Read
read_option opt_type buf opt_len =
    if opt_type == src_link_addr_type
    then take_option buf opt_len false src_link_addr
    else if opt_type == dst_link_addr_type
    then take_option buf opt_len false dst_link_addr
    else if opt_type == prefix_info_type
    then take_option buf opt_len (not (opt_len == 32)) prefix_info
    else if opt_type == redirected_hdr_type
    then take_option buf opt_len false redirected_hdr
    else if opt_type == mtu_type
    then take_option buf opt_len (not (opt_len == 8)) mtu
    else invalid buf

pub next : NdpOptionIter → Read
next it =
    if not it.valid || (length it.buf == 0)
    then ok (none, it)
    else if ltb (length it.buf) 2
    then invalid it.buf
    else (do
      opt_type ← byte_at it.buf 0
      opt_len ← byte_at it.buf 1
      read_option opt_type it.buf (opt_len * 8))

-- `none` means that the fuel ran out.
abbrev pub check_option_bytes : ℕ → List ℕ → Outcome (Option Bool)
check_option_bytes fuel buf =
    OptionLoop.check_loop next (λ it. it.valid) (λ it. length it.buf) fuel (from_option_bytes buf)
