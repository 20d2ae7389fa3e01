-- ===== src/Ipv6/Options.antt =====
-- rpkt/src/ipv6/extentions/option.rs: the readers `Ipv6OptionIter` and `Ipv6OptionIterMut`, which do the
-- same, and the accessors of `Ipv6OptionGeneric`. The writer stands in the child `Writer`.
pub mod Reader
pub mod Writer
pub mod RoundTrip
pub mod Sequence
use rpkt.Base.{
  ℕ, ◌+◌, ltb, ◌==◌, ◌||◌, not, if◌then◌else◌, Bool, true, false, List, Option, none, some, Outcome,
  ok, ◌>>=◌, length,
}
use rpkt.Wire.{slice, slice_from, slice_to, byte_at, set_range}
use rpkt.OptionLoop

abbrev pub pad0_type : ℕ
pad0_type = 0

abbrev pub padn_type : ℕ
padn_type = 1

-- A `generic` holds the bytes of its `Ipv6OptionGeneric`.
pub data Ipv6Option : Type 0 where
  pad0 padn : Ipv6Option
  generic : List ℕ → Ipv6Option

pub record Ipv6OptionIter : Type 0 where
  pub buf : List ℕ
  pub valid : Bool

abbrev pub from_option_bytes : List ℕ → Ipv6OptionIter
from_option_bytes buf = record { buf = buf; valid = true }

abbrev Read : Type 0
Read = Outcome (Option Ipv6Option × Ipv6OptionIter)

-- `self.valid = false; None`
abbrev pub invalid : List ℕ → Read
invalid buf = ok (none, record { buf = buf; valid = false })

-- `self.buf = &self.buf[n..]; Some(opt)`
abbrev pub found : List ℕ → ℕ → Ipv6Option → Read
found buf n opt = slice_from buf n >>= λ rest. ok (some opt, from_option_bytes rest)

-- The inner `match opt_type`; `opt_len` is the length byte and two.
pub read_long : ℕ → List ℕ → ℕ → Read
read_long opt_type buf opt_len =
    if opt_type == padn_type
    then (if ltb (length buf) opt_len then invalid buf else found buf opt_len padn)
    else if ltb (length buf) opt_len
    then invalid buf
    else (slice_to buf opt_len >>= λ bytes. found buf opt_len (generic bytes))

-- The outer `match opt_type`, on a buffer that is not empty.
pub read_option : ℕ → List ℕ → Read
read_option opt_type buf =
    if opt_type == pad0_type
    then found buf 1 pad0
    else if ltb (length buf) 2
    then invalid buf
    else (byte_at buf 1 >>= λ data_len. read_long opt_type buf (data_len + 2))

pub next : Ipv6OptionIter → Read
next it =
    if not it.valid || (length it.buf == 0)
    then ok (none, it)
    else (byte_at it.buf 0 >>= λ opt_type. read_option opt_type it.buf)

-- `none` means that the fuel ran out.
abbrev pub check_option_bytes : ℕ → List ℕ → Outcome (Option Bool)
check_option_bytes fuel buf =
    OptionLoop.check_loop next (λ it. it.valid) (λ it. length it.buf) fuel (from_option_bytes buf)

pub option_type : List ℕ → Outcome ℕ
option_type buf = byte_at buf 0

pub option_data_len : List ℕ → Outcome ℕ
option_data_len buf = byte_at buf 1

pub option_data : List ℕ → Outcome (List ℕ)
option_data buf = option_data_len buf >>= λ len. slice buf 2 (len + 2)

-- `option_data_mut().copy_from_slice(src)`
pub set_option_data : List ℕ → List ℕ → Outcome (List ℕ)
set_option_data buf src = option_data_len buf >>= λ len. set_range buf 2 (len + 2) src
