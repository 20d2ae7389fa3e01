-- ===== src/Ipv4/Options.antt =====
-- rpkt/src/ipv4/option.rs: the readers `Ipv4OptionIter` and `Ipv4OptionIterMut`. A call of `next` returns
-- the option and the iterator after it. The writer stands in the child `Writer`, the accessors of an
-- option in `Fields`.
pub mod Reader
pub mod Mutable
pub mod Fields
pub mod Writer
pub mod Wire
pub mod RoundTrip
pub mod Pointer
use rpkt.Base.{
  ℕ, ◌-◌, ◌%◌, leb, ltb, ◌==◌, ◌&&◌, ◌||◌, not, if◌then◌else◌, Bool, true, false, List, Option,
  none, some, Outcome, ok, ◌>>=◌, length,
}
use rpkt.Wire.{slice_from, slice_to, byte_at}
use rpkt.OptionLoop

abbrev pub end_of_list : ℕ
end_of_list = 0

abbrev pub nop_type : ℕ
nop_type = 1

abbrev pub timestamp : ℕ
timestamp = 68

abbrev pub record_route : ℕ
record_route = 7

-- `20 | 0x80`
abbrev pub route_alert : ℕ
route_alert = 148

-- The options that hold bytes hold those of their `Ipv4OptionTs`, `Ipv4OptionRr` or `Ipv4OptionRa`.
pub data Ipv4Option : Type 0 where
  eol nop : Ipv4Option
  ts rr ra unknown : List ℕ → Ipv4Option

pub record Ipv4OptionIter : Type 0 where
  pub buf : List ℕ
  pub valid : Bool

abbrev pub from_option_bytes : List ℕ → Ipv4OptionIter
from_option_bytes buf = record { buf = buf; valid = true }

abbrev Read : Type 0
Read = Outcome (Option Ipv4Option × Ipv4OptionIter)

-- `self.valid = false; None`
abbrev pub invalid : List ℕ → Read
invalid buf = ok (none, record { buf = buf; valid = false })

-- `self.buf = &self.buf[n..]; Some(opt)`
abbrev pub found : List ℕ → ℕ → Ipv4Option → Read
found buf n opt = slice_from buf n >>= λ rest. ok (some opt, from_option_bytes rest)

-- `opt_len_valid` and `pointer_valid` of a timestamp
abbrev pub ts_len_valid : ℕ → Bool
ts_len_valid len = leb 4 len && leb len 40 && (len % 4 == 0)

abbrev pub ts_pointer_valid : ℕ → Bool
ts_pointer_valid val = leb 5 val && leb val 41 && ((val - 5) % 4 == 0)

-- `opt_len_valid` and `pointer_valid` of a recorded route
abbrev pub rr_len_valid : ℕ → Bool
rr_len_valid len = leb 3 len && leb len 40 && ((len - 3) % 4 == 0)

abbrev pub rr_pointer_valid : ℕ → Bool
rr_pointer_valid val = leb 4 val && leb val 40 && (val % 4 == 0)

-- The options that carry a length, which is the byte `opt_len`.
pub read_ts : List ℕ → ℕ → Read
read_ts buf opt_len =
    if not (ts_len_valid opt_len) || ltb (length buf) opt_len
    then invalid buf
    else (byte_at buf 2 >>= λ pointer.
        if not (ts_pointer_valid pointer)
        then invalid buf
        else (slice_to buf opt_len >>= λ bytes. found buf opt_len (ts bytes)))

pub read_rr : List ℕ → ℕ → Read
read_rr buf opt_len =
    if not (rr_len_valid opt_len) || ltb (length buf) opt_len
    then invalid buf
    else (byte_at buf 2 >>= λ pointer.
        if not (rr_pointer_valid pointer)
        then invalid buf
        else (slice_to buf opt_len >>= λ bytes. found buf opt_len (rr bytes)))

pub read_ra : List ℕ → ℕ → Read
read_ra buf opt_len =
    if not (opt_len == 4) || ltb (length buf) 4
    then invalid buf
    else (slice_to buf 4 >>= λ bytes. found buf 4 (ra bytes))

pub read_unknown : List ℕ → ℕ → Read
read_unknown buf opt_len =
    if ltb (length buf) opt_len
    then invalid buf
    else (slice_to buf opt_len >>= λ bytes. found buf opt_len (unknown bytes))

-- `Ipv4OptionIterMut` splits an unknown option off at four bytes.
pub read_unknown_mut : List ℕ → ℕ → Read
read_unknown_mut buf opt_len =
    if ltb (length buf) opt_len
    then invalid buf
    else (slice_to buf 4 >>= λ bytes. found buf 4 (unknown bytes))

-- The two iterators differ in the reader of an unknown option only, which is the parameter.
module _ (read_other : List ℕ → ℕ → Read) where
  -- The inner `match opt_type`.
  pub read_long : ℕ → List ℕ → ℕ → Read
  read_long opt_type buf opt_len =
      if opt_type == timestamp
      then read_ts buf opt_len
      else if opt_type == record_route
      then read_rr buf opt_len
      else if opt_type == route_alert
      then read_ra buf opt_len
      else read_other buf opt_len

  -- The outer `match opt_type`, on a buffer that is not empty.
  pub read_option : ℕ → List ℕ → Read
  read_option opt_type buf =
      if opt_type == end_of_list
      then (slice_from buf 1 >>= λ rest.
          ok (some eol, record { buf = rest; valid = not (ltb 0 (length rest)) }))
      else if opt_type == nop_type
      then found buf 1 nop
      else if ltb (length buf) 2
      then invalid buf
      else (byte_at buf 1 >>= λ opt_len. read_long opt_type buf opt_len)

  pub next_with : Ipv4OptionIter → Read
  next_with it =
      if not it.valid || (length it.buf == 0)
      then ok (none, it)
      else (byte_at it.buf 0 >>= λ opt_type. read_option opt_type it.buf)

-- `Ipv4OptionIter::next` and `Ipv4OptionIterMut::next`
abbrev pub next : Ipv4OptionIter → Read
next = next_with read_unknown

abbrev pub next_mut : Ipv4OptionIter → Read
next_mut = next_with read_unknown_mut

-- `none` means that the fuel ran out.
abbrev pub check_option_bytes : ℕ → List ℕ → Outcome (Option Bool)
check_option_bytes fuel buf =
    OptionLoop.check_loop next (λ it. it.valid) (λ it. length it.buf) fuel (from_option_bytes buf)
