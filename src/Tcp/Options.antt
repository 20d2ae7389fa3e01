-- ===== src/Tcp/Options.antt =====
-- rpkt/src/tcp/option.rs: the reader `TcpOptionIter`. A call of `next` returns the option and the
-- iterator after it. The writer stands in the child `Writer`.
pub mod Reader
pub mod RoundTrip
pub mod Wire
pub mod Writer
use rpkt.Base.{
  ℕ, zero, suc, ◌+◌, ◌-◌, ◌%◌, leb, ltb, ◌==◌, ◌&&◌, ◌||◌, not, if◌then◌else◌, Bool, true, false,
}
use rpkt.Base.{List, [], ◌∷◌, Option, none, some, Outcome, ok, panic, ◌>>=◌, length}
use rpkt.OptionLoop
use rpkt.Extern.{ByteOrder}
use rpkt.Wire.{slice, slice_from, slice_to, byte_at, field_u16, field_u32}

abbrev pub end_of_list : ℕ
end_of_list = 0

abbrev pub nop_kind : ℕ
nop_kind = 1

abbrev pub max_seg_size : ℕ
max_seg_size = 2

abbrev pub window_scale : ℕ
window_scale = 3

abbrev pub sack_permitted : ℕ
sack_permitted = 4

abbrev pub selective_ack : ℕ
selective_ack = 5

abbrev pub timestamps : ℕ
timestamps = 8

abbrev pub tcp_fastopen : ℕ
tcp_fastopen = 34

-- A `sack` holds the bytes of its `TcpOptionSack`.
pub data TcpOption : Type 0 where
  eol nop sack_perm : TcpOption
  mss wsopt : ℕ → TcpOption
  sack fo unknown : List ℕ → TcpOption
  ts : ℕ → ℕ → TcpOption

pub record TcpOptionIter : Type 0 where
  pub buf : List ℕ
  pub valid : Bool

abbrev pub from_option_bytes : List ℕ → TcpOptionIter
from_option_bytes buf = record { buf = buf; valid = true }

-- `self.valid = false; None`
abbrev pub invalid : List ℕ → Outcome (Option TcpOption × TcpOptionIter)
invalid buf = ok (none, record { buf = buf; valid = false })

-- `self.buf = &self.buf[n..]; Some(opt)`
abbrev pub found : List ℕ → ℕ → TcpOption → Outcome (Option TcpOption × TcpOptionIter)
found buf n opt = slice_from buf n >>= λ rest. ok (some opt, from_option_bytes rest)

-- `opt_len_valid` of a selective acknowledgement
abbrev pub sack_len_valid : ℕ → Bool
sack_len_valid len = leb 2 len && leb len 40 && ((len - 2) % 8 == 0)

module _ (net : ByteOrder) where
  -- The options that carry a length, which is the byte `opt_len`.
  pub read_mss : List ℕ → ℕ → Outcome (Option TcpOption × TcpOptionIter)
  read_mss buf opt_len =
      if not (opt_len == 4) || ltb (length buf) 4
      then invalid buf
      else (field_u16 net 2 4 buf >>= λ v. found buf 4 (mss v))

  pub read_wsopt : List ℕ → ℕ → Outcome (Option TcpOption × TcpOptionIter)
  read_wsopt buf opt_len =
      if not (opt_len == 3) || ltb (length buf) 3
      then invalid buf
      else (byte_at buf 2 >>= λ ws. found buf 3 (wsopt ws))

  pub read_sack_perm : List ℕ → ℕ → Outcome (Option TcpOption × TcpOptionIter)
  read_sack_perm buf opt_len =
      if not (opt_len == 2) || ltb (length buf) 2 then invalid buf else found buf 2 sack_perm

  pub read_sack : List ℕ → ℕ → Outcome (Option TcpOption × TcpOptionIter)
  read_sack buf opt_len =
      if not (sack_len_valid opt_len) || ltb (length buf) opt_len
      then invalid buf
      else (slice_to buf opt_len >>= λ bytes. found buf opt_len (sack bytes))

  pub read_ts : List ℕ → ℕ → Outcome (Option TcpOption × TcpOptionIter)
  read_ts buf opt_len =
      if not (opt_len == 10) || ltb (length buf) 10
      then invalid buf
      else (field_u32 net 2 6 buf >>= λ a. field_u32 net 6 10 buf >>= λ b. found buf 10 (ts a b))

  pub read_fo : List ℕ → ℕ → Outcome (Option TcpOption × TcpOptionIter)
  read_fo buf opt_len =
      if not (opt_len == 18) || ltb (length buf) 18
      then invalid buf
      else (slice buf 2 18 >>= λ cookie. found buf 18 (fo cookie))

  pub read_unknown : List ℕ → ℕ → Outcome (Option TcpOption × TcpOptionIter)
  read_unknown buf opt_len =
      if ltb (length buf) opt_len
      then invalid buf
      else (slice_to buf opt_len >>= λ bytes. found buf opt_len (unknown bytes))

  -- The inner `match opt_type`.
  pub read_long : ℕ → List ℕ → ℕ → Outcome (Option TcpOption × TcpOptionIter)
  read_long opt_type buf opt_len =
      if opt_type == max_seg_size
      then read_mss buf opt_len
      else if opt_type == window_scale
      then read_wsopt buf opt_len
      else if opt_type == sack_permitted
      then read_sack_perm buf opt_len
      else if opt_type == selective_ack
      then read_sack buf opt_len
      else if opt_type == timestamps
      then read_ts buf opt_len
      else if opt_type == tcp_fastopen
      then read_fo buf opt_len
      else read_unknown buf opt_len

  -- The outer `match opt_type`, on a buffer that is not empty.
  pub read_option : ℕ → List ℕ → Outcome (Option TcpOption × TcpOptionIter)
  read_option opt_type buf =
      if opt_type == end_of_list
      then (slice_from buf 1 >>= λ rest.
          ok (some eol, record { buf = rest; valid = not (ltb 0 (length rest)) }))
      else if opt_type == nop_kind
      then found buf 1 nop
      else if ltb (length buf) 2
      then invalid buf
      else (byte_at buf 1 >>= λ opt_len. read_long opt_type buf opt_len)

  pub next : TcpOptionIter → Outcome (Option TcpOption × TcpOptionIter)
  next it =
      if not it.valid || (length it.buf == 0)
      then ok (none, it)
      else (byte_at it.buf 0 >>= λ opt_type. read_option opt_type it.buf)

  -- `none` means that the fuel ran out.
  abbrev pub check_option_bytes : ℕ → List ℕ → Outcome (Option Bool)
  check_option_bytes fuel buf =
      OptionLoop.check_loop next (λ it. it.valid) (λ it. length it.buf) fuel (from_option_bytes buf)
