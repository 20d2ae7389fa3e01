-- ===== src/Cursors/Old.antt =====
-- rpkt/src/cursors_old.rs: `Cursor` (and `CursorMut`) as a slice with an index, in safe code.
pub mod Agrees
use rpkt.Base.{ℕ, ◌+◌, ◌-◌, ◌≤◌, leb, if◌then◌else◌, List, Outcome, ok, panic, length, take, drop}

pub record OldCursor : Type 0 where
  pub slice : List ℕ
  pub index : ℕ

pub new : List ℕ → OldCursor
new buf = record { slice = buf; index = 0 }

pub original_buf : OldCursor → List ℕ
original_buf o = o.slice

-- `&self.buf[self.cursor..]`
pub current_buf : OldCursor → Outcome (List ℕ)
current_buf o = if leb o.index (length o.slice) then ok (drop o.index o.slice) else panic

pub cursor : OldCursor → ℕ
cursor o = o.index

-- The index never passes the length (`Agrees`), so the difference does not underflow.
pub remaining : OldCursor → ℕ
remaining o = length o.slice - o.index

pub chunk : OldCursor → Outcome (List ℕ)
unfolding current_buf
chunk o = current_buf o

pub advance : OldCursor → ℕ → Outcome OldCursor
unfolding remaining
advance o cnt = if leb cnt (remaining o) then ok (record o { index = o.index + cnt }) else panic

pub move_back : OldCursor → ℕ → Outcome OldCursor
move_back o cnt = if leb cnt o.index then ok (record o { index = o.index - cnt }) else panic

pub trim_off : OldCursor → ℕ → Outcome OldCursor
unfolding remaining
trim_off o cnt =
    if leb cnt (remaining o)
    then ok (record o { slice = take (length o.slice - cnt) o.slice })
    else panic
