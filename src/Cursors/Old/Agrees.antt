-- ===== src/Cursors/Old/Agrees.antt =====
-- The pointer cursor of cursors.rs behaves as the index cursor that it replaces.
use rpkt.Base.{ℕ, ◌+◌, ◌-◌, ◌^◌, ◌≤◌, leb, le→leb, leb→le, Bool-cases, List, [], ◌∷◌, ◌≡◌, arith}
use rpkt.Base.{Outcome, ok, panic, ◌>>=◌, length, take, sym, ap, ◌∙◌, inl, inr}
use rpkt.Cursors
use rpkt.Cursors.{Cursor, IsValid, raw_parts}
use rpkt.Cursors.Laws.{cursor_lem, length-raw_parts, cut}
use rpkt.Cursors.Old
use rpkt.Cursors.Old.{OldCursor}

-- What a caller sees of the two: the slice they were made from, the position, and the chunk.
pub record Agrees (c : Cursor) (o : OldCursor) : Type 0 where
  pub valid : IsValid c
  pub same_buf : Cursors.buf c ≡ Old.original_buf o
  pub same_cursor : Cursors.cursor c ≡ Old.cursor o
  pub same_remaining : Cursors.remaining c ≡ Old.remaining o
  pub same_chunk : Old.chunk o ≡ ok (Cursors.chunk c)

-- Both calls panic, or both return cursors that agree.
abbrev pub Both : Outcome Cursor → Outcome OldCursor → Type 0
Both (ok c) (ok o) = Agrees c o
Both panic panic = Unit
Both (ok c) panic = ⊥
Both panic (ok o) = ⊥

pub data Op : Type 0 where
  advance move_back trim_off : ℕ → Op

pub step : Op → Cursor → Outcome Cursor
step (advance n) c = Cursors.advance c n
step (move_back n) c = Cursors.move_back c n
step (trim_off n) c = Cursors.trim_off c n

pub step_old : Op → OldCursor → Outcome OldCursor
step_old (advance n) o = Old.advance o n
step_old (move_back n) o = Old.move_back o n
step_old (trim_off n) o = Old.trim_off o n

pub run : List Op → Cursor → Outcome Cursor
run [] c = ok c
run (op ∷ ops) c = step op c >>= run ops

pub run_old : List Op → OldCursor → Outcome OldCursor
run_old [] o = ok o
run_old (op ∷ ops) o = step_old op o >>= run_old ops

-- The slice and the index alone decide the rest.
agrees :
    (c : Cursor) (o : OldCursor)
    → IsValid c
    → o.index ≡ c.chunk_ptr - c.start_addr
    → o.slice ≡ raw_parts c.memory c.start_addr (c.chunk_ptr - c.start_addr + c.chunk_len)
    → Agrees c o
unfolding Cursors.buf Cursors.remaining Cursors.chunk Old.original_buf Old.cursor Old.remaining
    Old.chunk
agrees c o v at sl =
    let gap : ℕ = c.chunk_ptr - c.start_addr in
    let len : length o.slice ≡ gap + c.chunk_len =
      ap length sl ∙ length-raw_parts c.memory c.start_addr (gap + c.chunk_len) (omega arith) in
    let (_, right) =
      cut c.memory c.start_addr gap (gap + c.chunk_len) (omega arith) (omega arith) in
    let back : c.start_addr + gap ≡ c.chunk_ptr = omega arith in
    let rest : gap + c.chunk_len - gap ≡ c.chunk_len = omega arith in
    record {
      valid = v;
      same_buf = rw (cursor_lem c v) (sym sl);
      same_cursor = cursor_lem c v ∙ sym at;
      same_remaining = omega arith;
      same_chunk = rw (le→leb o.index (length o.slice) (omega arith), at, sl, right, back, rest);
    }

-- Read backwards.
index_of : {c : Cursor} {o : OldCursor} → Agrees c o → o.index ≡ c.chunk_ptr - c.start_addr
unfolding Old.cursor
index_of {c} a = sym a.same_cursor ∙ cursor_lem c a.valid

slice_of :
    {c : Cursor} {o : OldCursor}
    → Agrees c o
    → o.slice ≡ raw_parts c.memory c.start_addr (c.chunk_ptr - c.start_addr + c.chunk_len)
unfolding Old.original_buf Cursors.buf
slice_of {c} a = sym a.same_buf ∙ rw (cursor_lem c a.valid)

length-slice :
    {c : Cursor} {o : OldCursor}
    → Agrees c o
    → length o.slice ≡ c.chunk_ptr - c.start_addr + c.chunk_len
length-slice {c} a =
    let v : IsValid c = a.valid in
    ap length (slice_of a)
    ∙ length-raw_parts c.memory c.start_addr (c.chunk_ptr - c.start_addr + c.chunk_len)
        (omega arith)

module _ (n : ℕ) (c : Cursor) (o : OldCursor) (a : Agrees c o) where
  left_of : length o.slice - o.index ≡ c.chunk_len
  left_of = omega (arith, length-slice a, index_of a)

  advance_agrees : Both (Cursors.advance c n) (Old.advance o n)
  unfolding Cursors.advance Old.advance
  advance_agrees = elim (Bool-cases (leb n c.chunk_len)) [
    | inl fits ↦
        let v : IsValid c = a.valid in
        let h : n ≤ c.chunk_len = leb→le n c.chunk_len fits in
        rw (left_of, fits)
          (agrees _ _ (omega arith) (omega (arith, index_of a))
            (slice_of a ∙ ap (raw_parts c.memory c.start_addr) (omega arith)))
    | inr far ↦ rw (left_of, far) tt
  ]

  move_back_agrees : Both (Cursors.move_back c n) (Old.move_back o n)
  unfolding Cursors.move_back Old.move_back Old.cursor
  move_back_agrees = elim (Bool-cases (leb n o.index)) [
    | inl fits ↦
        let v : IsValid c = a.valid in
        let h : n ≤ o.index = leb→le n o.index fits in
        let at : o.index ≡ c.chunk_ptr - c.start_addr = index_of a in
        rw (a.same_cursor, fits)
          (agrees _ _ (omega arith) (omega arith)
            (slice_of a ∙ ap (raw_parts c.memory c.start_addr) (omega arith)))
    | inr far ↦ rw (a.same_cursor, far) tt
  ]

  trim_off_agrees : Both (Cursors.trim_off c n) (Old.trim_off o n)
  unfolding Cursors.trim_off Cursors.remaining Old.trim_off
  trim_off_agrees = elim (Bool-cases (leb n c.chunk_len)) [
    | inl fits ↦
        let v : IsValid c = a.valid in
        let h : n ≤ c.chunk_len = leb→le n c.chunk_len fits in
        let gap : ℕ = c.chunk_ptr - c.start_addr in
        let (kept, _) =
          cut c.memory c.start_addr (gap + (c.chunk_len - n)) (gap + c.chunk_len) (omega arith)
            (omega arith) in
        let size : length o.slice - n ≡ gap + (c.chunk_len - n) = omega (arith, length-slice a) in
        rw (left_of, fits)
          (agrees _ _ (omega arith) (index_of a)
            (rw size (ap (take (gap + (c.chunk_len - n))) (slice_of a) ∙ kept)))
    | inr far ↦ rw (left_of, far) tt
  ]

step-Agrees : (op : Op) (c : Cursor) (o : OldCursor) → Agrees c o → Both (step op c) (step_old op o)
unfolding step step_old
step-Agrees (advance n) c o a = advance_agrees n c o a
step-Agrees (move_back n) c o a = move_back_agrees n c o a
step-Agrees (trim_off n) c o a = trim_off_agrees n c o a

Both-bind :
    (r : Outcome Cursor) (s : Outcome OldCursor) (f : Cursor → Outcome Cursor)
    (g : OldCursor → Outcome OldCursor)
    → Both r s
    → ((c : Cursor) (o : OldCursor) → Agrees c o → Both (f c) (g o))
    → Both (r >>= f) (s >>= g)
Both-bind (ok c) (ok o) f g b h = h c o b
Both-bind panic panic f g b h = tt
Both-bind (ok c) panic f g b h = absurd b
Both-bind panic (ok o) f g b h = absurd b

run-Both :
    (ops : List Op) (c : Cursor) (o : OldCursor) → Agrees c o → Both (run ops c) (run_old ops o)
unfolding run run_old
run-Both [] c o a = a
run-Both (op ∷ ops) c o a =
    Both-bind (step op c) (step_old op o) (run ops) (run_old ops) (step-Agrees op c o a)
      (run-Both ops)

-- For every sequence of calls on a new cursor over a slice, `Cursor` of cursors.rs and `Cursor` of
-- cursors_old.rs panic at the same calls, and otherwise show the same slice, position, number of
-- remaining bytes and chunk; the pointers then lie inside the allocation of at most 2 ^ 63 bytes.
pub run_agrees :
    (memory : List ℕ) (ptr len : ℕ)
    → ptr + len ≤ length memory
    → length memory ≤ 2 ^ 63
    → (ops : List Op)
    → Both (run ops (Cursors.new memory ptr len)) (run_old ops (Old.new (raw_parts memory ptr len)))
unfolding Cursors.new Old.new
run_agrees memory ptr len h k ops =
    run-Both ops _ _
      (agrees _ _ (omega arith) (omega arith) (ap (raw_parts memory ptr) (omega arith)))
