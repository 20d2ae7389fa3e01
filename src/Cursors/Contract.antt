-- ===== src/Cursors/Contract.antt =====
-- `CursorMut` as an implementation of `PktMut`.
use rpkt.Base.{ℕ, ◌+◌, ◌-◌, ◌≤◌, le→leb, lt→leb, List, ◌++◌, ◌≡◌, refl, arith}
use rpkt.Base.{Outcome, ok, length, take, drop, sym, ap, ◌∙◌, length-take, length-drop}
use rpkt.Base.{take_prefix, drop_prefix, take-all, length-append, ◌^◌}
use rpkt.Base.{drop-take, drop-append_le}
use rpkt.Wire.{splice}
use rpkt.Wire.Laws.{length-splice}
use rpkt.Traits.{PktMut, IsPktMut}
use rpkt.Cursors
use rpkt.Cursors.{Cursor, IsValid, raw_parts, cursor, chunk}
use rpkt.Cursors.Laws.{front, raw_parts-add, cursor_lem, length-chunk, length-front, cut}

-- The chunk moved by `n` bytes to the right border `e` of the chunk.
abbrev moved : Cursor → ℕ → ℕ → Cursor
moved c ptr len = record c { chunk_ptr = ptr; chunk_len = len }

-- What an operation gives back, in terms of the bytes before and after the position.
abbrev Gives : Outcome Cursor → List ℕ → List ℕ → Type 0
Gives o f b = (c' : Cursor) × (o ≡ ok c') × IsValid c' × (front c' ≡ f) × (chunk c' ≡ b)

module _ (c : Cursor) (cnt : ℕ) (v : IsValid c) where
  pub advance-Gives :
      cnt ≤ length (chunk c)
      → Gives (Cursors.advance c cnt) (front c ++ take cnt (chunk c)) (drop cnt (chunk c))
  unfolding Cursors.advance front chunk
  advance-Gives h =
      let h' : cnt ≤ c.chunk_len = omega (arith, length-chunk c v) in
      let (kept, left) = cut c.memory c.chunk_ptr cnt c.chunk_len h' v.end_in in
      let shift : c.chunk_ptr + cnt - c.start_addr ≡ c.chunk_ptr - c.start_addr + cnt =
        omega arith in
      let start : c.start_addr + (c.chunk_ptr - c.start_addr) ≡ c.chunk_ptr = omega arith in
      (
        moved c (c.chunk_ptr + cnt) (c.chunk_len - cnt),
        rw (le→leb cnt c.chunk_len h'),
        omega arith,
        rw (
          shift,
          raw_parts-add c.memory c.start_addr (c.chunk_ptr - c.start_addr) cnt,
          start,
          kept,
        ),
        sym left,
      )

  pub move_back-Gives :
      cnt ≤ length (front c)
      → Gives
          (Cursors.move_back c cnt)
          (take (length (front c) - cnt) (front c))
          (drop (length (front c) - cnt) (front c) ++ chunk c)
  unfolding Cursors.move_back front chunk
  move_back-Gives h =
      let gap : ℕ = c.chunk_ptr - c.start_addr in
      let len : length (front c) ≡ gap = length-front c v in
      let h' : cnt ≤ gap = omega arith in
      let at : cursor c ≡ gap = cursor_lem c v in
      let (kept, freed) = cut c.memory c.start_addr (gap - cnt) gap (omega arith) (omega arith) in
      let shift : c.chunk_ptr - cnt - c.start_addr ≡ gap - cnt = omega arith in
      let total : c.chunk_len + cnt ≡ cnt + c.chunk_len = omega arith in
      let back : c.chunk_ptr - cnt + cnt ≡ c.chunk_ptr = omega arith in
      let from : c.start_addr + (gap - cnt) ≡ c.chunk_ptr - cnt = omega arith in
      let all : gap - (gap - cnt) ≡ cnt = omega arith in
      (
        moved c (c.chunk_ptr - cnt) (c.chunk_len + cnt),
        rw (at, le→leb cnt gap h'),
        omega arith,
        rw (len, kept, shift),
        rw (
          len,
          freed,
          total,
          raw_parts-add c.memory (c.chunk_ptr - cnt) cnt c.chunk_len,
          back,
          from,
          all,
        ),
      )

  pub trim_off-Gives :
      cnt ≤ length (chunk c)
      → Gives (Cursors.trim_off c cnt) (front c) (take (length (chunk c) - cnt) (chunk c))
  unfolding Cursors.trim_off Cursors.remaining front chunk
  trim_off-Gives h =
      let len : length (raw_parts c.memory c.chunk_ptr c.chunk_len) ≡ c.chunk_len =
        length-chunk c v in
      let h' : cnt ≤ c.chunk_len = omega arith in
      let (kept, _) =
        cut c.memory c.chunk_ptr (c.chunk_len - cnt) c.chunk_len (omega arith) v.end_in in
      (
        moved c c.chunk_ptr (c.chunk_len - cnt),
        rw (le→leb cnt c.chunk_len h'),
        omega arith,
        refl,
        rw len (sym kept),
      )

pub put_chunk_gives :
    (c : Cursor) (bytes : List ℕ)
    → IsValid c
    → length bytes ≡ length (chunk c)
    → let c' = Cursors.put_chunk c bytes in IsValid c' × (front c' ≡ front c) × (chunk c' ≡ bytes)
unfolding Cursors.put_chunk front chunk raw_parts splice
put_chunk_gives c bytes v e =
    let len : length bytes ≡ c.chunk_len = e ∙ length-chunk c v in
    let same : length (splice c.memory c.chunk_ptr bytes) ≡ length c.memory =
      length-splice c.memory c.chunk_ptr bytes (omega arith) in
    let before : length (take c.chunk_ptr c.memory) ≡ c.chunk_ptr =
      omega (arith, length-take c.chunk_ptr c.memory) in
    let gap : ℕ = c.chunk_ptr - c.start_addr in
    let back : c.start_addr + gap ≡ c.chunk_ptr = omega arith in
    let behind : List ℕ = drop c.start_addr (take c.chunk_ptr c.memory) in
    let kept : behind ≡ take gap (drop c.start_addr c.memory) =
      ap (λ k. drop c.start_addr (take k c.memory)) (sym back)
      ∙ drop-take c.start_addr gap c.memory in
    (
      omega arith,
      rw
          (
            splice,
            drop-append_le c.start_addr (take c.chunk_ptr c.memory) _ (omega arith),
            take_prefix gap behind _
                (omega (arith, length-drop c.start_addr (take c.chunk_ptr c.memory))),
          )
          kept,
      rw (
        splice,
        drop_prefix c.chunk_ptr (take c.chunk_ptr c.memory) _ before,
        take_prefix c.chunk_len bytes _ len,
      ),
    )

abbrev pub cursor_mut : PktMut
cursor_mut = record {
  pkt_buf = record {
    buf = record {
      Buffer = Cursor;
      remaining = Cursors.remaining;
      chunk = chunk;
      advance = Cursors.advance;
    };
    move_back = Cursors.move_back;
    trim_off = Cursors.trim_off;
  };
  chunk_headroom = Cursors.chunk_headroom;
  put_chunk = Cursors.put_chunk;
}

-- `CursorMut` keeps the contract of the packet types' buffers, and its pointers stay inside the
-- allocation.
pub cursor_mut-IsPktMut : IsPktMut cursor_mut
unfolding Cursors.advance Cursors.move_back Cursors.trim_off Cursors.remaining
    Cursors.chunk_headroom
cursor_mut-IsPktMut = record {
  IsSound = IsValid;
  front = front;
  body = chunk;
  remaining_lem = λ c v. sym (length-chunk c v);
  chunk_lem = λ c v. refl;
  headroom_lem = λ c v. cursor_lem c v ∙ sym (length-front c v);
  advance_ok = λ c cnt v h. advance-Gives c cnt v h;
  advance_panic = λ c cnt v h. rw (lt→leb cnt c.chunk_len (omega (arith, length-chunk c v)));
  move_back_ok = λ c cnt v h. move_back-Gives c cnt v h;
  move_back_panic =
      λ c cnt v h. rw (lt→leb cnt (cursor c) (omega (arith, length-front c v, cursor_lem c v)));
  trim_off_ok = λ c cnt v h. trim_off-Gives c cnt v h;
  trim_off_panic = λ c cnt v h. rw (lt→leb cnt c.chunk_len (omega (arith, length-chunk c v)));
  put_chunk_ok = λ c bytes v e. put_chunk_gives c bytes v e;
}

-- The cursor over an allocation whose bytes from the length of `headroom` on are to be read.
abbrev pub behind : List ℕ → List ℕ → Cursor
behind headroom bytes = record {
  memory = headroom ++ bytes;
  chunk_ptr = length headroom;
  chunk_len = length bytes;
  start_addr = 0;
}

pub behind_holds :
    (headroom bytes : List ℕ)
    → length headroom + length bytes ≤ 2 ^ 63
    → cursor_mut-IsPktMut.IsSound (behind headroom bytes)
      × (cursor_mut-IsPktMut.front (behind headroom bytes) ≡ headroom)
      × (cursor_mut-IsPktMut.body (behind headroom bytes) ≡ bytes)
unfolding cursor_mut-IsPktMut front chunk raw_parts
behind_holds headroom bytes h = (
  omega (arith, length-append headroom bytes),
  take_prefix (length headroom - 0) headroom bytes (omega arith),
  rw (drop_prefix (length headroom) headroom bytes refl)
      (take-all (length bytes) bytes (omega arith)),
)
