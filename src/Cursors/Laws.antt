-- ===== src/Cursors/Laws.antt =====
-- The unsafe pointer arithmetic of the cursors stays inside the allocation, and the cursors keep the
-- contract of `PktMut`.
use rpkt.Base.{ℕ, zero, suc, ◌+◌, ◌-◌, ◌≤◌, List, [], ◌∷◌, ◌++◌, ◌≡◌, arith}
use rpkt.Base.{length, take, drop, sym, ap, ◌∙◌, length-take, length-drop}
use native.Mathlib.Nat.{zero-add, suc-add}
use rpkt.Base.{take-nil, take_prefix, drop_prefix, drop-drop}
use rpkt.Cursors.{Cursor, IsValid, raw_parts, cursor, chunk}

take-add : (n m : ℕ) (xs : List ℕ) → take (n + m) xs ≡ take n xs ++ take m (drop n xs)
take-add zero m xs = rw zero-add
take-add (suc n) m [] = rw suc-add (sym (take-nil ℕ m))
take-add (suc n) m (x ∷ xs) = rw suc-add (ap (λ t. x ∷ t) (take-add n m xs))

pub raw_parts-add :
    (memory : List ℕ) (p n m : ℕ)
    → raw_parts memory p (n + m) ≡ raw_parts memory p n ++ raw_parts memory (p + n) m
unfolding raw_parts
raw_parts-add memory p n m = rw (take-add, drop-drop)

pub length-raw_parts :
    (memory : List ℕ) (p n : ℕ) → p + n ≤ length memory → length (raw_parts memory p n) ≡ n
unfolding raw_parts
length-raw_parts memory p n h = omega (arith, length-take n (drop p memory), length-drop p memory)

-- The bytes between the start and the chunk.
unfoldable pub front : Cursor → List ℕ
front c = raw_parts c.memory c.start_addr (c.chunk_ptr - c.start_addr)

pub cursor_lem : (c : Cursor) → IsValid c → cursor c ≡ c.chunk_ptr - c.start_addr
unfolding cursor
cursor_lem c v = omega arith

pub length-chunk : (c : Cursor) → IsValid c → length (chunk c) ≡ c.chunk_len
unfolding chunk
length-chunk c v = length-raw_parts c.memory c.chunk_ptr c.chunk_len v.end_in

pub length-front : (c : Cursor) → IsValid c → length (front c) ≡ c.chunk_ptr - c.start_addr
unfolding front
length-front c v = length-raw_parts c.memory c.start_addr (c.chunk_ptr - c.start_addr) (omega arith)

-- A part of the memory, cut in two.
pub cut :
    (memory : List ℕ) (p n m : ℕ)
    → n ≤ m
    → p + m ≤ length memory
    → (take n (raw_parts memory p m) ≡ raw_parts memory p n)
      × (drop n (raw_parts memory p m) ≡ raw_parts memory (p + n) (m - n))
cut memory p n m h k =
    let e : m ≡ n + (m - n) = omega arith in
    let split : raw_parts memory p m ≡ raw_parts memory p n ++ raw_parts memory (p + n) (m - n) =
      ap (raw_parts memory p) e ∙ raw_parts-add memory p n (m - n) in
    let len : length (raw_parts memory p n) ≡ n = length-raw_parts memory p n (omega arith) in
    (
      rw split (take_prefix n (raw_parts memory p n) _ len),
      rw split (drop_prefix n (raw_parts memory p n) _ len),
    )
