-- ===== src/Wire.antt =====
-- Slices as the sources use them (rpkt/src/macros.rs): an index or a range out of bounds panics, and
-- a write through a mutable range replaces those bytes of the buffer.
pub mod Laws
pub mod Fields
pub mod Fill
pub mod Word24
use rpkt.Base.{ℕ, zero, suc, ◌+◌, ◌-◌, leb, ltb, ◌==◌, ◌&&◌, if◌then◌else◌, List, [], ◌∷◌, ◌++◌}
use rpkt.Base.{Outcome, ok, panic, ◌>>=◌, length, take, drop, get_or}
use rpkt.Extern.{ByteOrder}

-- `&buf[left..right]`
pub slice : List ℕ → ℕ → ℕ → Outcome (List ℕ)
slice buf left right =
    if leb left right && leb right (length buf)
    then ok (take (right - left) (drop left buf))
    else panic

-- The buffer after the bytes from `left` on were overwritten by `bytes`.
unfoldable pub splice : List ℕ → ℕ → List ℕ → List ℕ
splice buf left bytes = take left buf ++ (bytes ++ drop (left + length bytes) buf)

-- `&buf[val]` and `buf[val] = value`
pub byte_at : List ℕ → ℕ → Outcome ℕ
byte_at buf val = if ltb val (length buf) then ok (get_or buf val 0) else panic

pub set_byte : List ℕ → ℕ → ℕ → Outcome (List ℕ)
set_byte buf val value = if ltb val (length buf) then ok (splice buf val (value ∷ [])) else panic

-- `dst.copy_from_slice(src)`: both have one length.
pub copy_from_slice : List ℕ → List ℕ → Outcome (List ℕ)
copy_from_slice dst src = if length dst == length src then ok src else panic

-- `(&mut buf[left..right]).copy_from_slice(src)`
pub set_range : List ℕ → ℕ → ℕ → List ℕ → Outcome (List ℕ)
set_range buf left right src = do
  dst ← slice buf left right
  new ← copy_from_slice dst src
  ok (splice buf left new)

module _ (net : ByteOrder) where
  -- `NetworkEndian::read_u16(&buf[left..right])`, and so on.
  pub field_u16 : ℕ → ℕ → List ℕ → Outcome ℕ
  field_u16 left right buf = do data_ ← slice buf left right; net.read_u16 data_

  pub set_field_u16 : ℕ → ℕ → List ℕ → ℕ → Outcome (List ℕ)
  set_field_u16 left right buf value = do
    data_ ← slice buf left right
    new ← net.write_u16 data_ value
    ok (splice buf left new)

  pub field_u32 : ℕ → ℕ → List ℕ → Outcome ℕ
  field_u32 left right buf = do data_ ← slice buf left right; net.read_u32 data_

  pub set_field_u32 : ℕ → ℕ → List ℕ → ℕ → Outcome (List ℕ)
  set_field_u32 left right buf value = do
    data_ ← slice buf left right
    new ← net.write_u32 data_ value
    ok (splice buf left new)

  pub field_u24 : ℕ → ℕ → List ℕ → Outcome ℕ
  field_u24 left right buf = do data_ ← slice buf left right; net.read_u24 data_

  pub set_field_u24 : ℕ → ℕ → List ℕ → ℕ → Outcome (List ℕ)
  set_field_u24 left right buf value = do
    data_ ← slice buf left right
    new ← net.write_u24 data_ value
    ok (splice buf left new)

-- `&buf[left..]` and `&buf[..right]`
unfoldable pub slice_from : List ℕ → ℕ → Outcome (List ℕ)
slice_from buf left = slice buf left (length buf)

pub slice_to : List ℕ → ℕ → Outcome (List ℕ)
slice_to buf right = slice buf 0 right
