-- ===== src/Examples/Checksums.antt =====
-- Checksums of concrete bytes.
use rpkt.Base.{ℕ, List, [], ◌∷◌, ◌≡◌, arith, ok, take, drop}
use rpkt.Checksum.{from_slice, from_buf}
use rpkt.Checksum.Spec.{fold, word_sum}
use rpkt.Checksum.Slice.{from_slice-fold}
use rpkt.Checksum.Segments.{from_buf-from_slice}
use rpkt.Examples.Crates.{network_endian, pieces, pieces-IsBuf, taker}

abbrev seven_bytes : List ℕ
seven_bytes = 0x45 ∷ 0x00 ∷ 0xff ∷ 0xff ∷ 0x80 ∷ 0x11 ∷ 0x07 ∷ []

from_slice-fold_example : from_slice network_endian seven_bytes ≡ ok (fold (word_sum seven_bytes))
from_slice-fold_example = from_slice-fold network_endian seven_bytes (omega arith) (omega arith)

from_buf-from_slice_example :
    (checksum : ℕ) × (left : List ℕ) × (from_slice network_endian (take 6 seven_bytes)
      ≡ ok checksum)
    × (from_buf network_endian pieces (taker pieces) seven_bytes 6 ≡ ok (checksum, left))
    × Unit {0}
    × (left ≡ drop 6 seven_bytes)
from_buf-from_slice_example =
    from_buf-from_slice network_endian pieces (taker pieces) pieces-IsBuf seven_bytes 6 tt
      (omega arith) (omega arith)
