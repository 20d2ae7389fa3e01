-- ===== src/Base/Bits.antt =====
-- `&` and `|` on fields of a word, as arithmetic at every width.
mod Step
use Step.{bit_or_step, bit_and_step}
use Prim.Native.Nat.{ℕ, zero, suc, ◌+◌, ◌-◌, ◌*◌, ◌/◌, ◌%◌, ◌^◌, ◌<◌, bit_and, bit_or, min, max}
use mathlib.Core.Path.{◌≡◌, refl, ap, ◌∙◌}
use native.Mathlib.Nat.{pow-suc, one-le-pow, mul-one}
use mathlib.Core.WellFounded
use rpkt.Base.Order.{lt_wf}
use native.Mathlib.Omega.{arith}

mul-pow-suc : (q k : ℕ) → q * 2 ^ suc k ≡ 2 * (q * 2 ^ k)
mul-pow-suc q k = omega (arith, ap (λ (t : ℕ). q * t) (pow-suc 2 k))

-- Both operations work on the bits from `k` up and on the bits below `k` separately.
pub bit_and_split :
    (k q r p s : ℕ)
    → r < 2 ^ k
    → s < 2 ^ k
    → bit_and (q * 2 ^ k + r) (p * 2 ^ k + s) ≡ bit_and q p * 2 ^ k + bit_and r s
bit_and_split zero q r p s hr hs =
    let e : r ≡ 0 = omega arith in
    let f : s ≡ 0 = omega arith in rw (e, f) (ground (arith, mul-one q, mul-one p))
bit_and_split (suc k) q r p s hr hs = ground (
  arith,
  bit_and_step (q * 2 ^ suc k + r) (p * 2 ^ suc k + s),
  bit_and_step r s,
  mul-pow-suc q k,
  mul-pow-suc p k,
  mul-pow-suc (bit_and q p) k,
  pow-suc 2 k,
  bit_and_split k q (r / 2) p (s / 2) (omega (arith, pow-suc 2 k)) (omega (arith, pow-suc 2 k)),
)

pub bit_or_split :
    (k q r p s : ℕ)
    → r < 2 ^ k
    → s < 2 ^ k
    → bit_or (q * 2 ^ k + r) (p * 2 ^ k + s) ≡ bit_or q p * 2 ^ k + bit_or r s
bit_or_split zero q r p s hr hs =
    let e : r ≡ 0 = omega arith in
    let f : s ≡ 0 = omega arith in rw (e, f) (ground (arith, mul-one q, mul-one p))
bit_or_split (suc k) q r p s hr hs = ground (
  arith,
  bit_or_step (q * 2 ^ suc k + r) (p * 2 ^ suc k + s),
  bit_or_step r s,
  mul-pow-suc q k,
  mul-pow-suc p k,
  mul-pow-suc (bit_or q p) k,
  pow-suc 2 k,
  bit_or_split k q (r / 2) p (s / 2) (omega (arith, pow-suc 2 k)) (omega (arith, pow-suc 2 k)),
)

-- Induction that goes from the half of a number to the number.
halving : (P : ℕ → Type 0) → P 0 → ((n : ℕ) → P (suc n / 2) → P (suc n)) → (n : ℕ) → P n
halving P base more n = WellFounded.induction lt_wf {C = P} n λ k below. from k below
  where
    from : (k : ℕ) → ((m : ℕ) → m < k → P m) → P k
    from zero below = base
    from (suc k) below = more k (below (suc k / 2) (omega arith))

pub bit_and-zero : (n : ℕ) → bit_and n 0 ≡ 0
bit_and-zero =
    halving (λ n. bit_and n 0 ≡ 0) refl λ n half. omega (arith, half, bit_and_step (suc n) 0)

pub bit_or-zero : (n : ℕ) → bit_or n 0 ≡ n
bit_or-zero =
    halving (λ n. bit_or n 0 ≡ n) refl λ n half. omega (arith, half, bit_or_step (suc n) 0)

pub zero-bit_or : (n : ℕ) → bit_or 0 n ≡ n
zero-bit_or =
    halving (λ n. bit_or 0 n ≡ n) refl λ n half. omega (arith, half, bit_or_step 0 (suc n))

-- A number below `2 ^ k` passes the mask of `k` ones.
mask_keeps : (k r : ℕ) → r < 2 ^ k → bit_and r (2 ^ k - 1) ≡ r
mask_keeps zero r h = rw bit_and-zero (omega arith)
mask_keeps (suc k) r h = ground (
  arith,
  one-le-pow k 2,
  pow-suc 2 k,
  bit_and_step r (2 ^ suc k - 1),
  mask_keeps k (r / 2) (omega (arith, pow-suc 2 k)),
)

-- A mask of `k` low bits is the remainder by `2 ^ k`.
pub bit_and_mask : (k a : ℕ) → bit_and a (2 ^ k - 1) ≡ a % 2 ^ k
bit_and_mask k a = ground (
  arith,
  one-le-pow k 2,
  bit_and_split k (a / 2 ^ k) (a % 2 ^ k) 0 (2 ^ k - 1) (omega (arith, one-le-pow k 2))
      (omega (arith, one-le-pow k 2)),
  mask_keeps k (a % 2 ^ k) (omega (arith, one-le-pow k 2)),
  bit_and-zero (a / 2 ^ k),
)

pub pow-pos : (k : ℕ) → 0 < 2 ^ k
pow-pos k = one-le-pow k 2 (omega arith)

-- A mask of high bits, and the union of a high and a low part.
pub bit_and_high : (k m a : ℕ) → bit_and a (m * 2 ^ k) ≡ bit_and (a / 2 ^ k) m * 2 ^ k
bit_and_high k m a = ground (
  arith,
  pow-pos k,
  bit_and_split k (a / 2 ^ k) (a % 2 ^ k) m 0 (omega (arith, pow-pos k)) (pow-pos k),
  bit_and-zero (a % 2 ^ k),
)

pub bit_or_low : (k q r : ℕ) → r < 2 ^ k → bit_or (q * 2 ^ k) r ≡ q * 2 ^ k + r
bit_or_low k q r h =
    ground (arith, pow-pos k, bit_or_split k q 0 0 r (pow-pos k) h, bit_or-zero q, zero-bit_or r)

pub bit_or_high : (k q r : ℕ) → r < 2 ^ k → bit_or r (q * 2 ^ k) ≡ q * 2 ^ k + r
bit_or_high k q r h =
    ground (arith, pow-pos k, bit_or_split k 0 r q 0 h (pow-pos k), zero-bit_or q, bit_or-zero r)

-- One bit set, and all bits but some set.
pub bit_or_one : (a : ℕ) → bit_or a 1 ≡ a / 2 * 2 + 1
bit_or_one a = ground (arith, bit_or_step a 1, bit_or-zero (a / 2))

pub bit_or_bit : (k a : ℕ) → bit_or a (2 ^ k) ≡ (a / 2 ^ k / 2 * 2 + 1) * 2 ^ k + a % 2 ^ k
bit_or_bit k a = ground (
  arith,
  pow-pos k,
  bit_or_split k (a / 2 ^ k) (a % 2 ^ k) 1 0 (omega (arith, pow-pos k)) (pow-pos k),
  bit_or-zero (a % 2 ^ k),
  bit_or_one (a / 2 ^ k),
)

pub bit_and_keep :
    (k m a : ℕ) → bit_and a (m * 2 ^ k + (2 ^ k - 1)) ≡ bit_and (a / 2 ^ k) m * 2 ^ k + a % 2 ^ k
bit_and_keep k m a = ground (
  arith,
  pow-pos k,
  bit_and_split k (a / 2 ^ k) (a % 2 ^ k) m (2 ^ k - 1) (omega (arith, pow-pos k))
      (omega (arith, pow-pos k)),
  mask_keeps k (a % 2 ^ k) (omega (arith, pow-pos k)),
)

pub bit_and_bit : (k a : ℕ) → bit_and a (2 ^ k) ≡ a / 2 ^ k % 2 * 2 ^ k
bit_and_bit k a = ground (arith, bit_and_high k 1 a, bit_and_mask 1 (a / 2 ^ k))
