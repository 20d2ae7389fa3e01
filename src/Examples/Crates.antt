-- ===== src/Examples/Crates.antt =====
-- Concrete functions for the crates byteorder and bytes.
use rpkt.Base.{
  ℕ, ◌+◌, ◌-◌, ◌≤◌, ◌>>=◌, ◌*◌, ◌/◌, ◌%◌, ◌^◌, ◌<◌, leb, le→leb, if◌then◌else◌, List, [], ◌∷◌, ◌≡◌,
  ◌≢◌, refl, arith,
}
use rpkt.Base.{Outcome, ok, panic, length, take, drop, take-append-drop}
use rpkt.Extern.{ByteOrder, Buf, IsBuf, Take}

abbrev read_u16 : List ℕ → Outcome ℕ
read_u16 (a ∷ b ∷ rest) = ok (a * 256 + b)
read_u16 _ = panic

abbrev read_u32 : List ℕ → Outcome ℕ
read_u32 (a ∷ b ∷ c ∷ d ∷ rest) = ok (((a * 256 + b) * 256 + c) * 256 + d)
read_u32 _ = panic

abbrev write_u16 : List ℕ → ℕ → Outcome (List ℕ)
write_u16 (a ∷ b ∷ rest) n = ok (n / 256 % 256 ∷ n % 256 ∷ rest)
write_u16 _ n = panic

abbrev write_u32 : List ℕ → ℕ → Outcome (List ℕ)
write_u32 (a ∷ b ∷ c ∷ d ∷ rest) n =
    ok (n / 2 ^ 24 % 256 ∷ n / 2 ^ 16 % 256 ∷ n / 256 % 256 ∷ n % 256 ∷ rest)
write_u32 _ n = panic

abbrev read_u24 : List ℕ → Outcome ℕ
read_u24 (a ∷ b ∷ c ∷ rest) = ok ((a * 256 + b) * 256 + c)
read_u24 _ = panic

abbrev write_u24 : List ℕ → ℕ → Outcome (List ℕ)
write_u24 (a ∷ b ∷ c ∷ rest) n = ok (n / 2 ^ 16 % 256 ∷ n / 256 % 256 ∷ n % 256 ∷ rest)
write_u24 _ n = panic

pub read_u16_short : (buf : List ℕ) → length buf < 2 → read_u16 buf ≡ panic
read_u16_short (a ∷ b ∷ rest) h = absurd (omega arith)
read_u16_short _ h = refl

pub read_u32_short : (buf : List ℕ) → length buf < 4 → read_u32 buf ≡ panic
read_u32_short (a ∷ b ∷ c ∷ d ∷ rest) h = absurd (omega arith)
read_u32_short _ h = refl

pub write_u16_short : (buf : List ℕ) (n : ℕ) → length buf < 2 → write_u16 buf n ≡ panic
write_u16_short (a ∷ b ∷ rest) n h = absurd (omega arith)
write_u16_short _ n h = refl

pub write_u32_short : (buf : List ℕ) (n : ℕ) → length buf < 4 → write_u32 buf n ≡ panic
write_u32_short (a ∷ b ∷ c ∷ d ∷ rest) n h = absurd (omega arith)
write_u32_short _ n h = refl

abbrev pub network_endian : ByteOrder
network_endian = record {
  read_u16 = read_u16;
  read_u32 = read_u32;
  read_u24 = read_u24;
  write_u24 = write_u24;
  write_u16 = write_u16;
  write_u32 = write_u32;
  read_u16_ok = λ a b rest. refl;
  read_u16_short = read_u16_short;
  read_u32_ok = λ a b c d rest. refl;
  read_u32_short = read_u32_short;
  read_u24_ok = λ a b c rest. refl;
  write_u24_ok = λ a b c n rest h. refl;
  write_u16_ok = λ a b n rest. refl;
  write_u16_short = write_u16_short;
  write_u32_ok = λ a b c d n rest. refl;
  write_u32_short = write_u32_short;
}

-- A buffer that comes in pieces of three bytes.
abbrev pub pieces : Buf
pieces = record {
  Buffer = List ℕ;
  remaining = length;
  chunk = take 3;
  advance = λ b cnt. if leb cnt (length b) then ok (drop cnt b) else panic;
}

pub take-three-ne-nil : (b : List ℕ) → b ≢ [] → take 3 b ≢ []
take-three-ne-nil [] ne e = ne e
take-three-ne-nil (x ∷ b) ne e = omega (arith, ap_length e)
  where
    ap_length : take 3 (x ∷ b) ≡ [] → length (take 3 (x ∷ b)) ≡ 0
    ap_length e = λ i. length (e i)

abbrev pub pieces-IsBuf : IsBuf pieces
pieces-IsBuf = record {
  IsSound = λ b. Unit;
  bytes = λ b. b;
  tail = λ b. drop 3 b;
  remaining_lem = λ b s. refl;
  chunk-append-tail = λ b s. take-append-drop 3 b;
  chunk-ne-nil = λ b s. take-three-ne-nil b;
  advance_ok = λ b cnt s h. (drop cnt b, rw (le→leb cnt (length b) h), tt, refl);
}

-- A buffer and a limit.
module _ (B : Buf) where
  abbrev pub smaller : ℕ → ℕ → ℕ
  smaller n m = if leb n m then n else m

  abbrev pub advance : B.Buffer × ℕ → ℕ → Outcome (B.Buffer × ℕ)
  advance (b, n) cnt = if leb cnt n then (B.advance b cnt >>= λ b'. ok (b', n - cnt)) else panic

  pub advance_ok :
      (t : B.Buffer × ℕ) (cnt : ℕ) (b' : B.Buffer)
      → cnt ≤ t.1
      → B.advance t.0 cnt ≡ ok b'
      → (t' : B.Buffer × ℕ) × (advance t cnt ≡ ok t') × (t'.0 ≡ b') × (t'.1 + cnt ≡ t.1)
  advance_ok (b, n) cnt b' h e = ((b', n - cnt), rw (le→leb cnt n h, e) refl, refl, omega arith)

  abbrev pub taker : Take B
  taker = record {
    buf = record {
      Buffer = B.Buffer × ℕ;
      remaining = λ t. smaller (B.remaining t.0) t.1;
      chunk = λ t. take t.1 (B.chunk t.0);
      advance = advance;
    };
    take_buf = λ b n. (b, n);
    into_inner = λ t. t.0;
    limit = λ t. t.1;
    into_inner-take_buf = λ b n. refl;
    limit-take_buf = λ b n. refl;
    remaining_lem = λ t. refl;
    chunk_lem = λ t. refl;
    advance_ok = advance_ok;
  }
