-- ===== src/Ipv4/Fields.antt =====
-- The fields of the IPv4 header that share bytes: each setter writes its own bits and keeps the
-- others.
use rpkt.Base.{ℕ, ◌+◌, ◌*◌, ◌/◌, ◌%◌, ◌≤◌, ◌<◌, le→leb, lt→ltb, eq→==, true}
use rpkt.Base.{List, [], ◌∷◌, ok, ◌>>=◌, length, get_or, ◌≡◌, ◌≢◌, arith, ◌∙◌, ap}
use rpkt.Base.Bits.{bit_and_mask}
use rpkt.Wire.{splice, byte_at}
use rpkt.Wire.Laws.{byte_at_ok, set_byte_ok, length-splice, get_or-splice}
use rpkt.Ipv4.Header.{
  check_version, header_len, dscp, ecn, adjust_version, set_header_len, set_dscp, set_ecn,
}
use rpkt.Ipv4.Masks.{new_version, new_ihl, new_dscp, new_ecn}

-- The header lengths that `set_header_len` accepts.
abbrev pub IsHeaderLen : ℕ → Type 0
IsHeaderLen v = (20 ≤ v) × (v ≤ 60) × (v % 4 ≡ 0)

module _ (buf : List ℕ) (h : 20 ≤ length buf) where
  adjust_version_ok : adjust_version buf ≡ ok (splice buf 0 ((64 + get_or buf 0 0 % 16) ∷ []))
  unfolding adjust_version
  adjust_version_ok =
      rw (byte_at_ok buf 0 (omega arith), new_version (get_or buf 0 0))
        (set_byte_ok buf 0 _ (omega arith))

  set_header_len_ok :
      (v : ℕ)
      → IsHeaderLen v
      → set_header_len buf v ≡ ok (splice buf 0 ((get_or buf 0 0 / 16 % 16 * 16 + v / 4) ∷ []))
  unfolding set_header_len
  set_header_len_ok v (lo, hi, even) =
      let e : v / 4 % 16 ≡ v / 4 = omega arith in
      rw
        (
          le→leb 20 v lo,
          le→leb v 60 hi,
          bit_and_mask 2 v,
          eq→== (v % 4) 0 even,
          byte_at_ok buf 0 (omega arith),
          new_ihl (get_or buf 0 0) (v / 4),
          e,
        )
        (set_byte_ok buf 0 _ (omega arith))

  set_dscp_ok :
      (v : ℕ) → v < 64 → set_dscp buf v ≡ ok (splice buf 1 ((v * 4 + get_or buf 1 0 % 4) ∷ []))
  unfolding set_dscp
  set_dscp_ok v k =
      rw (lt→ltb v 64 k, byte_at_ok buf 1 (omega arith), new_dscp (get_or buf 1 0) v k)
        (set_byte_ok buf 1 _ (omega arith))

  set_ecn_ok :
      (v : ℕ) → v < 4 → set_ecn buf v ≡ ok (splice buf 1 ((get_or buf 1 0 / 4 % 64 * 4 + v) ∷ []))
  unfolding set_ecn
  set_ecn_ok v k =
      let e : v % 4 ≡ v = omega arith in
      rw (lt→ltb v 4 k, byte_at_ok buf 1 (omega arith), new_ecn (get_or buf 1 0) v, e)
        (set_byte_ok buf 1 _ (omega arith))

abbrev Elsewhere : ℕ → List ℕ → List ℕ → Type 0
Elsewhere at buf buf' = (j : ℕ) → j ≢ at → get_or buf' j 0 ≡ get_or buf j 0

rewritten :
    (buf : List ℕ) (at x y : ℕ)
    → at < length buf
    → let first = splice buf at (x ∷ []) in
      let second = splice first at (y ∷ []) in
      (length first ≡ length buf)
      × (get_or first at 0 ≡ x)
      × (get_or second at 0 ≡ y)
      × Elsewhere at buf second
rewritten buf at x y h =
    let first : List ℕ = splice buf at (x ∷ []) in
    let same : length first ≡ length buf = length-splice buf at (x ∷ []) (omega arith) in
    (
      same,
      ground (arith, get_or-splice buf at (x ∷ []) at (omega arith)),
      ground (arith, get_or-splice first at (y ∷ []) at (omega arith)),
      λ j ne. ground (
        arith,
        get_or-splice first at (y ∷ []) j (omega arith),
        get_or-splice buf at (x ∷ []) j (omega arith),
      ),
    )

-- On a buffer of at least 20 bytes `adjust_version`, then `set_header_len` with a multiple of 4 from
-- 20 to 60, returns; the version is then 4, the header length the one given, and no other byte has
-- changed.
pub version-and-header_len :
    (buf : List ℕ) (v : ℕ)
    → 20 ≤ length buf
    → IsHeaderLen v
    → (buf' : List ℕ) × ((adjust_version buf >>= λ b. set_header_len b v) ≡ ok buf')
      × (check_version buf' ≡ ok true)
      × (header_len buf' ≡ ok v)
      × ((j : ℕ) → j ≢ 0 → get_or buf' j 0 ≡ get_or buf j 0)
unfolding check_version header_len
version-and-header_len buf v h valid =
    let x : ℕ = 64 + get_or buf 0 0 % 16 in
    let first : List ℕ = splice buf 0 (x ∷ []) in
    let (same, at, last, frame) =
      rewritten buf 0 x (get_or first 0 0 / 16 % 16 * 16 + v / 4) (omega arith) in
    let buf' : List ℕ = splice first 0 ((get_or first 0 0 / 16 % 16 * 16 + v / 4) ∷ []) in
    let byte : get_or buf' 0 0 ≡ 64 + v / 4 = omega arith in
    let reads : byte_at buf' 0 ≡ ok (64 + v / 4) =
      byte_at_ok buf' 0 (
        omega (
          arith,
          length-splice first 0 ((get_or first 0 0 / 16 % 16 * 16 + v / 4) ∷ []) (omega arith),
        ))
      ∙ ap ok byte in
    (
      buf',
      rw (adjust_version_ok buf h) (set_header_len_ok first (omega arith) v valid),
      rw reads (ap ok (eq→== ((64 + v / 4) / 16) 4 (omega arith))),
      rw (reads, bit_and_mask 4 (64 + v / 4)) (ap ok (omega arith)),
      frame,
    )

-- On a buffer of at least 20 bytes `set_dscp` below 64, then `set_ecn` below 4, returns; both values
-- are read back, and no byte but the one that they share has changed.
pub dscp-and-ecn :
    (buf : List ℕ) (d e : ℕ)
    → 20 ≤ length buf
    → d < 64
    → e < 4
    → (buf' : List ℕ) × ((set_dscp buf d >>= λ b. set_ecn b e) ≡ ok buf')
      × (dscp buf' ≡ ok d)
      × (ecn buf' ≡ ok e)
      × ((j : ℕ) → j ≢ 1 → get_or buf' j 0 ≡ get_or buf j 0)
unfolding dscp ecn
dscp-and-ecn buf d e h hd he =
    let x : ℕ = d * 4 + get_or buf 1 0 % 4 in
    let first : List ℕ = splice buf 1 (x ∷ []) in
    let y : ℕ = get_or first 1 0 / 4 % 64 * 4 + e in
    let (same, at, last, frame) = rewritten buf 1 x y (omega arith) in
    let buf' : List ℕ = splice first 1 (y ∷ []) in
    let byte : get_or buf' 1 0 ≡ d * 4 + e = omega arith in
    let reads : byte_at buf' 1 ≡ ok (d * 4 + e) =
      byte_at_ok buf' 1 (omega (arith, length-splice first 1 (y ∷ []) (omega arith)))
      ∙ ap ok byte in
    (
      buf',
      rw (set_dscp_ok buf h d hd) (set_ecn_ok first (omega arith) e he),
      rw reads (ap ok (omega arith)),
      rw (reads, bit_and_mask 2 (d * 4 + e)) (ap ok (omega arith)),
      frame,
    )
