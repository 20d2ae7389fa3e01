-- ===== src/Packet/Laws.antt =====
-- What the shared steps of the packet types do to the bytes before and after a buffer's position.
use rpkt.Base.{ℕ, ◌-◌, ◌≤◌, ◌<◌, ◌^◌, ltb, leb, List, ◌++◌, Outcome, ok, panic, ◌>>=◌}
use rpkt.Base.{
  ◌≡◌, refl, sym, ap, ap₂, ◌∙◌, arith, length, take, drop, le→leb, lt→ltb, le→ltb, true,
  if◌then◌else◌, inl, inr, length-append, length-take, length-drop, take-all, Bool-cases, ltb-false,
}
use rpkt.Wire.{splice, set_range}
use rpkt.Wire.Laws.{set_range_ok}
use rpkt.Traits.{PktMut, IsPktMut}
use rpkt.Packet.{trim_and_advance, set, put_header, try_u16}

pub try_u16_ok : (n : ℕ) → n < 2 ^ 16 → try_u16 n ≡ ok n
unfolding try_u16
try_u16_ok n h = rw (lt→ltb n (2 ^ 16) h)

pub try_u16_panic : (n : ℕ) → 2 ^ 16 ≤ n → try_u16 n ≡ panic
unfolding try_u16
try_u16_panic n h = rw (le→ltb (2 ^ 16) n h)

-- A step that returns, followed by another.
pub ok_then :
    {A B : Type 0} {m : Outcome A} {r : Outcome B} (f : A → Outcome B) (a : A)
    → m ≡ ok a
    → f a ≡ r
    → (m >>= f) ≡ r
ok_then f a e h = ap (λ o. o >>= f) e ∙ h

module _ (P : PktMut) (L : IsPktMut P) where
  -- A buffer with these bytes before its position, and these to be read.
  abbrev pub Holds : P.Buffer → List ℕ → List ℕ → Type 0
  Holds b front body = L.IsSound b × (L.front b ≡ front) × (L.body b ≡ body)

  abbrev pub Gives : Outcome P.Buffer → List ℕ → List ℕ → Type 0
  Gives o front body = (b : P.Buffer) × (o ≡ ok b) × Holds b front body

  pub Gives-then :
      {o : Outcome P.Buffer} {k : P.Buffer → Outcome P.Buffer} {f y f' y' : List ℕ}
      → Gives o f y
      → ((b : P.Buffer) → Holds b f y → Gives (k b) f' y')
      → Gives (o >>= k) f' y'
  Gives-then {k = k} (b, e, h) next = let (c, e', h') = next b h in (c, ok_then k b e e', h')

  module _ (b : P.Buffer) (f y : List ℕ) (at : Holds b f y) where
    size : length (L.body b) ≡ length y
    size = ap length at.2

    pub remaining-Holds : P.remaining b ≡ length y
    remaining-Holds = L.remaining_lem b at.0 ∙ size

    pub chunk-Holds : P.chunk b ≡ y
    chunk-Holds = L.chunk_lem b at.0 ∙ at.2

    pub headroom-Holds : P.chunk_headroom b ≡ length f
    headroom-Holds = L.headroom_lem b at.0 ∙ ap length at.1

    pub advance-Gives : (n : ℕ) → n ≤ length y → Gives (P.advance b n) (f ++ take n y) (drop n y)
    advance-Gives n h =
        let (c, e, s, fr, bo) = L.advance_ok b n at.0 (omega (arith, size)) in
        (c, e, (s, fr ∙ ap₂ (λ f y. f ++ take n y) at.1 at.2, bo ∙ ap (drop n) at.2))

    pub trim_off-Gives : (n : ℕ) → n ≤ length y → Gives (P.trim_off b n) f (take (length y - n) y)
    trim_off-Gives n h =
        let (c, e, s, fr, bo) = L.trim_off_ok b n at.0 (omega (arith, size)) in
        (c, e, (s, fr ∙ at.1, bo ∙ ap (λ y. take (length y - n) y) at.2))

    pub move_back-Gives :
        (n : ℕ)
        → n ≤ length f
        → Gives (P.move_back b n) (take (length f - n) f) (drop (length f - n) f ++ y)
    move_back-Gives n h =
        let (c, e, s, fr, bo) = L.move_back_ok b n at.0 (omega (arith, ap length at.1)) in
        (
          c,
          e,
          (
            s,
            fr ∙ ap (λ f. take (length f - n) f) at.1,
            bo ∙ ap₂ (λ f y. drop (length f - n) f ++ y) at.1 at.2,
          ),
        )

    -- A setter that keeps the chunk's length writes the chunk.
    pub set-Gives :
        (method : List ℕ → Outcome (List ℕ)) (bytes : List ℕ)
        → method y ≡ ok bytes
        → length bytes ≡ length y
        → Gives (set P method b) f bytes
    unfolding set
    set-Gives method bytes e n =
        let (s, fr, bo) = L.put_chunk_ok b bytes at.0 (n ∙ sym size) in
        (
          P.put_chunk b bytes,
          ok_then (λ new. ok (P.put_chunk b new)) bytes (ap method chunk-Holds ∙ e) refl,
          (s, fr ∙ at.1, bo),
        )

    pub leb-remaining : (n : ℕ) → n ≤ length y → leb n (P.remaining b) ≡ true
    leb-remaining n h = ap (leb n) remaining-Holds ∙ le→leb n (length y) h

    -- The bytes beyond `len` are cut off, if there are any.
    trim_to-Gives :
        (len : ℕ)
        → len ≤ length y
        → Gives
            (if ltb 0 (P.remaining b - len) then P.trim_off b (P.remaining b - len) else ok b)
            f
            (take len y)
    trim_to-Gives len h = rw remaining-Holds (elim (Bool-cases (ltb 0 (length y - len))) [
      | inl more ↦ rw more (
          let (c, e, (s, fr, bo)) = trim_off-Gives (length y - len) (omega arith) in
          (c, e, (s, fr, bo ∙ ap (λ n. take n y) (omega arith))))
      | inr exact ↦ rw exact (
        b,
        refl,
        (
          at.0,
          at.1,
          at.2 ∙ sym (take-all len y (omega (arith, ltb-false 0 (length y - len) exact))),
        ),
      )
    ])

  -- Trimming to `len` bytes and passing `hlen` of them leaves what is between.
  pub trim_and_advance-Gives :
      (b : P.Buffer) (f y : List ℕ) (len hlen : ℕ)
      → Holds b f y
      → hlen ≤ len
      → len ≤ length y
      → Gives
          (trim_and_advance P.pkt_buf len hlen b)
          (f ++ take hlen (take len y))
          (drop hlen (take len y))
  unfolding trim_and_advance
  trim_and_advance-Gives b f y len hlen at h k =
      Gives-then (trim_to-Gives b f y at len k)
        (λ c hc. advance-Gives c f (take len y) hc hlen (omega (arith, length-take len y)))

  -- A header of `hlen` bytes over the first bytes of the chunk.
  pub put_header-Gives :
      (b : P.Buffer) (f y : List ℕ) (hlen : ℕ) (bytes : List ℕ)
      → Holds b f y
      → length bytes ≡ hlen
      → hlen ≤ length y
      → Gives (put_header P hlen bytes b) f (bytes ++ drop hlen y)
  unfolding put_header splice
  put_header-Gives b f y hlen bytes at e k =
      set-Gives b f y at (λ chunk. set_range chunk 0 hlen bytes) (bytes ++ drop hlen y)
        (set_range_ok y 0 hlen bytes (omega arith) k
          ∙ ap (λ n. ok (bytes ++ drop n y)) (omega arith))
        (omega (arith, length-append bytes (drop hlen y), length-drop hlen y))
