-- ===== src/Views/Laws.antt =====
-- A part of a cursor's bytes is the cursor trimmed and moved, without headroom.
use rpkt.Base.{ℕ, ◌+◌, ◌-◌, ◌≤◌, ◌<◌, ltb, leb, Bool-cases, le→leb}
use rpkt.Base.{leb→le, leb-false, inl, inr, List, Outcome, ok, panic, ◌>>=◌, ◌>>◌, assert}
use rpkt.Base.{
  length, take, drop, ◌≡◌, refl, ap, ◌∙◌, sym, arith, length-take, length-drop, take-all, take-take,
  drop-take, ap₂, >>=_assoc, >>=_congr,
}
use rpkt.Wire.{slice, slice_to, slice_from}
use rpkt.Wire.Laws.{
  slice_ok, slice_panics, slice_to_ok, slice_from_ok, slice_to_panics, slice_backwards,
  slice_from_panics,
}
use rpkt.Cursors
use rpkt.Cursors.{Cursor, IsValid, new, chunk}
use rpkt.Cursors.Laws.{length-chunk}
use rpkt.Cursors.Contract.{cursor_mut}
use rpkt.Packet.{trim_and_advance}
use rpkt.Views.{sub_cursor, sub_cursor_from, split_cursor}

-- A cursor whose slice starts at the position.
unfoldable pub restart : Cursor → Cursor
restart c = new c.memory c.chunk_ptr c.chunk_len

panics_after :
    {A B : Type 0} (m : Outcome A) (f : A → Outcome B) → ((a : A) → f a ≡ panic) → (m >>= f) ≡ panic
panics_after (ok a) f h = h a
panics_after panic f h = refl

-- `split_at_mut` of a front part, and the ranges of the whole.
split_slices :
    {B : Type 0} (y : List ℕ) (mid len : ℕ) (k : List ℕ → List ℕ → Outcome B)
    → (slice_to y len >>= λ bytes.
        slice_to bytes mid >>= λ front. slice_from bytes mid >>= λ behind. k front behind)
      ≡ (slice_to y mid >>= λ front. slice y mid len >>= λ behind. k front behind)
split_slices y mid len k = elim (Bool-cases (leb len (length y))) [
  | inr long ↦
      let h : length y < len = leb-false len (length y) long in
      rw (slice_to_panics y len h, slice_panics y mid len h)
        (sym (panics_after (slice_to y mid) _ (λ front. refl)))
  | inl fits ↦
      let h : len ≤ length y = leb→le len (length y) fits in
      let b : List ℕ = take len y in
      let size : length b ≡ len = omega (arith, length-take len y) in
      elim (Bool-cases (leb mid len)) [
        | inl order ↦
            let i : mid ≤ len = leb→le mid len order in
            let back : drop mid b ≡ take (len - mid) (drop mid y) =
              ap (λ n. drop mid (take n y)) {x = len} {y = mid + (len - mid)} (omega arith)
              ∙ drop-take mid (len - mid) y in
            rw
              (
                slice_to_ok y len h,
                slice_to_ok y mid (omega arith),
                slice_to_ok b mid (omega arith),
                slice_from_ok b mid (omega arith),
                slice_ok y mid len i h,
              )
              (ap₂ k (take-take mid len y i) back)
        | inr cross ↦
            let i : len < mid = leb-false mid len cross in
            rw
              (
                slice_to_ok y len h,
                slice_to_panics b mid (omega arith),
                slice_backwards y mid len i,
              )
              (sym (panics_after (slice_to y mid) _ (λ front. refl)))
      ]
]

module _ (c : Cursor) (v : IsValid c) where
  pub sub_cursor_from-advance :
      (left : ℕ) → sub_cursor_from c left ≡ (Cursors.advance c left >>= λ d. ok (restart d))
  unfolding sub_cursor_from Cursors.advance restart
  sub_cursor_from-advance left =
      let size : length (chunk c) ≡ c.chunk_len = length-chunk c v in
      elim (Bool-cases (leb left c.chunk_len)) [
        | inl fits ↦
            let h : left ≤ length (chunk c) = ground arith in
            let e : length (drop left (chunk c)) ≡ c.chunk_len - left =
              omega (arith, length-drop left (chunk c)) in
            rw fits (
              ap (λ o. o >>= λ bytes. ok (new c.memory (c.chunk_ptr + left) (length bytes)))
                (slice_from_ok (chunk c) left h)
              ∙ ap (λ n. ok (new c.memory (c.chunk_ptr + left) n)) e)
        | inr long ↦
            let h : length (chunk c) < left = ground arith in
            rw (long, slice_from_panics (chunk c) left h) refl
      ]

  trimmed :
      (len : ℕ)
      → len ≤ c.chunk_len
      → (left : ℕ)
      → trim_and_advance cursor_mut.pkt_buf len left c
        ≡ Cursors.advance (record c { chunk_len = len }) left
  unfolding trim_and_advance Cursors.trim_off Cursors.remaining
  trimmed len h left = elim (Bool-cases (ltb 0 (c.chunk_len - len))) [
    | inl more ↦
        rw (more, le→leb (c.chunk_len - len) c.chunk_len (omega arith))
          (ap (λ n. Cursors.advance (record c { chunk_len = n }) left)
            {x = c.chunk_len - (c.chunk_len - len)} {y = len} (omega arith))
    | inr none ↦
        let e : c.chunk_len ≡ len = ground arith in
        rw none (ap (λ n. Cursors.advance (record c { chunk_len = n }) left) e)
  ]

  pub sub_cursor-trim :
      (left right : ℕ)
      → sub_cursor c left right ≡ (
          assert (leb right (Cursors.remaining c))
          >> trim_and_advance cursor_mut.pkt_buf right left c
          >>= λ d. ok (restart d))
  unfolding sub_cursor Cursors.advance Cursors.remaining restart
  sub_cursor-trim left right =
      let size : length (chunk c) ≡ c.chunk_len = length-chunk c v in
      elim (Bool-cases (leb right c.chunk_len)) [
        | inl fits ↦
            let k : right ≤ c.chunk_len = leb→le right c.chunk_len fits in
            rw (fits, trimmed right k left)
              (elim (Bool-cases (leb left right)) [
                | inl order ↦
                    let h : left ≤ right = leb→le left right order in
                    let e : length (take (right - left) (drop left (chunk c))) ≡ right - left =
                      omega (
                        arith,
                        length-take (right - left) (drop left (chunk c)),
                        length-drop left (chunk c),
                      ) in
                    rw (order, slice_ok (chunk c) left right h (omega arith))
                      (ap (λ n. ok (new c.memory (c.chunk_ptr + left) n)) e)
                | inr cross ↦
                    rw (cross, slice_backwards (chunk c) left right (leb-false left right cross))
                      refl
              ])
        | inr long ↦
            let h : length (chunk c) < right = ground arith in
            rw (long, slice_panics (chunk c) left right h) refl
      ]

  -- The bytes up to `len`, split, are those in front and the part behind them.
  pub split_cursor-sub_cursor :
      (len mid : ℕ)
      → (slice_to (chunk c) len >>= λ bytes. split_cursor c bytes mid)
        ≡ (slice_to (chunk c) mid >>= λ front. sub_cursor c mid len >>= λ d. ok (front, d))
  unfolding split_cursor sub_cursor
  split_cursor-sub_cursor len mid =
      split_slices (chunk c) mid len
        (λ front behind. ok (front, new c.memory (c.chunk_ptr + mid) (length behind)))
      ∙ >>=_congr (slice_to (chunk c) mid) _ _
          (λ front. sym (>>=_assoc (slice (chunk c) mid len) _ _))

  pub split_cursor-sub_cursor_from :
      (mid : ℕ)
      → split_cursor c (chunk c) mid
        ≡ (slice_to (chunk c) mid >>= λ front. sub_cursor_from c mid >>= λ d. ok (front, d))
  unfolding sub_cursor_from sub_cursor slice_from
  split_cursor-sub_cursor_from mid =
      let all : slice_to (chunk c) (length (chunk c)) ≡ ok (chunk c) =
        slice_to_ok (chunk c) (length (chunk c)) (omega arith)
        ∙ ap ok (take-all (length (chunk c)) (chunk c) (omega arith)) in
      sym (ap (λ o. o >>= λ bytes. split_cursor c bytes mid) all)
      ∙ split_cursor-sub_cursor (length (chunk c)) mid

abbrev pub halves : {A : Type 0} → Outcome (List ℕ) → Outcome A → Outcome (List ℕ × A)
halves header payload = header >>= λ h. payload >>= λ d. ok (h, d)

abbrev pub thirds :
    {A : Type 0} → Outcome (List ℕ) → Outcome (List ℕ) → Outcome A → Outcome (List ℕ × List ℕ × A)
thirds header options payload = header >>= λ h. options >>= λ o. payload >>= λ d. ok (h, o, d)

-- Halves of a packet whose header is split again.
abbrev pub split_again : {A : Type 0} → ℕ → Outcome (List ℕ × A) → Outcome (List ℕ × List ℕ × A)
split_again fixed parts = parts >>= λ s.
    slice_to s.0 fixed >>= λ hdr. slice_from s.0 fixed >>= λ options. ok (hdr, options, s.1)

pub split_options :
    {A : Type 0} (y : List ℕ) (fixed hlen : ℕ) (payload : Outcome A)
    → split_again fixed (halves (slice_to y hlen) payload)
      ≡ thirds (slice_to y fixed) (slice y fixed hlen) payload
split_options y fixed hlen (ok d) =
    >>=_assoc (slice_to y hlen) _ _
    ∙ split_slices y fixed hlen (λ hdr options. ok (hdr, options, d))
split_options y fixed hlen panic =
    >>=_assoc (slice_to y hlen) _ _
    ∙ panics_after (slice_to y hlen) _ (λ front. refl)
    ∙ sym (
        panics_after (slice_to y fixed) _
          (λ hdr. panics_after (slice y fixed hlen) _ (λ options. refl)))
