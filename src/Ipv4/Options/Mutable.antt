-- ===== src/Ipv4/Options/Mutable.antt =====
-- `Ipv4OptionIterMut` against `Ipv4OptionIter`.
use rpkt.Base.{ℕ, ◌≢◌, ◌≤◌, ◌<◌}
use rpkt.Base.{List, Option, some, Outcome, ok, panic, length, take, drop, get_or, ◌≡◌, ◌⊎◌}
use rpkt.Ipv4.Options.{Ipv4Option, Ipv4OptionIter, unknown, from_option_bytes}

abbrev Read : Type 0
Read = Outcome (Option Ipv4Option × Ipv4OptionIter)

-- No type that the readers know.
abbrev pub IsUnknown : ℕ → Type 0
IsUnknown kind = (kind ≢ 0) × (kind ≢ 1) × (kind ≢ 68) × (kind ≢ 7) × (kind ≢ 148)

-- On an option of an unknown type whose length byte is at most the number of bytes: the first gives
-- as many bytes as the length byte says; the second gives four bytes, or panics when there are fewer.
abbrev pub Differ : List ℕ → Read → Read → Type 0
Differ buf o p =
    IsUnknown (get_or buf 0 0)
    × (2 ≤ length buf)
    × (get_or buf 1 0 ≤ length buf)
    × (o
        ≡ ok (
          some (unknown (take (get_or buf 1 0) buf)),
          from_option_bytes (drop (get_or buf 1 0) buf),
        ))
    × (((length buf < 4) × (p ≡ panic))
        ⊎ ((4 ≤ length buf)
            × (p ≡ ok (some (unknown (take 4 buf)), from_option_bytes (drop 4 buf)))))

abbrev Compare : List ℕ → Read → Read → Type 0
Compare buf o p = (p ≡ o) ⊎ Differ buf o p
