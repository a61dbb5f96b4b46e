-- ===== src/Merging/Runes.antt =====
-- The runes of a Go string, as the verb %87.87s of internal/pipeline/merging.go counts them.
use achgateway.Base.{
  ℕ, zero, suc, Text, leb, not, nat_eq, Bool, true, false, ◌&&◌, [], ◌∷◌, if◌then◌else◌,
}

abbrev between : ℕ → ℕ → ℕ → Bool
between low high c = leb low c && leb c high

abbrev continues : ℕ → Text → Bool
continues zero s = true
continues (suc n) [] = false
continues (suc n) (c ∷ s) = let rest = continues n s in between 0x80 0xBF c && rest

-- The second byte of a rune in UTF-8, by the first.
abbrev second_fits : ℕ → Text → Bool
second_fits c [] = false
second_fits c (d ∷ s) =
    if nat_eq c 0xE0
    then between 0xA0 0xBF d
    else if nat_eq c 0xED
    then between 0x80 0x9F d
    else if nat_eq c 0xF0
    then between 0x90 0xBF d
    else if nat_eq c 0xF4
    then between 0x80 0x8F d
    else between 0x80 0xBF d

-- How many bytes follow the first one in its rune: none where that is ASCII, or no valid UTF-8.
unfoldable pub bytes_after : ℕ → Text → ℕ
bytes_after c s =
    if not (second_fits c s)
    then 0
    else if between 0xC2 0xDF c
    then 1
    else if between 0xE0 0xEF c && continues 2 s
    then 2
    else if between 0xF0 0xF4 c && continues 3 s
    then 3
    else 0

-- How many runes there are, and the first `n` of them, behind the `k` bytes that are left of the rune
-- before.
unfoldable pub rune_count : ℕ → Text → ℕ
unfolding bytes_after
rune_count k [] = 0
rune_count (suc k) (c ∷ s) = rune_count k s
rune_count zero (c ∷ s) = suc (rune_count (bytes_after c s) s)

unfoldable pub take_runes : ℕ → ℕ → Text → Text
unfolding bytes_after
take_runes n k [] = []
take_runes n (suc k) (c ∷ s) = c ∷ take_runes n k s
take_runes zero zero (c ∷ s) = []
take_runes (suc n) zero (c ∷ s) = c ∷ take_runes n (bytes_after c s) s
