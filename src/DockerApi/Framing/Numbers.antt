-- ===== src/DockerApi/Framing/Numbers.antt =====
-- `int(token, 16)` on bytes: white space around, a sign, "0x", and single underscores between digits.
use hosted_replay_harness.Value.{ℤ, negsuc, pos}
use hosted_replay_harness.Prelude.{
  Bool, Bytes, Option, [], between, codes, false, if◌then◌else◌, none, refl, some, starts_with,
  strip, suc, true, zero, ℕ, ◌&&◌, ◌*◌, ◌+◌, ◌-◌, ◌==◌, ◌||◌, ◌∷◌, ◌≡◌,
}

abbrev hex_value : ℕ → Option ℕ
hex_value c =
    if between b'0' b'9' c
    then some (c - 48)
    else if between b'a' b'f' c
    then some (c - 87)
    else if between b'A' b'F' c
    then some (c - 55)
    else none

-- The flag tells whether an underscore may stand here, which is behind a digit.
hex_digits : ℕ → Bool → Bytes → Option ℕ
hex_digits n after_digit [] = if after_digit then some n else none
hex_digits n after_digit (c ∷ s) = elim (hex_value c) [
  | some d ↦ hex_digits (n * 16 + d) true s
  | none ↦ let rest = hex_digits n false s in if (c == b'_') && after_digit then rest else none
]

-- behind "0x" one underscore may stand
unprefixed : Bytes → Option ℕ
unfolding hex_digits
unprefixed (a ∷ (b ∷ s)) =
    if (a == b'0') && ((b == b'x') || (b == b'X'))
    then hex_digits 0 (starts_with s (b'_' ∷ [])) s
    else hex_digits 0 false (a ∷ (b ∷ s))
unprefixed s = hex_digits 0 false s

abbrev negated : ℕ → ℤ
negated zero = pos 0
negated (suc n) = negsuc n

abbrev signed : Bytes → Option ℤ
signed [] = none
signed (c ∷ s) =
    if c == b'-'
    then elim (unprefixed s) [ none ↦ none | some n ↦ some (negated n) ]
    else if c == b'+'
    then elim (unprefixed s) [ none ↦ none | some n ↦ some (pos n) ]
    else elim (unprefixed (c ∷ s)) [ none ↦ none | some n ↦ some (pos n) ]

unfoldable pub parse_hex : Bytes → Option ℤ
unfolding unprefixed
parse_hex token = signed (strip token)

parse_hex_runs :
    (parse_hex (codes "1f") ≡ some (pos 31))
    × (parse_hex (codes " -0x_5 ") ≡ some (negsuc 4))
    × (parse_hex (codes "1__2") ≡ none)
    × (parse_hex (codes "") ≡ none)
    × (parse_hex (codes "0x") ≡ none)
unfolding parse_hex
parse_hex_runs = (refl, refl, refl, refl, refl)
