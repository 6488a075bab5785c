-- ===== src/Prelude/Texts.antt =====
-- Python's `bytes`, and the code points of a `str`, as lists of numbers; what the code asks of them.
use Prim.Native.Nat.{ℕ, zero, suc, ◌+◌, ◌-◌, ◌*◌}
use Prim.Native.Char.{code}
use Prim.Native.String.{String}
use mathlib.Core.Path.{◌≡◌, refl}
use mathlib.Core.Logic.{◌↔◌}
use mathlib.Core.Bool.{Bool, true, false, not, ◌&&◌, ◌||◌}
use mathlib.Core.Option.{Option, none, some}
use mathlib.Core.List.{List, [], ◌∷◌}
use native.Mathlib.Omega.{arith}
use hosted_replay_harness.Prelude.Tests.{leb, ltb, ◌==◌, if◌then◌else◌}
use hosted_replay_harness.Prelude.Lists.{length, all, any}

abbrev pub Bytes : Type 0
Bytes = List ℕ

-- The code points of a text: its bytes, if it is ASCII. `String` has its own `[]` and `∷`.
abbrev pub codes : String → Bytes
codes String.[] = []
codes (String.◌∷◌ c s) = code c ∷ codes s

abbrev pub equal : Bytes → Bytes → Bool
equal [] [] = true
equal (a ∷ as') (b ∷ bs) = (a == b) && equal as' bs
equal _ _ = false

pub equal_iff : (a b : Bytes) → (equal a b ≡ true) ↔ (a ≡ b)
equal_iff [] [] = ground arith
equal_iff (x ∷ a) (y ∷ b) = ground (arith, equal_iff a b)
equal_iff _ _ = ground arith

pub equal_self : (a : Bytes) → equal a a ≡ true
equal_self a = (equal_iff a a).1 refl

-- `x in (…)`
abbrev pub one_of : Bytes → List Bytes → Bool
one_of x ys = any (equal x) ys

-- `s.startswith(p)`
abbrev pub starts_with : Bytes → Bytes → Bool
starts_with s [] = true
starts_with [] (p ∷ ps) = false
starts_with (c ∷ s) (p ∷ ps) = (c == p) && starts_with s ps

abbrev pub reverse_onto : Bytes → Bytes → Bytes
reverse_onto [] out = out
reverse_onto (c ∷ s) out = reverse_onto s (c ∷ out)

-- `s.endswith(p)`
abbrev pub ends_with : Bytes → Bytes → Bool
ends_with s p = starts_with (reverse_onto s []) (reverse_onto p [])

-- What stands before the first occurrence of the byte, and what stands behind it:
-- `partition`, with `none` for "no separator", and one step of `split`.
abbrev pub cut : ℕ → Bytes → Option (Bytes × Bytes)
cut b [] = none
cut b (c ∷ s) =
    if c == b
    then some ([], s)
    else elim (cut b s) [ none ↦ none | some (before, behind) ↦ some (c ∷ before, behind) ]

-- The same at the first CRLF.
abbrev pub cut_crlf : Bytes → Option (Bytes × Bytes)
cut_crlf [] = none
cut_crlf (c ∷ []) = none
cut_crlf (c ∷ (d ∷ s)) =
    if (c == b'\r') && (d == b'\n')
    then some ([], s)
    else elim (cut_crlf (d ∷ s)) [ none ↦ none | some (before, behind) ↦ some (c ∷ before, behind) ]

-- `s.split(sep, 1)[0]`
abbrev pub before : ℕ → Bytes → Bytes
before b s = elim (cut b s) [ none ↦ s | some (head, _) ↦ head ]

-- ASCII classes of bytes.
abbrev pub between : ℕ → ℕ → ℕ → Bool
between lo hi c = leb lo c && leb c hi

abbrev pub is_digit : ℕ → Bool
is_digit c = between b'0' b'9' c

-- [0-9a-f]
abbrev pub is_hex : ℕ → Bool
is_hex c = is_digit c || between b'a' b'f' c

abbrev pub lower : ℕ → ℕ
lower c = if between b'A' b'Z' c then c + 32 else c

abbrev pub lower_all : Bytes → Bytes
lower_all [] = []
lower_all (c ∷ s) = lower c ∷ lower_all s

-- The whitespace that `bytes.strip` removes.
abbrev pub is_space : ℕ → Bool
is_space c = (c == b' ') || between 9 13 c

abbrev pub strip_left : Bytes → Bytes
strip_left [] = []
strip_left (c ∷ s) = let rest = strip_left s in if is_space c then rest else c ∷ s

abbrev pub strip : Bytes → Bytes
strip s = reverse_onto (strip_left (reverse_onto (strip_left s) [])) []

-- `bytes.isdigit`: not empty, ASCII digits only.
abbrev pub is_digits : Bytes → Bool
is_digits [] = false
is_digits (c ∷ s) = is_digit c && all is_digit s

abbrev pub decimal_from : ℕ → Bytes → ℕ
decimal_from n [] = n
decimal_from n (c ∷ s) = decimal_from (n * 10 + (c - 48)) s

-- `re.fullmatch(r"[0-9a-f]{n}", s)`
abbrev pub is_hex_word : ℕ → Bytes → Bool
is_hex_word n s = (length s == n) && all is_hex s

-- `p in s`
abbrev pub has_infix : Bytes → Bytes → Bool
has_infix p [] = equal p []
has_infix p (c ∷ s) = starts_with (c ∷ s) p || has_infix p s

-- `s.count(p)`: occurrences that do not overlap. The number is how many bytes to pass over.
abbrev pub count_from : Bytes → ℕ → Bytes → ℕ
count_from p k [] = 0
count_from p (suc k) (c ∷ s) = count_from p k s
count_from p zero (c ∷ s) =
    let hit = suc (count_from p (length p - 1) s) in
    let miss = count_from p 0 s in if starts_with (c ∷ s) p then hit else miss

-- The length of the UTF-8 encoding.
abbrev pub utf8_length : Bytes → ℕ
utf8_length [] = 0
utf8_length (c ∷ s) =
    (if leb c 0x7f then 1 else if leb c 0x7ff then 2 else if leb c 0xffff then 3 else 4)
    + utf8_length s

-- `str.strip` and `str.lower` on the code points that Latin-1 decodes to.
abbrev pub is_str_space : ℕ → Bool
is_str_space c = ((is_space c || between 28 31 c) || (c == 0x85)) || (c == 0xa0)

abbrev pub strip_str_left : Bytes → Bytes
strip_str_left [] = []
strip_str_left (c ∷ s) = let rest = strip_str_left s in if is_str_space c then rest else c ∷ s

abbrev pub strip_str : Bytes → Bytes
strip_str s = reverse_onto (strip_str_left (reverse_onto (strip_str_left s) [])) []

abbrev pub lower_str : Bytes → Bytes
lower_str [] = []
lower_str (c ∷ s) =
    (if between 0xc0 0xde c && not (c == 0xd7) then c + 32 else lower c) ∷ lower_str s

-- Python's order of texts.
abbrev pub less : Bytes → Bytes → Bool
less s [] = false
less [] (c ∷ t) = true
less (b ∷ s) (c ∷ t) = let rest = less s t in ltb b c || ((b == c) && rest)
