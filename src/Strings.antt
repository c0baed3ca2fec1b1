-- ===== src/Strings.antt =====
-- What the program uses of Go's packages `strings` and `strconv`. A Go string is its list of bytes.
pub mod Equality
pub mod Cut
pub mod Decimal
use Prim.Native.Char.{code}
use mathlib.Core.Option
use flexds.Prelude.{
  ℕ, zero, suc, ◌+◌, ◌-◌, ◌*◌, ◌/◌, ◌%◌, ◌^◌, String, ◌≡◌, refl, Bool, true, false, ◌&&◌, ◌||◌,
  Option, none, some, List, [], ◌∷◌, ◌++◌, map, arith, ltb, leb, eqb, if◌then◌else◌,
}

abbrev pub Text : Type 0
Text = List ℕ

-- The bytes of a literal; all literals of the program are ASCII.
abbrev pub codes : String → Text
codes String.[] = []
codes (String.◌∷◌ c s) = code c ∷ codes s

infix 50 ◌==◌
unfoldable pub ◌==◌ : Text → Text → Bool
[] == [] = true
(a ∷ s) == (b ∷ t) = eqb a b && s == t
_ == _ = false

abbrev pub is_empty : Text → Bool
is_empty [] = true
is_empty (_ ∷ _) = false

-- strings.HasPrefix(s, p), the prefix first
unfoldable pub has_prefix : Text → Text → Bool
has_prefix [] s = true
has_prefix (a ∷ p) [] = false
has_prefix (a ∷ p) (b ∷ s) = eqb a b && has_prefix p s

abbrev before : ℕ → Text × Text → Text × Text
before c r = (c ∷ r.0, r.1)

-- The text before the first `sep`, and the text behind it.
unfoldable pub cut : ℕ → Text → Option (Text × Text)
cut sep [] = none
cut sep (c ∷ s) =
    let rest = Option.map (before c) (cut sep s) in if eqb c sep then some ([], s) else rest

-- strings.SplitN(s, sep, n) at a one-byte separator and n ≥ 0
unfoldable pub split_n : ℕ → ℕ → Text → List Text
unfolding cut
split_n zero sep s = []
split_n (suc zero) sep s = s ∷ []
split_n (suc (suc n)) sep s = elim (cut sep s) [
  | none ↦ s ∷ []
  | some (a, b) ↦ a ∷ split_n (suc n) sep b
]

abbrev first_grows : ℕ → List Text → List Text
first_grows c [] = []
first_grows c (p ∷ ps) = (c ∷ p) ∷ ps

-- strings.Split(s, sep) at a one-byte separator
unfoldable pub split : ℕ → Text → List Text
split sep [] = [] ∷ []
split sep (c ∷ s) = let rest = split sep s in if eqb c sep then [] ∷ rest else first_grows c rest

-- strings.Join(parts, sep) at a one-byte separator
unfoldable pub join : ℕ → List Text → Text
join sep [] = []
join sep (p ∷ []) = p
join sep (p ∷ q ∷ ps) = p ++ sep ∷ join sep (q ∷ ps)

-- ASCII white space: \t \n \v \f \r and the blank
abbrev pub is_space : ℕ → Bool
is_space c = (leb 9 c && leb c 13) || eqb c 32

unfoldable pub trim_left : Text → Text
trim_left [] = []
trim_left (c ∷ s) = let rest = trim_left s in if is_space c then rest else c ∷ s

unfoldable pub trim_right : Text → Text
trim_right [] = []
trim_right (c ∷ s) = let rest = trim_right s in if is_space c && is_empty rest then [] else c ∷ rest

-- strings.TrimSpace, on ASCII white space
unfoldable pub trim_space : Text → Text
unfolding trim_left trim_right
trim_space s = trim_right (trim_left s)

-- strings.ToLower, on ASCII letters
unfoldable pub to_lower : Text → Text
to_lower = map (λ c. if leb b'A' c && leb c b'Z' then c + 32 else c)

-- The digits of `n` in front of `out`. The fuel `suc n` is enough, since n / 10 < n where n ≥ 10.
unfoldable pub digits : ℕ → ℕ → Text → Text
digits zero n out = out
digits (suc fuel) n out =
    let more = digits fuel (n / 10) ((b'0' + n % 10) ∷ out) in
    if ltb n 10 then (b'0' + n) ∷ out else more

-- strconv.Itoa, strconv.FormatUint(n, 10) and fmt.Sprintf("%d", n) at n ≥ 0
unfoldable pub itoa : ℕ → Text
unfolding digits
itoa n = digits (suc n) n []

pub data NumError : Type 0 where
  err_syntax err_range : NumError

pub data Parsed : Type 0 where
  parsed : ℕ → Parsed
  failed : NumError → Parsed

-- The loop of ParseUint over the bytes, with the number read so far.
unfoldable pub scan : ℕ → Text → ℕ → Parsed
scan limit [] n = parsed n
scan limit (c ∷ s) n =
    let m = n * 10 + (c - b'0') in
    let rest = scan limit s m in
    if ltb c b'0' || ltb b'9' c
    then failed err_syntax
    else if ltb limit m
    then failed err_range
    else rest

abbrev pub max_u32 : ℕ
max_u32 = 2 ^ 32 - 1

-- strconv.ParseUint(s, 10, 32)
unfoldable pub parse_u32 : Text → Parsed
unfolding scan
parse_u32 [] = failed err_syntax
parse_u32 (c ∷ s) = scan max_u32 (c ∷ s) 0
