-- ===== src/Texts.antt =====
-- Texts as the lists of their code points, and Python's `str` and `int` of an integer. `int` is modelled
-- with its sign and its underscores between digits; the white space that it would strip is not.
pub mod Hex
pub mod Fields
use Prim.Native.Nat.{◌/◌, ◌%◌}
use lumendark.Common.{
  ℕ, zero, suc, ◌+◌, ◌-◌, ◌*◌, ◌≤◌, ◌<◌, ◌≡◌, ◌≢◌, refl, sym, ap, ◌∙◌, Bool, true, false, ◌&&◌,
  ◌||◌, Option, none, some, List, [], ◌∷◌, ◌++◌, arith, ltb, leb, ◌==◌, if◌then◌else◌, ℤ, pos,
  negsuc, Each, Bool-cases, inl, inr,
}
use mathlib.Core.Option

abbrev pub Text : Type 0
Text = List ℕ

abbrev pub is_digit : ℕ → Bool
is_digit c = leb b'0' c && leb c b'9'

-- The digits of `n` before `acc`; the fuel is enough if `n` is below it.
unfoldable pub digits_before : ℕ → ℕ → Text → Text
digits_before zero n acc = acc
digits_before (suc fuel) n acc =
    let rest = digits_before fuel (n / 10) ((b'0' + n % 10) ∷ acc) in
    if ltb n 10 then (b'0' + n) ∷ acc else rest

unfoldable pub digits : ℕ → Text
unfolding digits_before
digits n = digits_before (suc n) n []

-- `str` of an int
unfoldable pub str : ℤ → Text
str (pos n) = digits n
str (negsuc n) = b'-' ∷ digits (suc n)

-- The rest of a number behind `value`; `seen` says whether its last character is a digit.
unfoldable pub parse_digits : Bool → ℕ → Text → Option ℕ
parse_digits seen value [] = if seen then some value else none
parse_digits seen value (c ∷ cs) =
    let rest =
      parse_digits (is_digit c) (if is_digit c then value * 10 + (c - b'0') else value) cs in
    if is_digit c || (seen && c == b'_') then rest else none

abbrev pub minus_of : ℕ → ℤ
minus_of zero = pos 0
minus_of (suc n) = negsuc n

-- `int` of a text; `none` is the `ValueError`
unfoldable pub parse_int : Text → Option ℤ
parse_int [] = none
parse_int (c ∷ cs) =
    if c == b'-'
    then Option.map minus_of (parse_digits false 0 cs)
    else if c == b'+'
    then Option.map pos (parse_digits false 0 cs)
    else Option.map pos (parse_digits false 0 (c ∷ cs))

-- What parsing does to the digits of a number.
digits_before-parse :
    (fuel n : ℕ) (acc : Text) (seen : Bool)
    → n < fuel
    → parse_digits seen 0 (digits_before fuel n acc) ≡ parse_digits true n acc
unfolding digits_before parse_digits
digits_before-parse zero n acc seen h = absurd (omega arith)
digits_before-parse (suc fuel) n acc seen h = elim (Bool-cases (ltb n 10)) [
  | inl small ↦ rw small (ground arith)
  | inr large ↦
      rw large (
        digits_before-parse fuel (n / 10) ((b'0' + n % 10) ∷ acc) seen (ground arith)
        ∙ ground arith)
]

-- The first character of a number is a digit.
digits_before-head :
    (fuel n : ℕ) (acc : Text)
    → n < fuel
    → (c : ℕ) × (cs : Text) × (digits_before fuel n acc ≡ c ∷ cs) × (is_digit c ≡ true)
unfolding digits_before
digits_before-head zero n acc h = absurd (omega arith)
digits_before-head (suc fuel) n acc h = elim (Bool-cases (ltb n 10)) [
  | inl small ↦ (b'0' + n, acc, rw small, ground arith)
  | inr large ↦ rw large (digits_before-head fuel (n / 10) ((b'0' + n % 10) ∷ acc) (ground arith))
]

parse_int-digit :
    (c : ℕ) (cs : Text)
    → is_digit c ≡ true
    → parse_int (c ∷ cs) ≡ Option.map pos (parse_digits false 0 (c ∷ cs))
unfolding parse_int
parse_int-digit c cs h = ground arith

parse_digits-digits : (n : ℕ) → parse_digits false 0 (digits n) ≡ some n
unfolding digits parse_digits
parse_digits-digits n = digits_before-parse (suc n) n [] false (omega arith)

parse_int-digits : (n : ℕ) → parse_int (digits n) ≡ some (pos n)
unfolding digits
parse_int-digits n =
    let (c, cs, e, d) = digits_before-head (suc n) n [] (omega arith) in
    ap parse_int e
    ∙ parse_int-digit c cs d
    ∙ ap (λ t. Option.map pos (parse_digits false 0 t)) (sym e)
    ∙ ap (Option.map pos) (parse_digits-digits n)

-- `int(str(n))` is `n`.
pub parse_int-str : (n : ℤ) → parse_int (str n) ≡ some n
unfolding str
parse_int-str (pos n) = parse_int-digits n
parse_int-str (negsuc n) = minus_sign n
  where
    minus_sign : (n : ℕ) → parse_int (b'-' ∷ digits (suc n)) ≡ some (negsuc n)
    minus_sign n = unfold parse_int in ap (Option.map minus_of) (parse_digits-digits (suc n))

-- No character of a number is `c`, if `c` is no digit and no sign.
digits_before-avoids :
    (c fuel n : ℕ) (acc : Text)
    → is_digit c ≡ false
    → Each (λ d. d ≢ c) acc
    → Each (λ d. d ≢ c) (digits_before fuel n acc)
unfolding digits_before
digits_before-avoids c zero n acc h k = k
digits_before-avoids c (suc fuel) n acc h k =
    ground (arith, digits_before-avoids c fuel (n / 10) ((b'0' + n % 10) ∷ acc))

pub str-avoids : (c : ℕ) (n : ℤ) → is_digit c ≡ false → c ≢ b'-' → Each (λ d. d ≢ c) (str n)
unfolding str digits
str-avoids c (pos n) h k = digits_before-avoids c (suc n) n [] h tt
str-avoids c (negsuc n) h k =
    ((λ e. k (sym e)), digits_before-avoids c (suc (suc n)) (suc n) [] h tt)
