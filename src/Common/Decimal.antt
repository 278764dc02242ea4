-- ===== src/Common/Decimal.antt =====
-- Decimal text: `String(n)` of a natural number, and the digits that `parseInt(s, 10)` reads.
use Prim.Native.Nat.{ℕ, zero, suc, ◌+◌, ◌-◌, ◌*◌, ◌/◌, ◌%◌, ◌<◌}
use mathlib.Core.Path.{◌≡◌, refl, ◌∙◌, ap}
use mathlib.Core.Logic.{◌≢◌, inl, inr}
use mathlib.Core.Bool.{Bool, true, false, ◌&&◌}
use mathlib.Core.Option
use mathlib.Core.Option.{Option, none, some}
use mathlib.Core.List.{[], ◌∷◌, ◌++◌}
use native.Mathlib.Omega.{arith}
use otclick_hh.Common.Tests.{Bool-cases, eqb, if◌then◌else◌, leb, ltb}
use otclick_hh.Common.Lists.{All, All-append}
use otclick_hh.Common.Texts.{Text, is_space, trim_start}

digits_of : ℕ → ℕ → Text
digits_of zero n = []
digits_of (suc f) n =
    let rest = digits_of f (n / 10) ++ (b'0' + n % 10) ∷ [] in
    if ltb n 10 then (b'0' + n) ∷ [] else rest

-- One round for each unit of `n` is more than it has digits.
unfoldable pub show_nat : ℕ → Text
unfolding digits_of
show_nat n = digits_of (suc n) n

abbrev pub is_digit : ℕ → Bool
is_digit c = leb b'0' c && leb c b'9'

-- The value of a run of digits after `acc`.
abbrev pub value_from : ℕ → Text → ℕ
value_from acc [] = acc
value_from acc (c ∷ s) = value_from (acc * 10 + (c - b'0')) s

-- The longest run of digits at the start of a text; `none` where there is no digit.
unfoldable pub digit_prefix : ℕ → Bool → Text → Option ℕ
digit_prefix acc seen [] = if seen then some acc else none
digit_prefix acc seen (c ∷ s) =
    let rest = digit_prefix (acc * 10 + (c - b'0')) true s in
    if is_digit c then rest else if seen then some acc else none

abbrev pub IsDigit : ℕ → Type 0
IsDigit c = is_digit c ≡ true

value_from-append :
    (acc : ℕ) (xs : Text) (c : ℕ)
    → value_from acc (xs ++ c ∷ []) ≡ value_from acc xs * 10 + (c - b'0')
value_from-append acc [] c = refl
value_from-append acc (x ∷ xs) c = value_from-append (acc * 10 + (x - b'0')) xs c

value_from-digits_of : (f n : ℕ) → n < f → value_from 0 (digits_of f n) ≡ n
unfolding digits_of
value_from-digits_of zero n h = elim h [ ]
value_from-digits_of (suc f) n h = elim (Bool-cases (ltb n 10)) [
  | inl small ↦ rw small (omega arith)
  | inr large ↦
      rw (large, value_from-append 0 (digits_of f (n / 10)) (b'0' + n % 10))
        (rw (value_from-digits_of f (n / 10) (ground arith)) (omega arith))
]

digits_of-IsDigit : (f n : ℕ) → n < f → All IsDigit (digits_of f n)
unfolding digits_of
digits_of-IsDigit zero n h = elim h [ ]
digits_of-IsDigit (suc f) n h = elim (Bool-cases (ltb n 10)) [
  | inl small ↦ rw small (ground arith, tt)
  | inr large ↦ rw large (
      All-append IsDigit (digits_of f (n / 10)) _ (digits_of-IsDigit f (n / 10) (ground arith))
        (ground arith, tt))
]

pub show_nat-IsDigit : (n : ℕ) → All IsDigit (show_nat n)
unfolding show_nat
show_nat-IsDigit n = digits_of-IsDigit (suc n) n (omega arith)

digit_prefix-IsDigit :
    (acc : ℕ) (xs : Text) → All IsDigit xs → digit_prefix acc true xs ≡ some (value_from acc xs)
unfolding digit_prefix
digit_prefix-IsDigit acc [] h = refl
digit_prefix-IsDigit acc (c ∷ xs) (d, h) = rw d (digit_prefix-IsDigit (acc * 10 + (c - b'0')) xs h)

pub digit_prefix-first :
    (xs : Text) → All IsDigit xs → xs ≢ [] → digit_prefix 0 false xs ≡ some (value_from 0 xs)
unfolding digit_prefix
digit_prefix-first [] h full = absurd (full refl)
digit_prefix-first (c ∷ xs) (d, h) full = rw d (digit_prefix-IsDigit (0 * 10 + (c - b'0')) xs h)

pub value_from-show_nat : (n : ℕ) → value_from 0 (show_nat n) ≡ n
unfolding show_nat
value_from-show_nat n = value_from-digits_of (suc n) n (omega arith)

append-ne-nil : (xs : Text) (c : ℕ) → xs ++ c ∷ [] ≢ []
append-ne-nil [] c e = cc
append-ne-nil (x ∷ xs) c e = cc

pub show_nat-ne-nil : (n : ℕ) → show_nat n ≢ []
unfolding show_nat
show_nat-ne-nil n = elim (Bool-cases (ltb n 10)) [
  | inl small ↦ rw small (λ e. cc)
  | inr large ↦ rw large (append-ne-nil (digits_of n (n / 10)) (b'0' + n % 10))
]

-- Reading back what was written.
pub digit_prefix-show_nat : (n : ℕ) → digit_prefix 0 false (show_nat n) ≡ some n
digit_prefix-show_nat n =
    digit_prefix-first (show_nat n) (show_nat-IsDigit n) (show_nat-ne-nil n)
    ∙ ap some (value_from-show_nat n)

pub show_nat_injective : (m n : ℕ) → show_nat m ≡ show_nat n → m ≡ n
show_nat_injective m n e =
    omega (arith, ap (value_from 0) e, value_from-show_nat m, value_from-show_nat n)

-- `negsuc n` is -(n + 1).
pub data ℤ : Type 0 where
  pos : ℕ → ℤ
  negsuc : ℕ → ℤ

abbrev pub negate : ℕ → ℤ
negate zero = pos 0
negate (suc n) = negsuc n

-- `parseInt(s, 10)`, `none` for NaN: white space, an optional sign, digits, and anything after.
-- Exact on what the engine holds exactly, the integers up to 2 ^ 53.
unfoldable pub parse_int : Text → Option ℤ
unfolding trim_start digit_prefix
parse_int s = elim (trim_start s) [
  | [] ↦ none
  | c ∷ rest ↦
      if eqb c b'-'
      then Option.map negate (digit_prefix 0 false rest)
      else if eqb c b'+'
      then Option.map pos (digit_prefix 0 false rest)
      else Option.map pos (digit_prefix 0 false (c ∷ rest))
]

digit-not_space : (c : ℕ) → IsDigit c → is_space c ≡ false
unfolding is_space
digit-not_space c h = ground arith

parse_int-IsDigit :
    (s : Text) → All IsDigit s → s ≢ [] → parse_int s ≡ Option.map pos (digit_prefix 0 false s)
unfolding parse_int
parse_int-IsDigit [] h full = absurd (full refl)
parse_int-IsDigit (c ∷ s) (d, h) full =
    let not_space : is_space c ≡ false = digit-not_space c d in ground arith

-- A number that was written in decimal is read back.
pub parse_int-show_nat : (n : ℕ) → parse_int (show_nat n) ≡ some (pos n)
parse_int-show_nat n =
    parse_int-IsDigit (show_nat n) (show_nat-IsDigit n) (show_nat-ne-nil n)
    ∙ ap (Option.map pos) (digit_prefix-show_nat n)
