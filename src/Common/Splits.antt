-- ===== src/Common/Splits.antt =====
-- Texts cut into parts, as JavaScript's `split` and `indexOf` do it.
use mathlib.Core.Bool.{Bool, false, true, ◌||◌}
use mathlib.Core.Option
use mathlib.Core.Option.{Option, none, some}
use mathlib.Core.List.{List, [], ◌∷◌}
use Prim.Native.Nat.{ℕ, ◌+◌}
use otclick_hh.Common.Tests.{eqb, if◌then◌else◌}
use otclick_hh.Common.Lists.{drop}
use otclick_hh.Common.Texts.{Text, index_of, is_space}

abbrev pub push_code : ℕ → List Text → List Text
push_code x [] = (x ∷ []) ∷ []
push_code x (part ∷ parts) = (x ∷ part) ∷ parts

-- `s.split(c)`
unfoldable pub split_on : ℕ → Text → List Text
split_on c [] = [] ∷ []
split_on c (x ∷ s) = let rest = split_on c s in if eqb x c then [] ∷ rest else push_code x rest

-- the parts from here on, in a run of white space or not
abbrev parts_from : Bool → Text → List Text
parts_from in_run [] = [] ∷ []
parts_from true (x ∷ s) =
    let run = parts_from true s in
    let part = parts_from false s in if is_space x then run else push_code x part
parts_from false (x ∷ s) =
    let run = parts_from true s in
    let part = parts_from false s in if is_space x then [] ∷ run else push_code x part

-- `s.split(/\s+/)`
unfoldable pub split_spaces : Text → List Text
split_spaces s = parts_from false s

-- `s.indexOf(q, at)`, `none` for -1
unfoldable pub index_of_from : Text → Text → ℕ → Option ℕ
index_of_from s q at = Option.map (λ i. at + i) (index_of (drop at s) q)

-- what `.` does not match in a regular expression
abbrev pub ends_line : ℕ → Bool
ends_line c = eqb c 10 || eqb c 13 || eqb c 8232 || eqb c 8233

-- what follows a value, where there is one
infixl 5 ◌>>=◌
abbrev pub ◌>>=◌ {ℓ κ} : {A : Type ℓ} {B : Type κ} → Option A → (A → Option B) → Option B
none >>= next = none
some a >>= next = next a
