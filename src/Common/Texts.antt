-- ===== src/Common/Texts.antt =====
-- Texts that the program walks, as lists of UTF-16 code units, with the methods of JavaScript's
-- `String` that it calls. Case mapping is a parameter of what uses it.
use Prim.Native.Nat.{ℕ, suc}
use Prim.Native.Char.{code}
use Prim.Native.String.{String}
use mathlib.Core.Path.{◌≡◌, refl}
use mathlib.Core.Logic.{◌↔◌, inl, inr}
use mathlib.Core.Bool.{Bool, true, false, not, ◌&&◌, ◌||◌}
use mathlib.Core.Option
use mathlib.Core.Option.{Option, none, some}
use mathlib.Core.List.{◌++◌, List, [], ◌∷◌, reverse}
use native.Mathlib.Omega.{arith}
use otclick_hh.Common.Tests.{Bool-cases, eqb, if◌then◌else◌, is_some, leb}
use otclick_hh.Common.Lists.{keep}

abbrev pub Text : Type 0
Text = List ℕ

-- The code units of a literal whose characters lie in the basic plane.
abbrev pub codes : String → Text
codes String.[] = []
codes (String.◌∷◌ c s) = code c ∷ codes s

abbrev pub text_eq : Text → Text → Bool
text_eq [] [] = true
text_eq (a ∷ s) (b ∷ t) = eqb a b && text_eq s t
text_eq _ _ = false

pub text_eq_refl : (s : Text) → text_eq s s ≡ true
text_eq_refl [] = refl
text_eq_refl (a ∷ s) = ground (arith, text_eq_refl s)

pub text_eq→eq : (s t : Text) → text_eq s t ≡ true → s ≡ t
text_eq→eq [] [] h = refl
text_eq→eq [] (b ∷ t) h = ground arith
text_eq→eq (a ∷ s) [] h = ground arith
text_eq→eq (a ∷ s) (b ∷ t) h = ground (arith, text_eq→eq s t)

pub text_eq_iff : (s t : Text) → (text_eq s t ≡ true) ↔ (s ≡ t)
text_eq_iff s t = (text_eq→eq s t, λ e. rw e (text_eq_refl t))

-- `s === "…"`
abbrev pub is_word : Text → String → Bool
is_word s w = text_eq s (codes w)

-- `s || t` for strings
abbrev pub or_text : Text → Text → Text
or_text [] t = t
or_text (c ∷ s) t = c ∷ s

-- `!s` for a string
abbrev pub is_empty {ℓ} : {A : Type ℓ} → List A → Bool
is_empty [] = true
is_empty (_ ∷ _) = false

pub is_empty-nil {ℓ} : {A : Type ℓ} (xs : List A) → is_empty xs ≡ true → xs ≡ []
is_empty-nil [] h = refl
is_empty-nil (x ∷ xs) h = ground arith

-- White space and line terminators, as `trim` and `\s` take them.
unfoldable pub is_space : ℕ → Bool
is_space c =
    leb 9 c && leb c 13
    || eqb c 32
    || eqb c 160
    || eqb c 5760
    || leb 8192 c && leb c 8202
    || eqb c 8232
    || eqb c 8233
    || eqb c 8239
    || eqb c 8287
    || eqb c 12288
    || eqb c 65279

unfoldable pub trim_start : Text → Text
trim_start [] = []
trim_start (c ∷ s) = let rest = trim_start s in if is_space c then rest else c ∷ s

-- the white space at the end goes: a character stays if it or a later one is no space
unfoldable pub trim_end : Text → Text
trim_end [] = []
trim_end (c ∷ s) = let rest = trim_end s in if is_space c && is_empty rest then [] else c ∷ rest

unfoldable pub trim : Text → Text
unfolding trim_start trim_end
trim s = trim_end (trim_start s)

unfoldable pub starts_with : Text → Text → Bool
starts_with s [] = true
starts_with [] (p ∷ ps) = false
starts_with (c ∷ s) (p ∷ ps) = eqb c p && starts_with s ps

-- `s.indexOf(q)`, `none` for -1
unfoldable pub index_of : Text → Text → Option ℕ
unfolding starts_with
index_of [] q = if is_empty q then some 0 else none
index_of (c ∷ s) q =
    let rest = Option.map suc (index_of s q) in if starts_with (c ∷ s) q then some 0 else rest

abbrev pub NoLeadingSpace : Text → Type 0
NoLeadingSpace [] = Unit
NoLeadingSpace (c ∷ s) = is_space c ≡ false

trim_start-NoLeadingSpace : (s : Text) → NoLeadingSpace (trim_start s)
unfolding trim_start
trim_start-NoLeadingSpace [] = tt
trim_start-NoLeadingSpace (c ∷ s) = elim (Bool-cases (is_space c)) [
  | inl e ↦ rw e (trim_start-NoLeadingSpace s)
  | inr e ↦ rw e e
]

trim_start_of_NoLeadingSpace : (s : Text) → NoLeadingSpace s → trim_start s ≡ s
unfolding trim_start
trim_start_of_NoLeadingSpace [] h = refl
trim_start_of_NoLeadingSpace (c ∷ s) h = rw h

trim_end-NoLeadingSpace : (s : Text) → NoLeadingSpace s → NoLeadingSpace (trim_end s)
unfolding trim_end
trim_end-NoLeadingSpace [] h = tt
trim_end-NoLeadingSpace (c ∷ s) h = rw h h

trim_end_idem : (s : Text) → trim_end (trim_end s) ≡ trim_end s
unfolding trim_end
trim_end_idem [] = refl
trim_end_idem (c ∷ s) = ground (arith, trim_end_idem s)

-- Trimming twice is trimming once.
pub trim_idem : (s : Text) → trim (trim s) ≡ trim s
unfolding trim
trim_idem s =
    rw
      (trim_start_of_NoLeadingSpace (trim_end (trim_start s))
        (trim_end-NoLeadingSpace (trim_start s) (trim_start-NoLeadingSpace s)))
      (trim_end_idem (trim_start s))

collapse_from : Bool → Text → Text
collapse_from after [] = []
collapse_from after (c ∷ s) =
    let rest = collapse_from (is_space c) s in
    if is_space c then (if after then rest else 32 ∷ rest) else c ∷ rest

-- `s.replace(/\s+/g, " ")`
unfoldable pub collapse : Text → Text
unfolding collapse_from
collapse s = collapse_from false s

-- `s.replace(/\*/g, "")`
unfoldable pub without_stars : Text → Text
without_stars s = keep (λ c. not (eqb c b'*')) s

-- `s.includes(q)`
unfoldable pub includes : Text → Text → Bool
unfolding index_of
includes s q = is_some (index_of s q)

-- `s.split(/\s+/).filter(Boolean)`: `word` is what has been read of the current word, reversed
words_from : Text → Text → List Text
words_from word [] = if is_empty word then [] else reverse word ∷ []
words_from word (c ∷ s) =
    let closed = words_from [] s in
    let longer = words_from (c ∷ word) s in
    if is_space c then (if is_empty word then closed else reverse word ∷ closed) else longer

unfoldable pub words : Text → List Text
unfolding words_from
words s = words_from [] s

-- `parts.join(sep)`
abbrev pub join : Text → List Text → Text
join sep [] = []
join sep (p ∷ []) = p
join sep (p ∷ q ∷ ps) = p ++ sep ++ join sep (q ∷ ps)
