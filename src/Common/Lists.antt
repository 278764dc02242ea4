-- ===== src/Common/Lists.antt =====
-- Lists measured and indexed by native numbers, the array methods that take a Boolean test, and
-- predicates by recursion on a list.
use Prim.Native.Nat.{ℕ, zero, suc, ◌+◌, ◌-◌, ◌≤◌}
use mathlib.Core.Path.{◌≡◌, refl, ap}
use mathlib.Core.Logic.{◌⊎◌, inl, inr}
use mathlib.Core.Bool.{Bool, true, false, ◌||◌}
use mathlib.Core.Option.{Option, none, some}
use mathlib.Core.List.{List, [], ◌∷◌, ◌++◌, map, Memᴰ, Sublistᴰ}
use native.Mathlib.Omega.{arith}
use native.Mathlib.Nat.{zero-add, add-zero, suc-add}
use otclick_hh.Common.Tests.{Bool-cases, if◌then◌else◌}

module _ {ℓ} {A : Type ℓ} where
  abbrev pub length : List A → ℕ
  length [] = 0
  length (x ∷ xs) = suc (length xs)

  abbrev pub drop : ℕ → List A → List A
  drop zero xs = xs
  drop (suc n) [] = []
  drop (suc n) (x ∷ xs) = drop n xs

  abbrev pub take : ℕ → List A → List A
  take zero xs = []
  take (suc n) [] = []
  take (suc n) (x ∷ xs) = x ∷ take n xs

  -- `xs.slice(-n)` for a positive `n`
  abbrev pub take_last : ℕ → List A → List A
  take_last n xs = drop (length xs - n) xs

  -- `xs.filter(p)`
  abbrev pub keep : (A → Bool) → List A → List A
  keep p [] = []
  keep p (x ∷ xs) = let rest = keep p xs in if p x then x ∷ rest else rest

  -- `xs.some(p)`
  abbrev pub any : (A → Bool) → List A → Bool
  any p [] = false
  any p (x ∷ xs) = p x || any p xs

  -- `xs.find(p)`
  abbrev pub find : (A → Bool) → List A → Option A
  find p [] = none
  find p (x ∷ xs) = let rest = find p xs in if p x then some x else rest

  abbrev pub is_empty_list : List A → Bool
  is_empty_list [] = true
  is_empty_list (x ∷ xs) = false

  abbrev pub head : List A → Option A
  head [] = none
  head (x ∷ xs) = some x

  pub length-append : (xs ys : List A) → length (xs ++ ys) ≡ length xs + length ys
  length-append [] ys = omega arith
  length-append (x ∷ xs) ys = omega (arith, length-append xs ys)

  pub length-drop : (n : ℕ) (xs : List A) → length (drop n xs) ≡ length xs - n
  length-drop zero xs = omega arith
  length-drop (suc n) [] = omega arith
  length-drop (suc n) (x ∷ xs) = omega (arith, length-drop n xs)

  pub length-keep : (p : A → Bool) (xs : List A) → length (keep p xs) ≤ length xs
  length-keep p [] = omega arith
  length-keep p (x ∷ xs) = ground (arith, length-keep p xs)

  pub drop_append : (xs ys : List A) → drop (length xs) (xs ++ ys) ≡ ys
  drop_append [] ys = refl
  drop_append (x ∷ xs) ys = drop_append xs ys

module _ {ℓ κ} {A : Type ℓ} (P : A → Type κ) where
  abbrev pub All : List A → Type κ
  All [] = Unit
  All (x ∷ xs) = P x × All xs

  pub All-append : (xs ys : List A) → All xs → All ys → All (xs ++ ys)
  All-append [] ys h k = k
  All-append (x ∷ xs) ys (p, h) k = (p, All-append xs ys h k)

  pub All-drop : (n : ℕ) (xs : List A) → All xs → All (drop n xs)
  All-drop zero xs h = h
  All-drop (suc n) [] h = tt
  All-drop (suc n) (x ∷ xs) (p, h) = All-drop n xs h

pub All-map_pred {ℓ κ ν} :
    {A : Type ℓ} (P : A → Type κ) (Q : A → Type ν)
    → ((x : A) → P x → Q x)
    → (xs : List A) → All P xs
    → All Q xs
All-map_pred P Q f [] h = tt
All-map_pred P Q f (x ∷ xs) (p, h) = (f x p, All-map_pred P Q f xs h)

module _ {ℓ} {A : Type ℓ} where
  pub Sublistᴰ-length : {xs ys : List A} → Sublistᴰ xs ys → length xs ≤ length ys
  Sublistᴰ-length Sublistᴰ.slnil = omega arith
  Sublistᴰ-length (Sublistᴰ.cons s) = omega (arith, Sublistᴰ-length s)
  Sublistᴰ-length (Sublistᴰ.cons-cons e s) = omega (arith, Sublistᴰ-length s)

  pub Sublistᴰ-refl : (xs : List A) → Sublistᴰ xs xs
  Sublistᴰ-refl [] = Sublistᴰ.slnil
  Sublistᴰ-refl (x ∷ xs) = Sublistᴰ.cons-cons refl (Sublistᴰ-refl xs)

  pub Sublistᴰ-drop : (n : ℕ) (xs : List A) → Sublistᴰ (drop n xs) xs
  Sublistᴰ-drop zero xs = Sublistᴰ-refl xs
  Sublistᴰ-drop (suc n) [] = Sublistᴰ.slnil
  Sublistᴰ-drop (suc n) (x ∷ xs) = Sublistᴰ.cons (Sublistᴰ-drop n xs)

  pub Sublistᴰ-All {κ} : (P : A → Type κ) {xs ys : List A} → Sublistᴰ xs ys → All P ys → All P xs
  Sublistᴰ-All P Sublistᴰ.slnil h = tt
  Sublistᴰ-All P (Sublistᴰ.cons s) (p, h) = Sublistᴰ-All P s h
  Sublistᴰ-All P (Sublistᴰ.cons-cons e s) (p, h) = (rw e p, Sublistᴰ-All P s h)

  pub Memᴰ-All {κ} : (P : A → Type κ) (a : A) (xs : List A) → All P xs → Memᴰ a xs → P a
  Memᴰ-All P a [] h m = elim m [ ]
  Memᴰ-All P a (x ∷ xs) (p, h) (Memᴰ.head e) = rw e p
  Memᴰ-All P a (x ∷ xs) (p, h) (Memᴰ.tail m) = Memᴰ-All P a xs h m

  pub All-of_Memᴰ {κ} : (P : A → Type κ) (xs : List A) → ((a : A) → Memᴰ a xs → P a) → All P xs
  All-of_Memᴰ P [] h = tt
  All-of_Memᴰ P (x ∷ xs) h = (h x (Memᴰ.head refl), All-of_Memᴰ P xs (λ a m. h a (Memᴰ.tail m)))

  pub Memᴰ-append_left : (a : A) (xs ys : List A) → Memᴰ a xs → Memᴰ a (xs ++ ys)
  Memᴰ-append_left a [] ys m = elim m [ ]
  Memᴰ-append_left a (x ∷ xs) ys (Memᴰ.head e) = Memᴰ.head e
  Memᴰ-append_left a (x ∷ xs) ys (Memᴰ.tail m) = Memᴰ.tail (Memᴰ-append_left a xs ys m)

  pub Memᴰ-append_right : (a : A) (xs ys : List A) → Memᴰ a ys → Memᴰ a (xs ++ ys)
  Memᴰ-append_right a [] ys m = m
  Memᴰ-append_right a (x ∷ xs) ys m = Memᴰ.tail (Memᴰ-append_right a xs ys m)

  pub All-keep : (p : A → Bool) (xs : List A) → All (λ x. p x ≡ true) (keep p xs)
  All-keep p [] = tt
  All-keep p (x ∷ xs) = elim (Bool-cases (p x)) [
    | inl e ↦ rw e (e, All-keep p xs)
    | inr e ↦ rw e (All-keep p xs)
  ]

  pub Sublistᴰ-keep : (p : A → Bool) (xs : List A) → Sublistᴰ (keep p xs) xs
  Sublistᴰ-keep p [] = Sublistᴰ.slnil
  Sublistᴰ-keep p (x ∷ xs) = elim (Bool-cases (p x)) [
    | inl e ↦ rw e (Sublistᴰ.cons-cons refl (Sublistᴰ-keep p xs))
    | inr e ↦ rw e (Sublistᴰ.cons (Sublistᴰ-keep p xs))
  ]

  pub keep-All : (p : A → Bool) (xs : List A) → All (λ x. p x ≡ true) xs → keep p xs ≡ xs
  keep-All p [] h = refl
  keep-All p (x ∷ xs) (e, h) = rw (e, keep-All p xs h)

pub length-map {ℓ κ} :
    {A : Type ℓ} {B : Type κ} (f : A → B) (xs : List A) → length (map f xs) ≡ length xs
length-map f [] = refl
length-map f (x ∷ xs) = ap suc (length-map f xs)

-- What `find` returns is the first element that passes.
pub find-eq-some {ℓ} :
    {A : Type ℓ} (p : A → Bool) (xs : List A) (a : A)
    → find p xs ≡ some a
    → (before after : List A) × (xs ≡ before ++ a ∷ after)
      × All (λ x. p x ≡ false) before
      × (p a ≡ true)
find-eq-some p [] a h = cc
find-eq-some p (x ∷ xs) a h = elim (Bool-cases (p x)) [
  | inl e ↦ let same : x ≡ a = ground arith in ([], xs, ap (λ y. y ∷ xs) same, tt, rw same at e)
  | inr e ↦
      let (before, after, split, missed, passes) = find-eq-some p xs a (rw e at h) in
      (x ∷ before, after, ap (λ ys. x ∷ ys) split, (e, missed), passes)
]

module _ {ℓ} {B : Type ℓ} where
  pub Memᴰ-of_append : (b : B) (xs ys : List B) → Memᴰ b (xs ++ ys) → Memᴰ b xs ⊎ Memᴰ b ys
  Memᴰ-of_append b [] ys m = inr m
  Memᴰ-of_append b (x ∷ xs) ys (Memᴰ.head e) = inl (Memᴰ.head e)
  Memᴰ-of_append b (x ∷ xs) ys (Memᴰ.tail m) = elim (Memᴰ-of_append b xs ys m) [
    | inl h ↦ inl (Memᴰ.tail h)
    | inr h ↦ inr h
  ]

module _ {ℓ κ} {A : Type ℓ} {B : Type κ} where
  -- `out.push(...f(x))` for each `x`
  abbrev pub concat_map : (A → List B) → List A → List B
  concat_map f [] = []
  concat_map f (x ∷ xs) = f x ++ concat_map f xs

  pub Memᴰ-concat_map :
      (f : A → List B) (b : B) (a : A) (xs : List A)
      → Memᴰ a xs
      → Memᴰ b (f a)
      → Memᴰ b (concat_map f xs)
  Memᴰ-concat_map f b a [] m k = elim m [ ]
  Memᴰ-concat_map f b a (x ∷ xs) (Memᴰ.head e) k =
      Memᴰ-append_left b (f x) (concat_map f xs) (rw (← e) k)
  Memᴰ-concat_map f b a (x ∷ xs) (Memᴰ.tail m) k =
      Memᴰ-append_right b (f x) (concat_map f xs) (Memᴰ-concat_map f b a xs m k)

  pub Memᴰ-of_concat_map :
      (f : A → List B) (b : B) (xs : List A)
      → Memᴰ b (concat_map f xs)
      → (a : A) × Memᴰ a xs × Memᴰ b (f a)
  Memᴰ-of_concat_map f b [] m = elim m [ ]
  Memᴰ-of_concat_map f b (x ∷ xs) m = elim (Memᴰ-of_append b (f x) (concat_map f xs) m) [
    | inl h ↦ (x, Memᴰ.head refl, h)
    | inr h ↦ let (a, i, k) = Memᴰ-of_concat_map f b xs h in (a, Memᴰ.tail i, k)
  ]

module _ {ℓ} {A : Type ℓ} where
  pub drop-append_of_le :
      (k : ℕ) (xs ys : List A) → k ≤ length xs → drop k (xs ++ ys) ≡ drop k xs ++ ys
  drop-append_of_le zero xs ys h = refl
  drop-append_of_le (suc k) [] ys h = absurd (omega arith)
  drop-append_of_le (suc k) (x ∷ xs) ys h = drop-append_of_le k xs ys (omega arith)

  pub drop-drop : (i j : ℕ) (xs : List A) → drop i (drop j xs) ≡ drop (j + i) xs
  drop-drop i zero xs = rw zero-add refl
  drop-drop zero (suc j) [] = rw add-zero refl
  drop-drop (suc i) (suc j) [] = rw suc-add refl
  drop-drop i (suc j) (x ∷ xs) = rw suc-add (drop-drop i j xs)

  pub take_last-of_append :
      (n : ℕ) (xs ys : List A) → take_last n (take_last n xs ++ ys) ≡ take_last n (xs ++ ys)
  take_last-of_append n xs ys =
      let k = length xs - n in
      rw (← drop-append_of_le k xs ys (omega arith), drop-drop)
        (ap (λ i. drop i (xs ++ ys)) (omega (arith, length-drop k (xs ++ ys), length-append xs ys)))

  pub take_last-all : (n : ℕ) (xs : List A) → length xs ≤ n → take_last n xs ≡ xs
  take_last-all n xs h = let e : length xs - n ≡ 0 = omega arith in rw e refl
