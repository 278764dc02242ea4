-- ===== src/Web/ActivityCalendar.antt =====
-- frontend/src/app/(app)/dashboard/activity-calendar.tsx: the applications of each day of the month.
use otclick_hh.Common.{
  Bool-cases, List, [], arith, eqb, false, if◌then◌else◌, inl, inr, ltb, refl, suc, true, zero, ℕ,
  ◌+◌, ◌∙◌, ◌∷◌, ◌≡◌,
}

-- `Map.get` and `Map.set` on days
unfoldable pub count_at : ℕ → List (ℕ × ℕ) → ℕ
count_at d [] = 0
count_at d ((k, n) ∷ m) = let rest = count_at d m in if eqb k d then n else rest

unfoldable pub set_count : ℕ → ℕ → List (ℕ × ℕ) → List (ℕ × ℕ)
set_count d c [] = (d, c) ∷ []
set_count d c ((k, n) ∷ m) =
    let rest = set_count d c m in if eqb k d then (k, c) ∷ m else (k, n) ∷ rest

-- the loop over the rows, whose days are given: the map and the greatest count
unfoldable pub tally : List ℕ → List (ℕ × ℕ) → ℕ → List (ℕ × ℕ) × ℕ
unfolding count_at set_count
tally [] m mx = (m, mx)
tally (d ∷ days) m mx =
    let next = count_at d m + 1 in
    tally days (set_count d next m) (if ltb mx next then next else mx)

-- `cells`
unfoldable pub cells_from : ℕ → ℕ → List ℕ
cells_from i zero = []
cells_from i (suc n) = (i + 1) ∷ cells_from (suc i) n

abbrev pub cells : ℕ → List ℕ
cells days_in_month = cells_from 0 days_in_month

-- the rows of a day
unfoldable pub rows_of : ℕ → List ℕ → ℕ
rows_of d [] = 0
rows_of d (x ∷ days) = let rest = rows_of d days in if eqb x d then 1 + rest else rest

count_at-set_count :
    (d c e : ℕ) (m : List (ℕ × ℕ))
    → count_at e (set_count d c m) ≡ (if eqb d e then c else count_at e m)
unfolding count_at set_count
count_at-set_count d c e [] = refl
count_at-set_count d c e ((k, n) ∷ m) = elim (Bool-cases (eqb k d)) [
  | inl a ↦ elim (Bool-cases (eqb d e)) [
    | inl b ↦ let here : eqb k e ≡ true = ground arith in rw (a, b, here) refl
    | inr b ↦ let other : eqb k e ≡ false = ground arith in rw (a, b, other) refl
  ]
  | inr a ↦ elim (Bool-cases (eqb k e)) [
    | inl b ↦ let other : eqb d e ≡ false = ground arith in rw (a, b, other) refl
    | inr b ↦ rw (a, b) (count_at-set_count d c e m)
  ]
]

tally-count_at :
    (days : List ℕ) (m : List (ℕ × ℕ)) (mx e : ℕ)
    → count_at e (tally days m mx).0 ≡ count_at e m + rows_of e days
unfolding tally rows_of
tally-count_at [] m mx e = omega arith
tally-count_at (d ∷ days) m mx e =
    let next = count_at d m + 1 in
    let step = count_at-set_count d next e m in
    let rest = tally-count_at days (set_count d next m) (if ltb mx next then next else mx) e in
    elim (Bool-cases (eqb d e)) [
      | inl a ↦
          let same : d ≡ e = ground arith in
          let now : count_at e (set_count d next m) ≡ count_at e m + 1 =
            (step ∙ rw (a, same) refl) in
          rw (rest, now, a) (omega arith)
      | inr a ↦
          let now : count_at e (set_count d next m) ≡ count_at e m = (step ∙ rw a refl) in
          rw (rest, now, a) refl
    ]

-- The calendar counts for every day just the rows of that day.
pub tally-rows_of : (days : List ℕ) (e : ℕ) → count_at e (tally days [] 0).0 ≡ rows_of e days
unfolding count_at
tally-rows_of days e = rw (tally-count_at days [] 0 e) (omega arith)
