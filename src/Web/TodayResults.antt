-- ===== src/Web/TodayResults.antt =====
-- frontend/src/app/(app)/dashboard/today-results-card.tsx: the applications of the last nine hours.
use otclick_hh.Common.{
  Bool, Bool-cases, List, Text, [], any, arith, eqb, false, if◌then◌else◌, inl, inr, is_word, refl,
  suc, true, zero, ℕ, ◌%◌, ◌&&◌, ◌+◌, ◌-◌, ◌||◌, ◌∙◌, ◌∷◌, ◌≡◌,
}

pub record HourBucket : Type 0 where
  pub h : ℕ
  pub sent : ℕ
  pub capt : ℕ

-- A row, with the hour of `created_at` on the local clock.
pub record Row : Type 0 where
  pub hour : ℕ
  pub status : Text

-- the buckets from `i` hours ago until `now`, on a day whose clock is not changed
unfoldable pub hours_since : ℕ → ℕ → List HourBucket
hours_since now zero = record { h = now % 24; sent = 0; capt = 0 } ∷ []
hours_since now (suc i) =
    record { h = (now + 24 - suc i) % 24; sent = 0; capt = 0 } ∷ hours_since now i

abbrev pub is_sent : Row → Bool
is_sent row = is_word row.status "sent" || is_word row.status "form_sent"

abbrev pub credited : Row → HourBucket → HourBucket
credited row b =
    if is_sent row
    then record b { sent = b.sent + 1 }
    else if is_word row.status "captcha"
    then record b { capt = b.capt + 1 }
    else b

-- one round of the loop over the rows
unfoldable pub count_row : Row → List HourBucket → List HourBucket
count_row row [] = []
count_row row (b ∷ bs) =
    let rest = count_row row bs in if eqb b.h row.hour then credited row b ∷ bs else b ∷ rest

unfoldable pub count_rows : List Row → List HourBucket → List HourBucket
unfolding count_row
count_rows [] bs = bs
count_rows (row ∷ rows) bs = count_rows rows (count_row row bs)

-- `buildHours`; `now` is `now.getHours()`
unfoldable pub build_hours : ℕ → List Row → List HourBucket
unfolding hours_since count_rows
build_hours now rows = count_rows rows (hours_since now 8)

-- `captchaCount`
unfoldable pub captcha_count : List HourBucket → ℕ
captcha_count [] = 0
captcha_count (b ∷ bs) = b.capt + captcha_count bs

-- the number that the chart shows for an hour, and whether it shows the hour
unfoldable pub sent_at : ℕ → List HourBucket → ℕ
sent_at h [] = 0
sent_at h (b ∷ bs) = if eqb b.h h then b.sent else sent_at h bs

unfoldable pub shows : ℕ → List HourBucket → Bool
shows h bs = any (λ b. eqb b.h h) bs

count_row-shows :
    (row : Row) (h : ℕ) (bs : List HourBucket) → shows h (count_row row bs) ≡ shows h bs
unfolding shows count_row
count_row-shows row h [] = refl
count_row-shows row h (b ∷ bs) = elim (Bool-cases (eqb b.h row.hour)) [
  | inl e ↦ rw e (elim (Bool-cases (is_sent row)) [
    | inl s ↦ rw s refl
    | inr s ↦ elim (Bool-cases (is_word row.status "captcha")) [
      | inl c ↦ rw (s, c) refl
      | inr c ↦ rw (s, c) refl
    ]
  ])
  | inr e ↦ rw (e, count_row-shows row h bs) refl
]

-- the sent rows of an hour
unfoldable pub sent_in : ℕ → List Row → ℕ
sent_in h [] = 0
sent_in h (row ∷ rows) =
    if is_sent row && eqb row.hour h then 1 + sent_in h rows else sent_in h rows

abbrev one_if : Bool → ℕ
one_if true = 1
one_if false = 0

credited-h : (row : Row) (b : HourBucket) → (credited row b).h ≡ b.h
credited-h row b = elim (Bool-cases (is_sent row)) [
  | inl s ↦ rw s refl
  | inr s ↦ elim (Bool-cases (is_word row.status "captcha")) [
    | inl c ↦ rw (s, c) refl
    | inr c ↦ rw (s, c) refl
  ]
]

credited-sent : (row : Row) (b : HourBucket) → (credited row b).sent ≡ b.sent + one_if (is_sent row)
credited-sent row b = elim (Bool-cases (is_sent row)) [
  | inl s ↦ rw s refl
  | inr s ↦ elim (Bool-cases (is_word row.status "captcha")) [
    | inl c ↦ rw (s, c) (omega arith)
    | inr c ↦ rw (s, c) (omega arith)
  ]
]

sent_at-here :
    (h : ℕ) (b : HourBucket) (bs : List HourBucket) → eqb b.h h ≡ true → sent_at h (b ∷ bs) ≡ b.sent
unfolding sent_at
sent_at-here h b bs e = rw e refl

sent_at-later :
    (h : ℕ) (b : HourBucket) (bs : List HourBucket)
    → eqb b.h h ≡ false
    → sent_at h (b ∷ bs) ≡ sent_at h bs
unfolding sent_at
sent_at-later h b bs e = rw e refl

elsewhere :
    (row : Row) (h n : ℕ) → eqb row.hour h ≡ false → n ≡ n + one_if (is_sent row && eqb row.hour h)
elsewhere row h n e = elim (Bool-cases (is_sent row)) [
  | inl s ↦ rw (e, s) (omega arith)
  | inr s ↦ rw (e, s) (omega arith)
]

count_row-sent_at :
    (row : Row) (h : ℕ) (bs : List HourBucket)
    → shows h bs ≡ true
    → sent_at h (count_row row bs) ≡ sent_at h bs + one_if (is_sent row && eqb row.hour h)
unfolding shows count_row
count_row-sent_at row h [] shown = ground arith
count_row-sent_at row h (b ∷ bs) shown = elim (Bool-cases (eqb b.h row.hour)) [
  | inl e ↦ elim (Bool-cases (eqb b.h h)) [
    | inl f ↦
        let here : eqb (credited row b).h h ≡ true = rw (credited-h row b) f in
        let same : eqb row.hour h ≡ true = ground arith in
        rw
          (
            e,
            sent_at-here h (credited row b) bs here,
            sent_at-here h b bs f,
            same,
            credited-sent row b,
          )
          (elim (Bool-cases (is_sent row)) [ inl s ↦ rw s refl | inr s ↦ rw s refl ])
    | inr f ↦
        let later : eqb (credited row b).h h ≡ false = rw (credited-h row b) f in
        let other : eqb row.hour h ≡ false = ground arith in
        rw (e, sent_at-later h (credited row b) bs later, sent_at-later h b bs f)
          (elsewhere row h (sent_at h bs) other)
  ]
  | inr e ↦ elim (Bool-cases (eqb b.h h)) [
    | inl f ↦
        let other : eqb row.hour h ≡ false = ground arith in
        rw (e, sent_at-here h b (count_row row bs) f, sent_at-here h b bs f)
          (elsewhere row h b.sent other)
    | inr f ↦
        rw (e, sent_at-later h b (count_row row bs) f, sent_at-later h b bs f)
          (count_row-sent_at row h bs (rw f at shown))
  ]
]

count_rows-sent_at :
    (rows : List Row) (h : ℕ) (bs : List HourBucket)
    → shows h bs ≡ true
    → sent_at h (count_rows rows bs) ≡ sent_at h bs + sent_in h rows
unfolding count_rows sent_in
count_rows-sent_at [] h bs shown = omega arith
count_rows-sent_at (row ∷ rows) h bs shown =
    let step = count_row-sent_at row h bs shown in
    let rest = count_rows-sent_at rows h (count_row row bs) (count_row-shows row h bs ∙ shown) in
    elim (Bool-cases (is_sent row && eqb row.hour h)) [
      | inl c ↦ rw (rest, step, c) (omega arith)
      | inr c ↦ rw (rest, step, c) (omega arith)
    ]

hours_since-sent_at : (now i h : ℕ) → sent_at h (hours_since now i) ≡ 0
unfolding hours_since sent_at
hours_since-sent_at now zero h = elim (Bool-cases (eqb (now % 24) h)) [
  | inl e ↦ rw e refl
  | inr e ↦ rw e refl
]
hours_since-sent_at now (suc i) h = elim (Bool-cases (eqb ((now + 24 - suc i) % 24) h)) [
  | inl e ↦ rw e refl
  | inr e ↦ rw e (hours_since-sent_at now i h)
]

-- For every hour that the chart shows, its number is that of the rows of the hour that were sent,
-- with or without a form.
pub build_hours-sent_at :
    (now h : ℕ) (rows : List Row)
    → shows h (hours_since now 8) ≡ true
    → sent_at h (build_hours now rows) ≡ sent_in h rows
unfolding build_hours
build_hours-sent_at now h rows shown =
    rw (count_rows-sent_at rows h (hours_since now 8) shown, hours_since-sent_at now 8 h)
      (omega arith)
