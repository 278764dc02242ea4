-- ===== src/Web/Notifications.antt =====
-- frontend/src/components/notifications-drawer.tsx: the list of the notifications and its groups.
use otclick_hh.Common.{
  All, Bool, Bool-cases, List, Option, Text, [], ap, append-nil, append_assoc, arith, eqb, false,
  if◌then◌else◌, inl, inr, keep, length, none, or_else, refl, some, suc, sym, take, true, zero, ℕ,
  ◌&&◌, ◌++◌, ◌∙◌, ◌∷◌, ◌≡◌, ◌≤◌,
}

-- `P` is the payload.
pub record NotificationRow {ℓ} (P : Type ℓ) : Type ℓ where
  pub id : Text
  pub type' : Text
  pub payload : P
  pub read' : Bool
  pub created_at : Text

-- `rows`, `none` before the first answer, and `error`
pub record Drawer {ℓ} (P : Type ℓ) : Type ℓ where
  pub rows : Option (List (NotificationRow P))
  pub error : Option Text

-- An answer of the backend: the rows, the latest 50 of them first, or an error.
pub data Loaded {ℓ} (P : Type ℓ) : Type ℓ where
  rejected : Text → Loaded P
  received : Option (List (NotificationRow P)) → Loaded P

abbrev pub max_rows : ℕ
max_rows = 50

pub data Event {ℓ} (P : Type ℓ) : Type ℓ where
  loading : Loaded P → Event P
  inserting : NotificationRow P → Event P
  clearing : Event P

length-take {ℓ} : {A : Type ℓ} (n : ℕ) (xs : List A) → length (take n xs) ≤ n
length-take zero [] = omega arith
length-take zero (x ∷ xs) = omega arith
length-take (suc n) [] = omega arith
length-take (suc n) (x ∷ xs) = let h = length-take n xs in omega arith

module _ {ℓ} {P : Type ℓ} where
  abbrev pub shown_rows : Drawer P → List (NotificationRow P)
  shown_rows s = or_else s.rows []

  -- `load` after its query
  unfoldable pub load : Loaded P → Drawer P → Drawer P
  load (rejected message) s = record s { error = some message }
  load (received data') s = record s { rows = some (or_else data' []) }

  -- the INSERT that the channel tells of
  unfoldable pub on_insert : NotificationRow P → Drawer P → Drawer P
  on_insert row s = record s { rows = some (take max_rows (row ∷ shown_rows s)) }

  -- `clearAll` once it is confirmed
  unfoldable pub clear_all : Drawer P → Drawer P
  clear_all s = record s { rows = some [] }

  unfoldable pub happen : Event P → Drawer P → Drawer P
  unfolding load on_insert clear_all
  happen (loading answer) s = load answer s
  happen (inserting row) s = on_insert row s
  happen clearing s = clear_all s

  unfoldable pub happen_all : List (Event P) → Drawer P → Drawer P
  unfolding happen
  happen_all [] s = s
  happen_all (e ∷ es) s = happen_all es (happen e s)

  -- the query has `limit(50)`
  abbrev pub IsLimited : Event P → Type 0
  IsLimited (loading (received (some data'))) = length data' ≤ max_rows
  IsLimited _ = Unit

  happen-bounded :
      (e : Event P) (s : Drawer P)
      → IsLimited e
      → length (shown_rows s) ≤ max_rows
      → length (shown_rows (happen e s)) ≤ max_rows
  unfolding happen load on_insert clear_all
  happen-bounded (loading (rejected message)) s l h = h
  happen-bounded (loading (received none)) s l h = omega arith
  happen-bounded (loading (received (some data'))) s l h = l
  happen-bounded (inserting row) s l h = length-take max_rows (row ∷ shown_rows s)
  happen-bounded clearing s l h = omega arith

  -- The drawer never lists more than 50 notifications, however many come in while it is open, when a
  -- query answers with at most 50.
  pub happen_all-bounded :
      (es : List (Event P)) (s : Drawer P)
      → All IsLimited es
      → length (shown_rows s) ≤ max_rows
      → length (shown_rows (happen_all es s)) ≤ max_rows
  unfolding happen_all
  happen_all-bounded [] s l h = h
  happen_all-bounded (e ∷ es) s (l, ls) h =
      happen_all-bounded es (happen e s) ls (happen-bounded e s l h)

-- A day of the calendar: year, month and day of the month.
pub record Date : Type 0 where
  pub year : ℕ
  pub month : ℕ
  pub day : ℕ

unfoldable pub same_day : Date → Date → Bool
same_day a b = eqb a.year b.year && eqb a.month b.month && eqb a.day b.day

pub data Bucket : Type 0 where
  today yesterday earlier : Bucket

abbrev pub same_bucket : Bucket → Bucket → Bool
same_bucket today today = true
same_bucket yesterday yesterday = true
same_bucket earlier earlier = true
same_bucket _ _ = false

-- `bucketLabel`, on the two days that the clock gives
unfoldable pub bucket_label : Date → Date → Date → Bucket
unfolding same_day
bucket_label now before d =
    if same_day d now then today else if same_day d before then yesterday else earlier

same_bucket_eq : (a b : Bucket) → same_bucket a b ≡ true → a ≡ b
same_bucket_eq today today h = refl
same_bucket_eq today yesterday h = ground arith
same_bucket_eq today earlier h = ground arith
same_bucket_eq yesterday today h = ground arith
same_bucket_eq yesterday yesterday h = refl
same_bucket_eq yesterday earlier h = ground arith
same_bucket_eq earlier today h = ground arith
same_bucket_eq earlier yesterday h = ground arith
same_bucket_eq earlier earlier h = refl

same_bucket_other :
    (k l b : Bucket) → same_bucket k l ≡ false → same_bucket k b ≡ true → same_bucket l b ≡ false
same_bucket_other k l b e f = elim (Bool-cases (same_bucket l b)) [
  | inl g ↦ let no : false ≡ true = sym (rw (same_bucket_eq l b g) at e) ∙ f in ground arith
  | inr g ↦ g
]

module _ {ℓ} {A : Type ℓ} (label : A → Bucket) where
  -- `groups.get(k) ?? []`, `push` and `set`: a group keeps its place
  unfoldable pub put : A → List (Bucket × List A) → List (Bucket × List A)
  put n [] = (label n, n ∷ []) ∷ []
  put n ((k, arr) ∷ groups) =
      let rest = put n groups in
      if same_bucket k (label n) then (k, arr ++ n ∷ []) ∷ groups else (k, arr) ∷ rest

  unfoldable pub group_into : List (Bucket × List A) → List A → List (Bucket × List A)
  unfolding put
  group_into groups [] = groups
  group_into groups (n ∷ rows) = group_into (put n groups) rows

  -- the rows of a group
  unfoldable pub group_of : Bucket → List (Bucket × List A) → List A
  group_of b [] = []
  group_of b ((k, arr) ∷ groups) =
      let rest = group_of b groups in if same_bucket k b then arr else rest

  group_of-put :
      (b : Bucket) (n : A) (groups : List (Bucket × List A))
      → group_of b (put n groups)
        ≡ group_of b groups ++ (if same_bucket (label n) b then n ∷ [] else [])
  unfolding put group_of
  group_of-put b n [] = elim (Bool-cases (same_bucket (label n) b)) [
    | inl e ↦ rw e refl
    | inr e ↦ rw e refl
  ]
  group_of-put b n ((k, arr) ∷ groups) = elim (Bool-cases (same_bucket k (label n))) [
    | inl e ↦
        let same = same_bucket_eq k (label n) e in
        elim (Bool-cases (same_bucket k b)) [
          | inl f ↦ let g : same_bucket (label n) b ≡ true = rw same at f in rw (e, f, g) refl
          | inr f ↦
              let g : same_bucket (label n) b ≡ false = rw same at f in
              rw (e, f, g) (sym (append-nil (group_of b groups)))
        ]
    | inr e ↦ elim (Bool-cases (same_bucket k b)) [
      | inl f ↦
          let other : same_bucket (label n) b ≡ false = same_bucket_other k (label n) b e f in
          rw (e, f, other) (sym (append-nil arr))
      | inr f ↦ rw (e, f) (group_of-put b n groups)
    ]
  ]

  group_of-group_into :
      (b : Bucket) (rows : List A) (groups : List (Bucket × List A))
      → group_of b (group_into groups rows)
        ≡ group_of b groups ++ keep (λ n. same_bucket (label n) b) rows
  unfolding group_into
  group_of-group_into b [] groups = sym (append-nil (group_of b groups))
  group_of-group_into b (n ∷ rows) groups =
      group_of-group_into b rows (put n groups)
      ∙ ap (λ ns. ns ++ keep (λ n. same_bucket (label n) b) rows) (group_of-put b n groups)
      ∙ added (group_of b groups) (same_bucket (label n) b)
          (keep (λ n. same_bucket (label n) b) rows)
    where
      added :
          (before : List A) (t : Bool) (after : List A)
          → (before ++ (if t then n ∷ [] else [])) ++ after
            ≡ before ++ (if t then n ∷ after else after)
      added before true after = append_assoc before (n ∷ []) after
      added before false after = rw (append-nil before) refl

  -- The groups of the drawer lose no notification and mix none: the group of a label lists just the
  -- rows with that label, in their order.
  pub group_of-rows :
      (b : Bucket) (rows : List A)
      → group_of b (group_into [] rows) ≡ keep (λ n. same_bucket (label n) b) rows
  unfolding group_of
  group_of-rows b rows = group_of-group_into b rows []
