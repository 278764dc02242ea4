-- ===== src/Web/Collections.antt =====
-- frontend/src/hooks/useFilters.ts and useBlacklist.ts: the lists of the account, kept in step with
-- the backend. `F` is a filter or an entry without its id.
use otclick_hh.Common.{
  All, Bool-cases, List, Option, Option-cases, Text, [], false, if◌then◌else◌, inl, inr, keep, map,
  none, not, some, text_eq, ◌∷◌, ◌≡◌,
}

pub record Row {ℓ} (F : Type ℓ) : Type ℓ where
  pub id : Text
  pub rest : F

-- `items`, `none` before the first answer, and `error`
pub record Collection {ℓ} (F : Type ℓ) : Type ℓ where
  pub items : Option (List (Row F))
  pub error : Option Text

-- An answer of the backend, or the message of the exception.
pub data Answer {ℓ} (A : Type ℓ) : Type ℓ where
  failed : Text → Answer A
  answered : A → Answer A

-- What can happen to the blacklist: its list comes, an entry is added, or one is removed.
pub data Event {ℓ} (F : Type ℓ) : Type ℓ where
  loading : Answer (List (Row F)) → Event F
  adding : Answer (Row F) → Event F
  removing : Text → Answer (Unit {0}) → Event F

module _ {ℓ} {F : Type ℓ} where
  abbrev pub unloaded : Collection F
  unloaded = record { items = none; error = none }

  abbrev pub without_id : Text → List (Row F) → List (Row F)
  without_id id rows = keep (λ e. not (text_eq e.id id)) rows

  abbrev pub rows_of : Option (List (Row F)) → List (Row F)
  rows_of none = []
  rows_of (some rows) = rows

  -- `load` in both hooks
  unfoldable pub load : Answer (List (Row F)) → Collection F → Collection F
  load (failed message) s = record s { error = some message }
  load (answered data') s = record s { items = some data' }

  -- `create` of `useFilters`; an exception goes to the caller
  unfoldable pub create : Answer (Row F) → Collection F → Collection F
  create (failed message) s = s
  create (answered row) s = record s { items = some (row ∷ rows_of s.items) }

  -- `update` of `useFilters`
  unfoldable pub update : Text → Answer (Row F) → Collection F → Collection F
  update id (failed message) s = s
  update id (answered row) s = record s {
    items = elim s.items [
      | none ↦ none
      | some rows ↦ some (map (λ f. if text_eq f.id id then row else f) rows)
    ];
  }

  -- `add` of `useBlacklist`
  unfoldable pub add : Answer (Row F) → Collection F → Collection F
  add (failed message) s = s
  add (answered row) s = record s { items = some (row ∷ without_id row.id (rows_of s.items)) }

  -- `remove` in both hooks
  unfoldable pub remove : Text → Answer (Unit {0}) → Collection F → Collection F
  remove id (failed message) s = s
  remove id (answered done) s = record s {
    items = elim s.items [ none ↦ none | some rows ↦ some (without_id id rows) ];
  }

  -- no two rows with one id
  abbrev pub HasDistinctIds : List (Row F) → Type 0
  HasDistinctIds [] = Unit
  HasDistinctIds (r ∷ rows) = All (λ e. text_eq e.id r.id ≡ false) rows × HasDistinctIds rows

  without_id-All :
      (id : Text) (P : Row F → Type 0) (rows : List (Row F))
      → All P rows
      → All P (without_id id rows)
  without_id-All id P [] h = tt
  without_id-All id P (r ∷ rows) (h, hs) = elim (Bool-cases (text_eq r.id id)) [
    | inl e ↦ rw e (without_id-All id P rows hs)
    | inr e ↦ rw e (h, without_id-All id P rows hs)
  ]

  without_id-HasDistinctIds :
      (id : Text) (rows : List (Row F)) → HasDistinctIds rows → HasDistinctIds (without_id id rows)
  without_id-HasDistinctIds id [] h = tt
  without_id-HasDistinctIds id (r ∷ rows) (h, hs) = elim (Bool-cases (text_eq r.id id)) [
    | inl e ↦ rw e (without_id-HasDistinctIds id rows hs)
    | inr e ↦ rw e (
      without_id-All id (λ x. text_eq x.id r.id ≡ false) rows h,
      without_id-HasDistinctIds id rows hs,
    )
  ]

  without_id-gone :
      (id : Text) (rows : List (Row F)) → All (λ e. text_eq e.id id ≡ false) (without_id id rows)
  without_id-gone id [] = tt
  without_id-gone id (r ∷ rows) = elim (Bool-cases (text_eq r.id id)) [
    | inl e ↦ rw e (without_id-gone id rows)
    | inr e ↦ rw e (e, without_id-gone id rows)
  ]

  unfoldable pub happen : Event F → Collection F → Collection F
  unfolding load add remove
  happen (loading answer) s = load answer s
  happen (adding answer) s = add answer s
  happen (removing id answer) s = remove id answer s

  unfoldable pub happen_all : List (Event F) → Collection F → Collection F
  unfolding happen
  happen_all [] s = s
  happen_all (e ∷ es) s = happen_all es (happen e s)

  -- the backend lists no entry twice
  abbrev pub IsListing : Event F → Type 0
  IsListing (loading (answered rows)) = HasDistinctIds rows
  IsListing _ = Unit

  happen-HasDistinctIds :
      (e : Event F) (s : Collection F)
      → IsListing e
      → HasDistinctIds (rows_of s.items)
      → HasDistinctIds (rows_of (happen e s).items)
  unfolding happen load add remove
  happen-HasDistinctIds (loading (failed message)) s l h = h
  happen-HasDistinctIds (loading (answered rows)) s l h = l
  happen-HasDistinctIds (adding (failed message)) s l h = h
  happen-HasDistinctIds (adding (answered row)) s l h = (
    without_id-gone row.id (rows_of s.items),
    without_id-HasDistinctIds row.id (rows_of s.items) h,
  )
  happen-HasDistinctIds (removing id (failed message)) s l h = h
  happen-HasDistinctIds (removing id (answered done)) s l h = elim (Option-cases s.items) [
    | inl e ↦ rw e tt
    | inr (rows, e) ↦ rw e (without_id-HasDistinctIds id rows (rw e at h))
  ]

  happen_all-kept :
      (es : List (Event F)) (s : Collection F)
      → All IsListing es
      → HasDistinctIds (rows_of s.items)
      → HasDistinctIds (rows_of (happen_all es s).items)
  unfolding happen_all
  happen_all-kept [] s l h = h
  happen_all-kept (e ∷ es) s (l, ls) h =
      happen_all-kept es (happen e s) ls (happen-HasDistinctIds e s l h)

  -- The blacklist never shows an entry twice, also when one is added again, as long as the backend
  -- lists none twice.
  pub happen_all-HasDistinctIds :
      (es : List (Event F))
      → All IsListing es
      → HasDistinctIds (rows_of (happen_all es unloaded).items)
  happen_all-HasDistinctIds es l = happen_all-kept es unloaded l tt
