-- ===== src/Web/Vacancies/Tabs.antt =====
-- frontend/src/app/(app)/vacancies/page.tsx: what a decision leaves in the tab.
use otclick_hh.Common.{
  All, Bool-cases, List, Memᴰ, Sublistᴰ-All, Sublistᴰ-keep, Text, [], false, inl, inr, keep, none,
  not, refl, some, text_eq, text_eq_refl, true, ◌∷◌, ◌≡◌, ◌⊎◌,
}
use otclick_hh.Web.Vacancies.{
  Action, Tab, VacanciesPage, Vacancy, answered, archive, closes_reason, decide, failed, hold,
  is_in_tab, reject, remove_if_leaves, replace_row, review, rows_of, select, tab_of,
}

module _ {ℓ} {D : Type ℓ} where
  abbrev pub AreInTab : Tab → List (Vacancy D) → Type 0
  AreInTab t rows = All (λ v. is_in_tab t v.status ≡ true) rows

  replace_row-AreInTab :
      (t : Tab) (next : Vacancy D) (rows : List (Vacancy D))
      → is_in_tab t next.status ≡ true
      → AreInTab t rows
      → AreInTab t (replace_row next rows)
  unfolding replace_row
  replace_row-AreInTab t next [] n h = tt
  replace_row-AreInTab t next (v ∷ rows) n (h, hs) = elim (Bool-cases (text_eq v.id next.id)) [
    | inl e ↦ rw e (n, replace_row-AreInTab t next rows n hs)
    | inr e ↦ rw e (h, replace_row-AreInTab t next rows n hs)
  ]

  removed-AreInTab :
      (t : Tab) (next : Vacancy D) (rows : List (Vacancy D))
      → AreInTab t rows
      → AreInTab t (keep (λ row. not (text_eq row.id next.id)) (replace_row next rows))
  unfolding replace_row
  removed-AreInTab t next [] h = tt
  removed-AreInTab t next (v ∷ rows) (h, hs) = elim (Bool-cases (text_eq v.id next.id)) [
    | inl e ↦ rw (e, text_eq_refl next.id) (removed-AreInTab t next rows hs)
    | inr e ↦ rw (e, e) (h, removed-AreInTab t next rows hs)
  ]

  remove_if_leaves-AreInTab :
      (t : Tab) (next : Vacancy D) (rows : List (Vacancy D))
      → AreInTab t rows
      → AreInTab t (remove_if_leaves t next (replace_row next rows))
  unfolding remove_if_leaves
  remove_if_leaves-AreInTab t next rows h = elim (Bool-cases (is_in_tab t next.status)) [
    | inl e ↦ rw e (replace_row-AreInTab t next rows e h)
    | inr e ↦ rw e (removed-AreInTab t next rows h)
  ]

  closes_reason-rows :
      (action : Action) (s : VacanciesPage D)
      → ((closes_reason action s).rows ≡ s.rows)
        × ((closes_reason action s).selected_ids ≡ s.selected_ids)
        × ((closes_reason action s).tab_id ≡ s.tab_id)
  closes_reason-rows select s = (refl, refl, refl)
  closes_reason-rows reject s = (refl, refl, refl)
  closes_reason-rows hold s = (refl, refl, refl)
  closes_reason-rows review s = (refl, refl, refl)
  closes_reason-rows archive s = (refl, refl, refl)

  -- A row is the answer, or another vacancy's.
  abbrev pub IsFresh : Vacancy D → Vacancy D → Type ℓ
  IsFresh next v = (text_eq v.id next.id ≡ false) ⊎ (v ≡ next)

  replace_row-IsFresh :
      (next : Vacancy D) (rows : List (Vacancy D)) → All (IsFresh next) (replace_row next rows)
  unfolding replace_row
  replace_row-IsFresh next [] = tt
  replace_row-IsFresh next (v ∷ rows) = elim (Bool-cases (text_eq v.id next.id)) [
    | inl e ↦ rw e (inr refl, replace_row-IsFresh next rows)
    | inr e ↦ rw e (inl e, replace_row-IsFresh next rows)
  ]

  remove_if_leaves-IsFresh :
      (t : Tab) (next : Vacancy D) (rows : List (Vacancy D))
      → All (IsFresh next) (remove_if_leaves t next (replace_row next rows))
  unfolding remove_if_leaves
  remove_if_leaves-IsFresh t next rows = elim (Bool-cases (is_in_tab t next.status)) [
    | inl e ↦ rw e (replace_row-IsFresh next rows)
    | inr e ↦ rw e (
        Sublistᴰ-All (IsFresh next)
          (Sublistᴰ-keep (λ row. not (text_eq row.id next.id)) (replace_row next rows))
          (replace_row-IsFresh next rows))
  ]

  replace_row-keeps :
      (next v : Vacancy D) (rows : List (Vacancy D))
      → text_eq v.id next.id ≡ false
      → Memᴰ v rows
      → Memᴰ v (replace_row next rows)
  unfolding replace_row
  replace_row-keeps next v [] h m = elim m [ ]
  replace_row-keeps next v (r ∷ rows) h (Memᴰ.head e) = rw (← e, h) (Memᴰ.head refl)
  replace_row-keeps next v (r ∷ rows) h (Memᴰ.tail m) =
      Memᴰ.tail (replace_row-keeps next v rows h m)

  Memᴰ-keep :
      (next v : Vacancy D) (rows : List (Vacancy D))
      → text_eq v.id next.id ≡ false
      → Memᴰ v rows
      → Memᴰ v (keep (λ row. not (text_eq row.id next.id)) rows)
  Memᴰ-keep next v [] h m = elim m [ ]
  Memᴰ-keep next v (r ∷ rows) h (Memᴰ.head e) = rw (← e, h) (Memᴰ.head refl)
  Memᴰ-keep next v (r ∷ rows) h (Memᴰ.tail m) = elim (Bool-cases (text_eq r.id next.id)) [
    | inl e ↦ rw e (Memᴰ-keep next v rows h m)
    | inr e ↦ rw e (Memᴰ.tail (Memᴰ-keep next v rows h m))
  ]

  remove_if_leaves-keeps :
      (t : Tab) (next v : Vacancy D) (rows : List (Vacancy D))
      → text_eq v.id next.id ≡ false
      → Memᴰ v rows
      → Memᴰ v (remove_if_leaves t next (replace_row next rows))
  unfolding remove_if_leaves
  remove_if_leaves-keeps t next v rows h m = elim (Bool-cases (is_in_tab t next.status)) [
    | inl e ↦ rw e (replace_row-keeps next v rows h m)
    | inr e ↦ rw e (Memᴰ-keep next v (replace_row next rows) h (replace_row-keeps next v rows h m))
  ]

  -- When the rows shown all belong to the tab that a decision was clicked in, then after the answer
  -- they still do, each row of the vacancy is the answer itself, no row of another vacancy is lost,
  -- and the vacancy decided on is no longer selected; when the decision fails, rows and selection
  -- stay and the message is shown.
  pub decide-AreInTab :
      (clicked_tab id message : Text) (action : Action) (next : Vacancy D) (s : VacanciesPage D)
      → AreInTab (tab_of clicked_tab) (rows_of s.rows)
      → let s' = decide clicked_tab id action (answered next) s in
        let f = decide clicked_tab id action (failed message) s in
        AreInTab (tab_of clicked_tab) (rows_of s'.rows)
        × All (IsFresh next) (rows_of s'.rows)
        × ((v : Vacancy D)
            → text_eq v.id next.id ≡ false
            → Memᴰ v (rows_of s.rows)
            → Memᴰ v (rows_of s'.rows))
        × (s'.selected_ids ≡ keep (λ i. not (text_eq i id)) s.selected_ids)
        × (f ≡ record s { error = some message })
  unfolding decide
  decide-AreInTab clicked_tab id message action next s h =
      let t = tab_of clicked_tab in
      let s' = record s {
        rows = some (remove_if_leaves t next (replace_row next (rows_of s.rows)));
        selected_ids = keep (λ i. not (text_eq i id)) s.selected_ids;
        error = none;
      } in
      let (rows, selected, rest) = closes_reason-rows action s' in
      rw (rows, selected)
        (
          remove_if_leaves-AreInTab t next (rows_of s.rows) h,
          remove_if_leaves-IsFresh t next (rows_of s.rows),
          (λ v other m. remove_if_leaves-keeps t next v (rows_of s.rows) other m),
          refl,
          refl,
        )
