-- ===== src/Web/ApplicationsPage/Sync.antt =====
-- frontend/src/app/(app)/applications/page.tsx: how the search input and the URL follow each other.
use otclick_hh.Common.{
  Bool-cases, List, Text, [], codes, false, inl, inr, is_empty, not, or_else, refl, sym, text_eq,
  text_eq_refl, text_eq→eq, trim, trim_idem, true, ◌++◌, ◌∷◌, ◌≡◌, ◌⊎◌,
}
use otclick_hh.Web.ApplicationsUrl.{Params, normal_view, param, parse_view, serialize_view}
use otclick_hh.Web.ApplicationsUrl.RoundTrip.{parse_view-serialize_view}
use otclick_hh.Web.ApplicationsPage.{
  Event, SearchPage, debounce, follow, happen, happen_all, landing, opened, patched, pick_page,
  pick_status, picking_page, picking_status, push, replace, reset_view, resetting, set_view,
  time_out, timing_out, typed, typing, url_changed,
}

-- A timer runs just when the input has something that was not pushed.
abbrev pub IsArmed : SearchPage → Type 0
IsArmed s = s.timer ≡ not (text_eq (trim s.search) s.pushed_q)

debounce-IsArmed : (s : SearchPage) → IsArmed (debounce s)
unfolding debounce
debounce-IsArmed s = refl

opened-IsArmed : (params : Params) → IsArmed (opened params)
unfolding opened parse_view
opened-IsArmed params =
    let q = or_else (param (codes "q") params) [] in rw (trim_idem q, text_eq_refl (trim q)) refl

trim-parse_view : (params : Params) → trim (parse_view params).q ≡ (parse_view params).q
unfolding parse_view
trim-parse_view params = trim_idem (or_else (param (codes "q") params) [])

-- When the search in the URL changes, the page takes it over: it counts as pushed, and either the
-- input shows it and no timer runs, or it was the one last pushed from here, and the input keeps
-- what was typed since.
pub url_changed-followed :
    (params : Params) (s : SearchPage)
    → text_eq (parse_view params).q s.view.q ≡ false
    → ((url_changed params s).pushed_q ≡ (parse_view params).q)
      × (((url_changed params s).search ≡ (parse_view params).q)
            × ((url_changed params s).timer ≡ false)
          ⊎ (s.pushed_q ≡ (parse_view params).q) × ((url_changed params s).search ≡ s.search))
unfolding url_changed follow debounce
url_changed-followed params s h = elim (Bool-cases (text_eq (parse_view params).q s.pushed_q)) [
  | inl e ↦
      let same = text_eq→eq (parse_view params).q s.pushed_q e in
      rw (h, e) (sym same, inr (sym same, refl))
  | inr e ↦
      rw (h, e, trim-parse_view params, text_eq_refl (parse_view params).q) (refl, inl (refl, refl))
]

module _ (pathname : Text) (encode : Params → Text) where
  time_out-IsArmed : (s : SearchPage) → IsArmed s → IsArmed (time_out pathname encode s)
  unfolding time_out set_view
  time_out-IsArmed s h = elim (Bool-cases s.timer) [
    | inl e ↦ rw (e, text_eq_refl (trim s.search)) refl
    | inr e ↦ rw e (rw e at h)
  ]

  happen-IsArmed :
      (e : Event pathname encode) (s : SearchPage)
      → IsArmed s
      → IsArmed (happen pathname encode e s)
  unfolding happen typed url_changed pick_status pick_page reset_view set_view
  happen-IsArmed (typing text) s h = refl
  happen-IsArmed timing_out s h = time_out-IsArmed s h
  happen-IsArmed resetting s h = h
  happen-IsArmed (landing params) s h =
      debounce-IsArmed (follow s.view.q (record s { view = parse_view params }))
  happen-IsArmed (picking_status id) s h = h
  happen-IsArmed (picking_page p) s h = h

  -- Whatever the user and the router do, and in whatever order, the timer of the debounce runs just
  -- when the trimmed input differs from the search last pushed.
  pub happen_all-IsArmed :
      (es : List (Event pathname encode)) (params : Params)
      → IsArmed (happen_all pathname encode es (opened params))
  unfolding happen_all
  happen_all-IsArmed es params = go es (opened params) (opened-IsArmed params)
    where
      go :
          (es : List (Event pathname encode)) (s : SearchPage)
          → IsArmed s
          → IsArmed (happen_all pathname encode es s)
      go [] s h = h
      go (e ∷ es) s h = go es (happen pathname encode e s) (happen-IsArmed e s h)

  -- A search that the timer has pushed is what the page shows once the URL has changed to it: on the
  -- first page, with the input as it was typed and no timer, when the reader of a query string gives
  -- back the pairs it was written from and only the empty list of pairs is written as an empty
  -- string.
  pub url_changed-time_out :
      (decode : Text → Params)
      → ((ps : Params) → decode (codes "?" ++ encode ps) ≡ ps)
      → (decode [] ≡ [])
      → ((ps : Params) → is_empty (encode ps) ≡ is_empty ps)
      → (s : SearchPage) → s.timer ≡ true
      → let next = record s.view { q = trim s.search; page = 0 } in
        let s' = url_changed (decode (serialize_view encode next)) (time_out pathname encode s) in
        ((time_out pathname encode s).asked
          ≡ (replace, pathname ++ serialize_view encode next) ∷ s.asked)
        × (s'.view ≡ normal_view next)
        × (s'.view.q ≡ trim s.search)
        × (s'.search ≡ s.search)
        × (s'.timer ≡ false)
  unfolding url_changed follow debounce time_out set_view patched normal_view
  url_changed-time_out decode read none_read blank s h =
      let next = record s.view { q = trim s.search; page = 0 } in
      let back = parse_view-serialize_view encode decode read none_read blank next in
      rw (h, back, trim_idem s.search, text_eq_refl (trim s.search))
        (elim (Bool-cases (text_eq (trim s.search) s.view.q)) [
          | inl e ↦ rw (e, text_eq_refl (trim s.search)) (refl, refl, refl, refl, refl)
          | inr e ↦ rw (e, text_eq_refl (trim s.search)) (refl, refl, refl, refl, refl)
        ])

  -- A search that the timer has pushed is lost when a status is picked before the router has changed
  -- the URL: the second address is written from the view that the first has not reached, and once
  -- the page is on it the URL has the old search again, the input still has the other, and no timer
  -- runs to push it; when the reader and the writer of query strings agree as above.
  pub search_lost :
      (decode : Text → Params)
      → ((ps : Params) → decode (codes "?" ++ encode ps) ≡ ps)
      → (decode [] ≡ [])
      → ((ps : Params) → is_empty (encode ps) ≡ is_empty ps)
      → (id : Text) (s : SearchPage) → s.timer ≡ true
      → trim s.view.q ≡ s.view.q
      → text_eq (trim s.search) s.view.q ≡ false
      → let next = record s.view { status = id; page = 0 } in
        let picked = pick_status pathname encode id (time_out pathname encode s) in
        let s' = url_changed (decode (serialize_view encode next)) picked in
        (picked.asked
          ≡ (push, pathname ++ serialize_view encode next)
            ∷ (
              replace,
              pathname ++ serialize_view encode (record s.view { q = trim s.search; page = 0 }),
            )
            ∷ s.asked)
        × (s'.view ≡ normal_view next)
        × (s'.view.q ≡ s.view.q)
        × (text_eq (trim s'.search) s'.view.q ≡ false)
        × (s'.timer ≡ false)
  unfolding url_changed follow debounce time_out pick_status set_view patched normal_view
  search_lost decode read none_read blank id s h tidy other =
      let next = record s.view { status = id; page = 0 } in
      let back = parse_view-serialize_view encode decode read none_read blank next in
      rw (h, back, tidy, text_eq_refl s.view.q, text_eq_refl (trim s.search), other)
        (refl, refl, refl, refl, refl)
