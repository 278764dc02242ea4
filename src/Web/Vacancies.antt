-- ===== src/Web/Vacancies.antt =====
-- frontend/src/app/(app)/vacancies/page.tsx: the tabs of the vacancies, and the decisions on them.
pub mod Letter
pub mod Sender
pub mod Tabs
use otclick_hh.Common.{
  Bool, List, Option, Text, [], any, codes, find, if◌then◌else◌, keep, map, none, not, or_else,
  show_nat, some, text_eq, ℕ, ◌*◌, ◌++◌, ◌||◌, ◌∷◌,
}
use otclick_hh.Web.ApplicationsUrl.{Params}

abbrev pub page_size : ℕ
page_size = 25

-- A vacancy, as far as the page decides by it; `D` is the rest.
pub record Vacancy {ℓ} (D : Type ℓ) : Type ℓ where
  pub id : Text
  pub status : Text
  pub details : D

-- `statuses` is none for the tab of all vacancies.
pub record Tab : Type 0 where
  pub id : Text
  pub statuses : Option (List Text)

abbrev tab : Text → List Text → Tab
tab id statuses = record { id = id; statuses = some statuses }

abbrev pub review_tab : Tab
review_tab = tab (codes "review") (
    codes "discovered"
    ∷ codes "scoring"
    ∷ codes "scored"
    ∷ codes "review"
    ∷ codes "score_error"
    ∷ [])

-- `TABS`
abbrev pub tabs : List Tab
tabs =
    review_tab
    ∷ tab (codes "selected")
        (codes "selected" ∷ codes "letter_draft" ∷ codes "approved" ∷ codes "queued_to_send" ∷ [])
    ∷ tab (codes "hold") (codes "hold" ∷ [])
    ∷ tab (codes "rejected") (codes "rejected_by_user" ∷ codes "rejected_by_rule" ∷ [])
    ∷ tab (codes "archived") (codes "archived" ∷ [])
    ∷ record { id = codes "all"; statuses = none }
    ∷ []

-- `tab`
unfoldable pub tab_of : Text → Tab
tab_of tab_id = or_else (find (λ t. text_eq t.id tab_id) tabs) review_tab

-- `ARCHIVABLE.has`
unfoldable pub is_archivable : Text → Bool
is_archivable status = any (text_eq status) (
    codes "discovered"
    ∷ codes "scoring"
    ∷ codes "scored"
    ∷ codes "review"
    ∷ codes "score_error"
    ∷ [])

abbrev pub toggled : Text → List Text → List Text
toggled id ids =
    if any (λ i. text_eq i id) ids then keep (λ i. not (text_eq i id)) ids else ids ++ id ∷ []

-- `queryFor`; `encode` is `params.toString()`
unfoldable pub query_for : (Params → Text) → Tab → ℕ → Text
query_for encode t page =
    codes "/api/vacancies?"
    ++ encode (
        map (λ s. (codes "status", s)) (or_else t.statuses [])
        ++ (codes "limit", show_nat page_size) ∷ (codes "offset", show_nat (page * page_size)) ∷ [])

pub data Action : Type 0 where
  select reject hold review archive : Action

-- An answer of the backend, or the message of the exception.
pub data Answer {ℓ} (A : Type ℓ) : Type ℓ where
  failed : Text → Answer A
  answered : A → Answer A

-- a status that the tab shows
unfoldable pub is_in_tab : Tab → Text → Bool
is_in_tab t status = text_eq t.id (codes "all") || any (text_eq status) (or_else t.statuses [])

pub record VacanciesPage {ℓ} (D : Type ℓ) : Type ℓ where
  pub tab_id : Text
  pub page : ℕ
  pub rows : Option (List (Vacancy D))
  pub error : Option Text
  pub open_id : Option Text
  pub rejecting_id : Option Text
  pub reject_reason : Text
  pub selected_ids : List Text

module _ {ℓ} {D : Type ℓ} where
  abbrev pub rows_of : Option (List (Vacancy D)) → List (Vacancy D)
  rows_of none = []
  rows_of (some rows) = rows

  -- `load` up to its request, and after the answer
  unfoldable pub load : VacanciesPage D → VacanciesPage D
  load s = record s { rows = none }

  unfoldable pub loaded : Answer (List (Vacancy D)) → VacanciesPage D → VacanciesPage D
  loaded (failed message) s = record s { rows = some []; error = some message }
  loaded (answered data') s = record s { rows = some data'; selected_ids = []; error = none }

  -- `chooseTab`, and the load that it brings about
  unfoldable pub choose_tab : Text → VacanciesPage D → VacanciesPage D
  unfolding load
  choose_tab id s = load (record s { tab_id = id; page = 0; open_id = none; selected_ids = [] })

  -- `replaceRow`
  unfoldable pub replace_row : Vacancy D → List (Vacancy D) → List (Vacancy D)
  replace_row next rows = map (λ row. if text_eq row.id next.id then next else row) rows

  -- `removeIfLeavesTab`
  unfoldable pub remove_if_leaves : Tab → Vacancy D → List (Vacancy D) → List (Vacancy D)
  unfolding is_in_tab
  remove_if_leaves t next rows =
      if is_in_tab t next.status then rows else keep (λ row. not (text_eq row.id next.id)) rows

  abbrev closes_reason : Action → VacanciesPage D → VacanciesPage D
  closes_reason reject s = record s { rejecting_id = none; reject_reason = [] }
  closes_reason _ s = s

  -- `decide` on the vacancy with an id, after the answer; `clicked_tab` is the `tabId` that the
  -- function was made with, that of the click
  unfoldable pub decide :
      Text → Text → Action → Answer (Vacancy D) → VacanciesPage D → VacanciesPage D
  unfolding replace_row remove_if_leaves tab_of
  decide clicked_tab id action (failed message) s = record s { error = some message }
  decide clicked_tab id action (answered next) s = closes_reason action (record s {
    rows = some (remove_if_leaves (tab_of clicked_tab) next (replace_row next (rows_of s.rows)));
    selected_ids = keep (λ i. not (text_eq i id)) s.selected_ids;
    error = none;
  })

  -- `enrich` after the answer
  unfoldable pub enrich : Answer (Vacancy D) → VacanciesPage D → VacanciesPage D
  unfolding replace_row
  enrich (failed message) s = record s { error = some message }
  enrich (answered next) s = record s {
    rows = some (replace_row next (rows_of s.rows));
    error = none;
  }

  -- `toggleSelected`; a set is the list of its members in the order they came in
  unfoldable pub toggle_selected : Text → VacanciesPage D → VacanciesPage D
  toggle_selected id s = record s { selected_ids = toggled id s.selected_ids }
