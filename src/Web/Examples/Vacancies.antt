-- ===== src/Web/Examples/Vacancies.antt =====
-- Examples for the vacancies, the requests and the remembered answers.
use otclick_hh.Common.{All, List, Memᴰ, Text, [], codes, false, none, refl, some, text_eq, ◌∷◌, ◌≡◌}
use otclick_hh.Web.Vacancies
use otclick_hh.Web.Vacancies.Tabs.{AreInTab, IsFresh, decide-AreInTab}
use otclick_hh.Web.Vacancies.Letter
use otclick_hh.Web.Vacancies.Letter.Shown.{ApprovesSaved, QueuesSaved, happen_all-QueuesSaved}
use otclick_hh.Web.ApiClient.{Json, Response, Tells, api_fetch, api_fetch-Tells}

abbrev approved_row : Letter.CoverLetterRow
approved_row = record { status = codes "approved"; cover_letter_draft = some (codes "Dear all") }

abbrev edits : List Letter.Event
edits =
    Letter.editing
    ∷ Letter.typing (codes "Dear you")
    ∷ Letter.saving_or_refreshing (Letter.failed (codes "HTTP 500"))
    ∷ Letter.cancelling
    ∷ []

happen_all-QueuesSaved_example :
    QueuesSaved (Letter.happen_all edits (Letter.opened approved_row))
    × ApprovesSaved (Letter.happen_all edits (Letter.opened approved_row))
happen_all-QueuesSaved_example = happen_all-QueuesSaved edits approved_row

abbrev found : Vacancies.Vacancy Text
found = record { id = codes "1"; status = codes "review"; details = [] }

abbrev vacancies_page : Vacancies.VacanciesPage Text
vacancies_page = record {
  tab_id = codes "review";
  page = 0;
  rows = some (found ∷ []);
  error = none;
  open_id = none;
  rejecting_id = none;
  reject_reason = [];
  selected_ids = codes "1" ∷ [];
}

abbrev rejected : Vacancies.Vacancy Text
rejected = record found { status = codes "rejected_by_user" }

abbrev decided : Vacancies.VacanciesPage Text
decided =
    Vacancies.decide (codes "review") (codes "1") Vacancies.reject (Vacancies.answered rejected)
      vacancies_page

abbrev failed_page : Vacancies.VacanciesPage Text
failed_page =
    Vacancies.decide (codes "review") (codes "1") Vacancies.reject
      (Vacancies.failed (codes "HTTP 500")) vacancies_page

decide-AreInTab_example :
    AreInTab (Vacancies.tab_of (codes "review")) (Vacancies.rows_of decided.rows)
    × All (IsFresh rejected) (Vacancies.rows_of decided.rows)
    × ((v : Vacancies.Vacancy Text)
        → text_eq v.id (codes "1") ≡ false
        → Memᴰ v (found ∷ [])
        → Memᴰ v (Vacancies.rows_of decided.rows))
    × (decided.selected_ids ≡ [])
    × (failed_page ≡ record vacancies_page { error = some (codes "HTTP 500") })
unfolding Vacancies.tab_of Vacancies.is_in_tab
decide-AreInTab_example =
    decide-AreInTab (codes "review") (codes "1") (codes "HTTP 500") Vacancies.reject rejected
      vacancies_page (refl, tt)

-- every text is JSON
abbrev texts : Json
texts = record {
  J = Text;
  null = [];
  parse = λ s. some s;
  member = λ s key. some s;
  as_string = λ s. some s;
  stringify = λ s. s;
}

abbrev unauthorized : Response
unauthorized = record { status = 401; text = some (codes "no") }

api_fetch-Tells_example : Tells texts (some unauthorized) (api_fetch texts (some unauthorized))
api_fetch-Tells_example = api_fetch-Tells texts (some unauthorized)
