-- ===== src/Web/Examples/Pages.antt =====
-- Examples for the pages and the components of the web application.
use otclick_hh.Common.{
  Text, [], ap, codes, false, is_space, refl, some, text_eq, trim, trim_end, trim_start, true, ◌++◌,
  ◌∷◌, ◌≡◌, ◌⊎◌,
}
use otclick_hh.Web.ApplicationsUrl.{
  Params, default_view, normal_view, param, parse_view, serialize_view,
}
use otclick_hh.Web.ApplicationsPage.{SearchPage, pick_status, push, replace, time_out, url_changed}
use otclick_hh.Web.ApplicationsPage.Sync.{search_lost, url_changed-followed, url_changed-time_out}
use otclick_hh.Web.ChatsPage.{ChatSummary, ChatsPage, clicking, opened_page, searching, selected}
use otclick_hh.Web.ChatsPage
use otclick_hh.Web.ChatsPage.Selection.{deep_link_stays}
use otclick_hh.Web.TodayResults.{
  Row, build_hours, build_hours-sent_at, hours_since, sent_at, sent_in, shows,
}
use otclick_hh.Web.Examples.{
  decode_pairs, encode_pairs, is_empty-encode_pairs, parse_pairs-encode_pairs,
}

abbrev no_text : Params → Text
no_text ps = []

-- a page on which a city was typed
abbrev typing_page : SearchPage
typing_page = record {
  view = default_view;
  search = codes "city ";
  pushed_q = [];
  timer = true;
  asked = [];
}

abbrev linked : Params
linked = (codes "q", codes "ts") ∷ []

url_changed-followed_example :
    ((url_changed linked typing_page).pushed_q ≡ codes "ts")
    × (((url_changed linked typing_page).search ≡ codes "ts")
          × ((url_changed linked typing_page).timer ≡ false)
        ⊎ (typing_page.pushed_q ≡ codes "ts")
          × ((url_changed linked typing_page).search ≡ typing_page.search))
unfolding parse_view param trim trim_start trim_end is_space
url_changed-followed_example = url_changed-followed linked typing_page refl

url_changed-time_out_example :
    let next = record typing_page.view { q = trim typing_page.search; page = 0 } in
    let s' =
      url_changed
        (decode_pairs (serialize_view encode_pairs next))
        (time_out [] encode_pairs typing_page) in
    ((time_out [] encode_pairs typing_page).asked
      ≡ (replace, [] ++ serialize_view encode_pairs next) ∷ [])
    × (s'.view ≡ normal_view next)
    × (s'.view.q ≡ trim typing_page.search)
    × (s'.search ≡ typing_page.search)
    × (s'.timer ≡ false)
url_changed-time_out_example =
    url_changed-time_out [] encode_pairs decode_pairs
      (λ ps. ap (λ r. r.2) (parse_pairs-encode_pairs ps)) refl is_empty-encode_pairs typing_page
      refl

search_lost_example :
    let next = record typing_page.view { status = codes "sent"; page = 0 } in
    let picked =
      pick_status [] encode_pairs (codes "sent") (time_out [] encode_pairs typing_page) in
    let s' = url_changed (decode_pairs (serialize_view encode_pairs next)) picked in
    (picked.asked
      ≡ (push, [] ++ serialize_view encode_pairs next)
        ∷ (
          replace,
          []
              ++ serialize_view encode_pairs
                  (record typing_page.view { q = trim typing_page.search; page = 0 }),
        )
        ∷ [])
    × (s'.view ≡ normal_view next)
    × (s'.view.q ≡ typing_page.view.q)
    × (text_eq (trim s'.search) s'.view.q ≡ false)
    × (s'.timer ≡ false)
unfolding trim trim_start trim_end is_space
search_lost_example =
    search_lost [] encode_pairs decode_pairs (λ ps. ap (λ r. r.2) (parse_pairs-encode_pairs ps))
      refl is_empty-encode_pairs (codes "sent") typing_page refl refl refl

abbrev sent_at_nine : Row
sent_at_nine = record { hour = 9; status = codes "sent" }

build_hours-sent_at_example :
    sent_at 9 (build_hours 10 (sent_at_nine ∷ sent_at_nine ∷ []))
    ≡ sent_in 9 (sent_at_nine ∷ sent_at_nine ∷ [])
unfolding shows hours_since
build_hours-sent_at_example = build_hours-sent_at 10 9 (sent_at_nine ∷ sent_at_nine ∷ []) refl

deep_link_stays_example :
    (c : ChatSummary) × (selected (
        ChatsPage.happen_all
          (λ s. s)
          (clicking (codes "8") ∷ searching (codes "x") ∷ [])
          (opened_page (some (codes "7"))))
      ≡ some c)
    × (c.id ≡ codes "7")
deep_link_stays_example =
    deep_link_stays (λ s. s) b'7' [] (clicking (codes "8") ∷ searching (codes "x") ∷ [])
