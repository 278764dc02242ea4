-- ===== src/Web/ApplicationsPage.antt =====
-- frontend/src/app/(app)/applications/page.tsx: the search input of the applications page, its URL,
-- and the rows that it loads.
pub mod Sync
use otclick_hh.Common.{
  Bool, List, Option, Text, [], codes, false, if◌then◌else◌, ltb, none, not, or_else, show_nat,
  some, text_eq, trim, ℕ, ◌*◌, ◌++◌, ◌+◌, ◌-◌, ◌/◌, ◌∷◌,
}
use otclick_hh.Web.ApplicationsUrl.{
  ApplicationsView, Params, default_view, parse_view, serialize_view,
}

abbrev pub page_size : ℕ
page_size = 25

-- `timeAgo` of so many seconds, rounding in halves upwards
unfoldable pub time_ago : ℕ → Text
time_ago diff =
    if ltb diff 60
    then show_nat diff ++ codes " с"
    else if ltb diff 3600
    then show_nat ((diff + 30) / 60) ++ codes " мин"
    else if ltb diff 86400
    then show_nat ((diff + 1800) / 3600) ++ codes " ч"
    else show_nat ((diff + 43200) / 86400) ++ codes " дн"

-- `Math.ceil(total / PAGE_SIZE)`
unfoldable pub page_count : ℕ → ℕ
page_count total = (total + 24) / page_size

-- the first and the last row that `range` asks for
unfoldable pub range_of : ℕ → ℕ × ℕ
range_of page = (page * page_size, page * page_size + page_size - 1)

pub data History : Type 0 where
  push replace : History

-- What stands in a view instead of what it had: a status, a search, a page.
pub record Patch : Type 0 where
  pub status : Option Text
  pub q : Option Text
  pub page : Option ℕ

unfoldable pub patched : ApplicationsView → Patch → ApplicationsView
patched view patch = record {
  status = or_else patch.status view.status;
  q = or_else patch.q view.q;
  page = or_else patch.page view.page;
}

-- `view`, `search`, `pushedQ.current`, whether the timer of the debounce runs, and what the router
-- was asked for, the last one first.
pub record SearchPage : Type 0 where
  pub view : ApplicationsView
  pub search : Text
  pub pushed_q : Text
  pub timer : Bool
  pub asked : List (History × Text)

-- the state that the page opens with
unfoldable pub opened : Params → SearchPage
opened params =
    let view = parse_view params in
    record { view = view; search = view.q; pushed_q = view.q; timer = false; asked = [] }

-- the second effect: the timer that ran is stopped, and one is started for what was typed
unfoldable pub debounce : SearchPage → SearchPage
debounce s = record s { timer = not (text_eq (trim s.search) s.pushed_q) }

-- the input's `onChange`
unfoldable pub typed : Text → SearchPage → SearchPage
unfolding debounce
typed text s = debounce (record s { search = text })

-- the first effect, whose dependency is `view.q`
unfoldable pub follow : Text → SearchPage → SearchPage
follow before s =
    if text_eq s.view.q before
    then s
    else if text_eq s.view.q s.pushed_q
    then s
    else record s { pushed_q = s.view.q; search = s.view.q }

-- The URL has changed, and with it the view: both effects run, and the second one once more when
-- the first has set the search.
unfoldable pub url_changed : Params → SearchPage → SearchPage
unfolding follow debounce
url_changed params s = debounce (follow s.view.q (record s { view = parse_view params }))

module _ (pathname : Text) (encode : Params → Text) where
  -- `setView`
  unfoldable pub set_view : Patch → History → SearchPage → SearchPage
  unfolding patched
  set_view patch history s = record s {
    asked = (history, pathname ++ serialize_view encode (patched s.view patch)) ∷ s.asked;
  }

  -- a tab of the status, and a page of the pager
  unfoldable pub pick_status : Text → SearchPage → SearchPage
  unfolding set_view
  pick_status id s = set_view (record { status = some id; q = none; page = some 0 }) push s

  unfoldable pub pick_page : ℕ → SearchPage → SearchPage
  unfolding set_view
  pick_page p s = set_view (record { status = none; q = none; page = some p }) push s

  unfoldable pub reset_view : SearchPage → SearchPage
  unfolding set_view
  reset_view s =
      set_view
        (record {
          status = some default_view.status;
          q = some default_view.q;
          page = some default_view.page;
        })
        push s

  -- the timer's function
  unfoldable pub time_out : SearchPage → SearchPage
  unfolding set_view
  time_out s =
      if s.timer
      then set_view (record { status = none; q = some (trim s.search); page = some 0 }) replace
          (record s { pushed_q = trim s.search; timer = false })
      else s

  pub data Event : Type 0 where
    typing : Text → Event
    timing_out resetting : Event
    landing : Params → Event
    picking_status : Text → Event
    picking_page : ℕ → Event

  unfoldable pub happen : Event → SearchPage → SearchPage
  unfolding typed time_out url_changed pick_status pick_page reset_view
  happen (typing text) s = typed text s
  happen timing_out s = time_out s
  happen resetting s = reset_view s
  happen (landing params) s = url_changed params s
  happen (picking_status id) s = pick_status id s
  happen (picking_page p) s = pick_page p s

  unfoldable pub happen_all : List Event → SearchPage → SearchPage
  unfolding happen
  happen_all [] s = s
  happen_all (e ∷ es) s = happen_all es (happen e s)
