-- ===== src/Ext/Examples.antt =====
-- Concrete data for the examples of the extension: a small page and what the browser does to it.
mod Snapshots
mod Fills
mod Messages
mod Sessions
use otclick_hh.Common.{
  Bool, List, Option, String, Text, [], codes, eqb, false, if◌then◌else◌, is_empty, ltb, none, not,
  some, starts_with, suc, text_eq, true, zero, ℕ, ◌&&◌, ◌==◌, ◌∷◌,
}
use otclick_hh.Ext.Dom.{Dom}
use otclick_hh.Ext.Filler.Actions.{Actions, not_ok}

-- The state of the page: whether its toggle is on, and what its select shows.
pub record Page : Type 0 where
  pub on : Bool
  pub chosen : Option ℕ

abbrev pub start_page : Page
start_page = record { on = false; chosen = none }

abbrev pub option_value : Option ℕ → Text
option_value none = []
option_value (some zero) = codes "1"
option_value (some (suc n)) = codes "2"

abbrev pub on_text : Bool → Text
on_text true = codes "true"
on_text false = codes "false"

-- Elements 0 and 1 are the radio buttons of one group, the first of them hidden; 2 is a select, 3 a
-- toggle and 4 the host of a shadow root.
abbrev pub attr_of : Page → ℕ → String → Option Text
attr_of w el name =
    if name == "aria-checked"
    then some (on_text w.on)
    else if name == "type" && ltb el 2
    then some (codes "radio")
    else if name == "name" && ltb el 2
    then some (codes "g")
    else if name == "role" && eqb el 3
    then some (codes "checkbox")
    else none

abbrev pub tag_of : ℕ → Text
tag_of el = if ltb el 2 then codes "INPUT" else if eqb el 2 then codes "SELECT" else codes "DIV"

abbrev pub found : ℕ → Text → List ℕ
found (suc r) selector = []
found zero selector =
    if text_eq selector (codes "*")
    then 0 ∷ 1 ∷ 2 ∷ 3 ∷ 4 ∷ []
    else if starts_with selector (codes "input,")
    then 0 ∷ 1 ∷ 2 ∷ 3 ∷ []
    else if starts_with selector (codes "input[type")
    then 0 ∷ 1 ∷ []
    else if text_eq selector (codes "#select")
    then 2 ∷ []
    else if text_eq selector (codes "#radio")
    then 1 ∷ []
    else []

abbrev pub page : Dom
page = record {
  World = Page;
  El = ℕ;
  Root = ℕ;
  same_el = eqb;
  query_all = λ w r selector. found r selector;
  within = λ w el selector. [];
  closest = λ w el selector. none;
  contains = λ w a b. eqb a b;
  ancestors = λ w el. [];
  prev_siblings = λ w el. [];
  root_of = λ w el. 0;
  owner_document = λ el. 0;
  host_of = λ r. if eqb r 1 then some 4 else none;
  shadow_root = λ w el. if eqb el 4 then some 1 else none;
  content_document = λ w el. none;
  tag_name = tag_of;
  attr = attr_of;
  text_content = λ w el. [];
  display = λ w el. if eqb el 0 then "none" else "block";
  visibility = λ w el. "visible";
  has_offset_parent = λ w el. true;
  is_input = λ el. ltb el 2;
  input_value = λ w el. option_value w.chosen;
  is_checked = λ w el. w.on;
  required_prop = λ w el. false;
  select_options = λ w el. (codes "1", codes "Yes") ∷ (codes "2", codes "No") ∷ [];
  escape = λ s. s;
  to_lower = λ s. s;
}

abbrev pub index_of_value : Text → Option ℕ
index_of_value v =
    if text_eq v (codes "1") then some 0 else if text_eq v (codes "2") then some 1 else none

abbrev pub actions : Actions page ℕ
actions = record {
  set_text = λ w el v. some w;
  set_checked = λ w el b. record w { on = b };
  real_click = λ w el. record w { on = not w.on };
  focus = λ w el. w;
  selected_index = λ w el. w.chosen;
  assign_value = λ w el v. record w { chosen = index_of_value v };
  assign_index = λ w el i. record w { chosen = some i };
  change_event = λ w el. w;
  set_files = λ w el blob name. w;
  files_length = λ w el. 1;
  mutations = λ w. [];
  cached = λ url. none;
  fetch = λ url. not_ok;
  background = λ url. none;
  is_selector = λ s. not (is_empty s);
  selector_error = codes "SyntaxError";
}
