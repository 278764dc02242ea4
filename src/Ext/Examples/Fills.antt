-- ===== src/Ext/Examples/Fills.antt =====
-- Examples for ext/lib/snapshot.ts and ext/entrypoints/content.ts: filling the page.
use otclick_hh.Common.{
  Bool, Bool-cases, List, Option, Text, [], codes, if◌then◌else◌, inl, inr, ltb, none, not, refl,
  some, text_eq, text_eq→eq, ℕ, ◌∷◌, ◌≡◌, ◌≢◌,
}
use otclick_hh.Ext.Api.{FilledField, ai, profile}
use otclick_hh.Ext.Filler.Controls.{aria_checked}
use otclick_hh.Ext.Snapshot.Observe.{SnapshotEl, observe}
use otclick_hh.Ext.Filler.Controls.Select.{SelectLaws}
use otclick_hh.Ext.FieldValue.{Values}
use otclick_hh.Ext.Content.{ContextReply, FillReply, Reply, TabState, answer, run_fill}
use otclick_hh.Ext.Content.Settles.{IsSettled, run_fill-IsSettled}
use otclick_hh.Ext.Examples.{Page, actions, index_of_value, option_value, page, start_page}

abbrev select_field : FilledField
select_field = record {
  frame_id = 0;
  ref = codes "e0";
  selector = codes "#select";
  field_type = "select";
  value = codes "Yes";
  source = profile;
  filename = none;
  required = none;
}

abbrev radio_field : FilledField
radio_field = record {
  frame_id = 0;
  ref = codes "e1";
  selector = codes "#radio";
  field_type = "radio";
  value = codes "maybe";
  source = ai;
  filename = none;
  required = none;
}

abbrev text_field : FilledField
text_field = record select_field { field_type = "text" }

abbrev blank_field : FilledField
blank_field = record radio_field { value = [] }

abbrev taken_value : Text → Option ℕ → Bool
taken_value v o = text_eq (option_value o) v

refused_index : (v : Text) → option_value (index_of_value v) ≢ v → index_of_value v ≡ none
refused_index v h = elim (Bool-cases (text_eq v (codes "1"))) [
  | inl e ↦ absurd (h (rw (text_eq→eq v (codes "1") e) refl))
  | inr e ↦ elim (Bool-cases (text_eq v (codes "2"))) [
    | inl e' ↦ absurd (h (rw (text_eq→eq v (codes "2") e') refl))
    | inr e' ↦ rw (e, e') refl
  ]
]

page_select : SelectLaws page actions
page_select = record {
  index_assigned = λ w el i h. refl;
  value_refused = λ w el v h. refused_index v h;
}

abbrev chosen_page : Page
chosen_page = record start_page { chosen = some 0 }

page_flips :
    (w : Page) (el : ℕ)
    → aria_checked page actions 0 1 (record w { on = not w.on }) el
      ≡ not (aria_checked page actions 0 1 w el)
page_flips w el = elim (Bool-cases w.on) [ inl e ↦ rw e refl | inr e ↦ rw e refl ]

abbrev no_schema : ℕ → List Text
no_schema el = []

abbrev snapshot_of : Page → Page × Reply (List SnapshotEl)
snapshot_of w = (w, answer (observe page w no_schema (0 ∷ [])))

abbrev no_facts : Reply ContextReply
no_facts = answer (record { facts = none; resume = none; failure = none })

abbrev fill_with : List SnapshotEl → Reply FillReply
fill_with els =
    answer
      (record { frames = record { frame_id = 0; fields = select_field ∷ [] } ∷ []; failure = none })

abbrev fresh_tab : TabState Page
fresh_tab = record { world = start_page; last_applied = []; calls = [] }

run_fill-IsSettled_example :
    IsSettled (run_fill page actions 0 1 (λ c. c) snapshot_of no_facts fill_with fresh_tab)
run_fill-IsSettled_example =
    run_fill-IsSettled page actions 0 1 (λ c. c) snapshot_of no_facts fill_with fresh_tab

abbrev page_values : Values page
page_values = record {
  type_prop = λ w el. if ltb el 2 then codes "radio" else codes "text";
  selected_text = λ w el. none;
}
