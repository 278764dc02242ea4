-- ===== src/Ext/Edits.antt =====
-- ext/lib/edits.ts: what the user corrected after a fill, as question and answer pairs.
pub mod Laws
use otclick_hh.Common.{
  List, Option, Text, [], if◌then◌else◌, is_empty, map, none, some, text_eq, trim, ◌++◌, ◌||◌, ◌∷◌,
}
use otclick_hh.Ext.Api.{LabelledField, map_get}

pub record Current : Type 0 where
  pub ref : Text
  pub label : Text
  pub value : Text

pub record QaItem : Type 0 where
  pub question : Text
  pub answer : Text

-- The body of the loop behind `before.get(cur.ref)`: what `cur` adds, given the applied field.
pub edit_of : Current → LabelledField → List QaItem
edit_of cur prev =
    let question = trim cur.label in
    let answer = trim cur.value in
    if is_empty question || is_empty answer
    then []
    else if text_eq answer (trim prev.value)
    then []
    else record { question = question; answer = answer } ∷ []

abbrev pub edits_of : Current → Option LabelledField → List QaItem
edits_of cur none = []
edits_of cur (some prev) = edit_of cur prev

-- `before`, as the pairs that the map is built from
abbrev pub by_ref : List LabelledField → List (Text × LabelledField)
by_ref applied = map (λ (f : LabelledField). (f.ref, f)) applied

unfoldable pub collect_edits : List LabelledField → List Current → List QaItem
unfolding edit_of
collect_edits applied [] = []
collect_edits applied (cur ∷ current) =
    edits_of cur (map_get cur.ref (by_ref applied)) ++ collect_edits applied current
