-- ===== src/Ext/Edits/Laws.antt =====
-- ext/lib/edits.ts: what is remembered of a reviewed form.
use otclick_hh.Common.{
  All, All-append, All-map_pred, Bool-cases, List, Memᴰ, Memᴰ-append_left, Memᴰ-append_right,
  Option, Text, [], arith, false, inl, inr, is_empty, none, refl, some, text_eq, text_eq_iff, trim,
  ◌||◌, ◌∙◌, ◌∷◌, ◌≡◌, ◌≢◌,
}
use otclick_hh.Ext.Api.{LabelledField, map_get}
use otclick_hh.Ext.Edits.{Current, QaItem, by_ref, collect_edits, edit_of, edits_of}

-- `item` is the trimmed question and the trimmed, changed answer of the entry `cur`, which the
-- last run filled with the value of `prev`.
pub record IsEdit (applied : List LabelledField) (cur : Current) (item : QaItem) : Type 0 where
  pub prev : LabelledField
  pub filled : map_get cur.ref (by_ref applied) ≡ some prev
  pub question : item.question ≡ trim cur.label
  pub answer : item.answer ≡ trim cur.value
  pub asked : item.question ≢ []
  pub answered : item.answer ≢ []
  pub changed : item.answer ≢ trim prev.value

is_empty-eq-false : (s : Text) → s ≢ [] → is_empty s ≡ false
is_empty-eq-false [] h = absurd (h refl)
is_empty-eq-false (c ∷ s) h = refl

not_empty : (s : Text) → is_empty s ≡ false → s ≢ []
not_empty [] h = cc
not_empty (c ∷ s) h = cc

edit_of_sound :
    (applied : List LabelledField) (cur : Current) (prev : LabelledField)
    → map_get cur.ref (by_ref applied) ≡ some prev
    → All (IsEdit applied cur) (edit_of cur prev)
unfolding edit_of
edit_of_sound applied cur prev found =
    elim (Bool-cases (is_empty (trim cur.label) || is_empty (trim cur.value))) [
      | inl bare ↦ rw bare tt
      | inr full ↦ elim (Bool-cases (text_eq (trim cur.value) (trim prev.value))) [
        | inl same ↦ rw (full, same) tt
        | inr other ↦
            rw (full, other)
              (
                record {
                  prev = prev;
                  filled = found;
                  question = refl;
                  answer = refl;
                  asked = not_empty _ (ground arith);
                  answered = not_empty _ (ground arith);
                  changed = λ e. cc ((text_eq_iff (trim cur.value) (trim prev.value)).1 e);
                },
                tt,
              )
      ]
    ]

edits_of_sound :
    (applied : List LabelledField) (cur : Current) (o : Option LabelledField)
    → map_get cur.ref (by_ref applied) ≡ o
    → All (IsEdit applied cur) (edits_of cur o)
edits_of_sound applied cur none found = tt
edits_of_sound applied cur (some prev) found = edit_of_sound applied cur prev found

abbrev pub FromEdit : List LabelledField → List Current → QaItem → Type 0
FromEdit applied current item = (cur : Current) × Memᴰ cur current × IsEdit applied cur item

-- Every remembered pair is an edit: the trimmed label and value of a field of the form that the
-- last run filled, neither of them empty, with a value that differs from the filled one.
pub collect_edits_sound :
    (applied : List LabelledField) (current : List Current)
    → All (FromEdit applied current) (collect_edits applied current)
unfolding collect_edits
collect_edits_sound applied [] = tt
collect_edits_sound applied (cur ∷ current) =
    All-append (FromEdit applied (cur ∷ current)) _ _
      (All-map_pred (IsEdit applied cur) (FromEdit applied (cur ∷ current))
        (λ item e. (cur, Memᴰ.head refl, e)) _ (edits_of_sound applied cur _ refl))
      (All-map_pred (FromEdit applied current) (FromEdit applied (cur ∷ current))
        (λ item e. (e.0, Memᴰ.tail e.1, e.2)) _ (collect_edits_sound applied current))

edit_of_complete :
    (applied : List LabelledField) (cur : Current) (item : QaItem) (e : IsEdit applied cur item)
    → Memᴰ item (edit_of cur e.prev)
unfolding edit_of
edit_of_complete applied cur item e =
    let asked : is_empty (trim cur.label) ≡ false =
      rw (← e.question) (is_empty-eq-false _ e.asked) in
    let answered : is_empty (trim cur.value) ≡ false =
      rw (← e.answer) (is_empty-eq-false _ e.answered) in
    elim (Bool-cases (text_eq (trim cur.value) (trim e.prev.value))) [
      | inl same ↦
          absurd (e.changed (e.answer ∙ (text_eq_iff (trim cur.value) (trim e.prev.value)).0 same))
      | inr other ↦ rw (asked, answered, other) (Memᴰ.head (ground (arith, e.question, e.answer)))
    ]

-- Every edit of a field of the form is remembered: where the last run filled the field, and its
-- trimmed label and value are not empty and the value differs from the filled one.
pub collect_edits_complete :
    (applied : List LabelledField) (current : List Current) (cur : Current) (item : QaItem)
    → Memᴰ cur current
    → IsEdit applied cur item
    → Memᴰ item (collect_edits applied current)
unfolding collect_edits
collect_edits_complete applied [] cur item m e = elim m [ ]
collect_edits_complete applied (x ∷ current) cur item (Memᴰ.head same) e =
    Memᴰ-append_left item (edits_of x (map_get x.ref (by_ref applied)))
      (collect_edits applied current) (rw (← same, e.filled) (edit_of_complete applied cur item e))
collect_edits_complete applied (x ∷ current) cur item (Memᴰ.tail m) e =
    Memᴰ-append_right item _ _ (collect_edits_complete applied current cur item m e)
