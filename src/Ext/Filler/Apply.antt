-- ===== src/Ext/Filler/Apply.antt =====
-- ext/lib/snapshot.ts, `FormFiller.apply`: the loop over the fields of a fill.
pub mod Receipt
use otclick_hh.Common.{
  Bool, List, Option, [], false, if◌then◌else◌, is_empty, none, not, some, true, ℕ, ◌++◌, ◌==◌, ◌∷◌,
}
use otclick_hh.Ext.Api.{FilledField}
use otclick_hh.Ext.Dom.{Dom, find_el}
use otclick_hh.Ext.Filler.Actions.{Actions}
use otclick_hh.Ext.Filler.Controls.{
  Attempt, attach_file, failed, page_roots, returned, set_radio_group, set_select, set_toggle,
}

module _ {Blob : Type 0} (d : Dom) (a : Actions d Blob) (document : d.Root) (depth : ℕ) where
  open d use {World, El}
  open a use {set_text, is_selector}

  abbrev of_pair : World × Bool → Attempt World
  of_pair (w, b) = returned w b

  abbrev of_setter : World → Option World → Attempt World
  of_setter w none = failed w
  of_setter w (some w') = returned w' true

  -- The body of the `try`, with whether the field is pushed to the receipt: after `setRadioGroup`,
  -- `setToggle` and `setText`, which give nothing back, it always is.
  unfoldable pub fill_one : World → El → FilledField → Attempt World
  fill_one w el f =
      if f.field_type == "file"
      then attach_file d a document depth w el f
      else if f.field_type == "select"
      then of_pair (set_select d a document depth w el f.value)
      else if f.field_type == "radio"
      then returned (set_radio_group d a document depth w el f.value) true
      else if f.field_type == "checkbox"
      then returned (set_toggle d a document depth w el f.value) true
      else of_setter w (set_text w el f.value)

  -- the page, and the fields that were pushed, `none` where an exception ends the loop
  abbrev pub Progress : Type 0
  Progress = World × Option (List FilledField)

  -- `applied.push(f)`; an error in the `try` is logged and dropped
  abbrev pub noted : FilledField → Attempt World → Progress
  noted f (returned w true) = (w, some (f ∷ []))
  noted f (returned w false) = (w, some [])
  noted f (failed w) = (w, some [])

  -- `if (!f.value) continue; const el = findEl(f.selector); if (!el) continue;`: the search stands
  -- outside the `try`, and throws on a text that is no selector
  unfoldable pub apply_one : World → FilledField → Progress
  unfolding fill_one
  apply_one w f =
      if is_empty f.value
      then (w, some [])
      else if not (is_selector f.selector)
      then (w, none)
      else elim (find_el d w (page_roots d a document depth w) f.selector) [
        | none ↦ (w, some [])
        | some el ↦ noted f (fill_one w el f)
      ]

  abbrev pub prepend : List FilledField → Progress → Progress
  prepend here (w, none) = (w, none)
  prepend here (w, some later) = (w, some (here ++ later))

  abbrev pub then_apply : Progress → (World → Progress) → Progress
  then_apply (w, none) next = (w, none)
  then_apply (w, some here) next = prepend here (next w)

  unfoldable pub apply : World → List FilledField → Progress
  apply w [] = (w, some [])
  apply w (f ∷ fs) = then_apply (apply_one w f) (λ w1. apply w1 fs)
