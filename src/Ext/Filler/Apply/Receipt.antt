-- ===== src/Ext/Filler/Apply/Receipt.antt =====
-- ext/lib/snapshot.ts: the receipt of a fill, the fields that `apply` reports.
use otclick_hh.Common.{
  List, Option, String, [], ap, false, is_empty, length, refl, some, trim, true, ℕ, ◌++◌, ◌<◌, ◌==◌,
  ◌∙◌, ◌∷◌, ◌≡◌,
}
use otclick_hh.Ext.Api.{FilledField}
use otclick_hh.Ext.Dom.{Dom, find_el}
use otclick_hh.Ext.Filler.Actions.{Actions}
use otclick_hh.Ext.Filler.Controls.{page_roots, returned, set_radio_group}
use otclick_hh.Ext.Snapshot.Elements.{radio_peers}
use otclick_hh.Ext.Filler.Controls.Radio.{set_radio_group-unmatched, some_peer}
use otclick_hh.Ext.Filler.Apply.{apply, apply_one, fill_one, noted}

not_file : (s : String) → s ≡ "radio" → (s == "file") ≡ false
not_file s e = rw e

not_select : (s : String) → s ≡ "radio" → (s == "select") ≡ false
not_select s e = rw e

is_radio : (s : String) → s ≡ "radio" → (s == "radio") ≡ true
is_radio s e = rw e

module _ {Blob : Type 0} (d : Dom) (a : Actions d Blob) (document : d.Root) (depth : ℕ) where
  open d use {World, El, input_value, is_input, to_lower}

  abbrev pub run : World → List FilledField → World × Option (List FilledField)
  run = apply d a document depth

  abbrev pub run_one : World → FilledField → World × Option (List FilledField)
  run_one = apply_one d a document depth

  abbrev pub locate : World → FilledField → Option El
  locate w f = find_el d w (page_roots d a document depth w) f.selector

  -- On the page `w` the field has a value, its element is found, and the step for its type leaves
  -- the page `w'` and has the field pushed. For a select and a file that step checks the control;
  -- for a radio button, a check box and a text it is enough that nothing is thrown.
  abbrev pub IsApplied : World → FilledField → World → Type 0
  IsApplied w f w' =
      (is_empty f.value ≡ false)
      × (a.is_selector f.selector ≡ true)
      × ((el : El) × (locate w f ≡ some el)
          × (fill_one d a document depth w el f ≡ returned w' true))

  -- One of the fields of a fill from the page `w`, applied when its turn came: on the page that the
  -- fields before it had left.
  abbrev pub WasApplied : World → List FilledField → FilledField → Type 0
  WasApplied w fs f =
      (before : List FilledField) × (after : List FilledField) × (fs ≡ before ++ f ∷ after)
      × ((w' : World) × IsApplied (run w before).0 f w')

  fill_radio :
      (w : World) (el : El) (f : FilledField)
      → f.field_type ≡ "radio"
      → fill_one d a document depth w el f
        ≡ returned (set_radio_group d a document depth w el f.value) true
  unfolding fill_one
  fill_radio w el f e =
      rw (not_file f.field_type e, not_select f.field_type e, is_radio f.field_type e) refl

  -- A radio field is reported as applied also where no button of its group has the answer as its
  -- label or value, though the page is left as it was.
  pub radio_reported_unmatched :
      (w : World) (el : El) (f : FilledField)
      → is_empty f.value ≡ false
      → locate w f ≡ some el
      → f.field_type ≡ "radio"
      → is_input el ≡ true
      → 1 < length (radio_peers d w el)
      → some_peer d a document depth w el (to_lower (trim f.value)) ≡ false
      → a.is_selector f.selector ≡ true
      → run_one w f ≡ (w, some (f ∷ []))
  unfolding apply_one
  radio_reported_unmatched w el f full found radio native many none_fits good =
      rw (full, good, found)
        (ap (noted d a document depth f) (
          fill_radio w el f radio
          ∙ ap (λ w'. returned w' true)
              (set_radio_group-unmatched d a document depth w el f.value native many none_fits)))
