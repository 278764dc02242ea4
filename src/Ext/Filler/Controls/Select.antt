-- ===== src/Ext/Filler/Controls/Select.antt =====
-- ext/lib/snapshot.ts: the native `<select>`, and what each outcome of `setSelect` leaves.
use otclick_hh.Common.{
  Bool, Bool-cases, List, Option, Text, [], ap, arith, eqb, false, inl, inr, length, none, refl,
  some, suc, text_eq, text_eq_iff, true, ℕ, ◌+◌, ◌<◌, ◌∷◌, ◌≡◌, ◌≢◌, ◌≤◌,
}
use otclick_hh.Ext.Dom.{Dom}
use otclick_hh.Ext.Filler.Actions.{Actions}
use otclick_hh.Ext.Filler.Choices.{match_from, norm, option_matches}
use otclick_hh.Ext.Filler.Controls.{same_index, set_native_select}

-- What a `<select>` does, as the HTML standard has it: `selectedIndex = i` selects the option at `i`,
-- and a value that is not taken leaves nothing selected.
pub record SelectLaws {Blob : Type 0} (d : Dom) (a : Actions d Blob) : Type 0 where
  pub index_assigned :
      (w : d.World) (el : d.El) (i : ℕ)
      → i < length (d.select_options w el)
      → a.selected_index (a.assign_index w el i) el ≡ some i
  pub value_refused :
      (w : d.World) (el : d.El) (v : Text)
      → d.input_value (a.assign_value w el v) el ≢ v
      → a.selected_index (a.assign_value w el v) el ≡ none

match_from-lt :
    (to_lower : Text → Text) (k : ℕ) (want : Text) (os : List (Text × Text)) (i : ℕ)
    → match_from to_lower k want os ≡ some i
    → (k ≤ i) × (i < k + length os)
unfolding match_from
match_from-lt to_lower k want [] i h = cc
match_from-lt to_lower k want (o ∷ os) i h = elim (Bool-cases (option_matches to_lower want o)) [
  | inl e ↦ ground arith
  | inr e ↦ ground (arith, match_from-lt to_lower (suc k) want os i)
]

text_eq-false : (s t : Text) → s ≢ t → text_eq s t ≡ false
text_eq-false s t h = elim (Bool-cases (text_eq s t)) [
  | inl e ↦ absurd (h ((text_eq_iff s t).0 e))
  | inr e ↦ e
]

same_index_refl : (i : ℕ) → same_index (some i) (some i) ≡ true
same_index_refl i = ground arith

same_index-false : (i : ℕ) (o : Option ℕ) → o ≢ some i → same_index (some i) o ≡ false
same_index-false i none h = refl
same_index-false i (some j) h = elim (Bool-cases (eqb i j)) [
  | inl e ↦ absurd (h (ap some (ground arith)))
  | inr e ↦ e
]

module _ {Blob : Type 0} (d : Dom) (a : Actions d Blob) (document : d.Root) (depth : ℕ)
    (laws : SelectLaws d a) (w : d.World) (el : d.El) (value : Text) where
  open d use {World, input_value, select_options, to_lower}
  open a use {selected_index, assign_value, assign_index, change_event}

  abbrev pub assigned : World
  assigned = assign_value w el value

  abbrev pub by_text : Option ℕ
  by_text = match_from to_lower 0 (norm to_lower value) (select_options assigned el)

  in_range : (i : ℕ) → by_text ≡ some i → i < length (select_options assigned el)
  in_range i found = omega (arith, match_from-lt to_lower 0 (norm to_lower value) _ i found)

  abbrev outcome : World × Bool
  outcome = set_native_select d a document depth w el value

  -- In a select that does as the HTML standard has it, where the value itself is not taken, the
  -- first option whose normalized text or value is the normalized answer is selected, and the
  -- field counts as filled if that option was not the selected one before.
  pub set_native_select_by_text :
      (i : ℕ)
      → input_value assigned el ≢ value
      → by_text ≡ some i
      → selected_index w el ≢ some i
      → outcome ≡ (change_event (assign_index assigned el i) el, true)
  unfolding set_native_select
  set_native_select_by_text i refused found other =
      rw
        (
          text_eq-false (input_value assigned el) value refused,
          found,
          laws.index_assigned assigned el i (in_range i found),
          same_index-false i (selected_index w el) other,
        )
        refl

  -- In a select that does as the HTML standard has it, where neither the value is taken nor an
  -- option matches, the field does not count as filled, and nothing stays selected, whatever was
  -- selected before.
  pub set_native_select_unmatched :
      input_value assigned el ≢ value
      → by_text ≡ none
      → (outcome ≡ (assigned, false)) × (selected_index assigned el ≡ none)
  unfolding set_native_select
  set_native_select_unmatched refused missed = (
    rw
        (
          text_eq-false (input_value assigned el) value refused,
          missed,
          laws.value_refused w el value refused,
        )
        refl,
    laws.value_refused w el value refused,
  )

  -- In a select that does as the HTML standard has it, where the option that matches the answer
  -- by its text is the one that was selected all along, and its value is not the answer, the fill
  -- selects it again and yet reports a failure.
  pub set_native_select_already_chosen :
      (i : ℕ)
      → input_value assigned el ≢ value
      → by_text ≡ some i
      → selected_index w el ≡ some i
      → input_value (assign_index assigned el i) el ≢ value
      → (outcome ≡ (assign_index assigned el i, false))
        × (selected_index (assign_index assigned el i) el ≡ some i)
  unfolding set_native_select
  set_native_select_already_chosen i refused found before kept = (
    rw
        (
          text_eq-false (input_value assigned el) value refused,
          found,
          before,
          chosen,
          same_index_refl i,
          text_eq-false _ value kept,
        )
        refl,
    chosen,
  )
    where
      chosen : selected_index (assign_index assigned el i) el ≡ some i
      chosen = laws.index_assigned assigned el i (in_range i found)
