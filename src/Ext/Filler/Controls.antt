-- ===== src/Ext/Filler/Controls.antt =====
-- ext/lib/snapshot.ts: the methods of `FormFiller` that set one control.
pub mod Select
pub mod Options
pub mod Radio
use otclick_hh.Common.{
  Bool, List, Option, Text, [], codes, eqb, false, find, head, if◌then◌else◌, is_empty, is_some,
  is_word, keep, leb, length, ltb, none, not, or_else, or_text, some, text_eq, trim, true, ℕ, ◌&&◌,
  ◌++◌, ◌||◌, ◌∷◌,
}
use otclick_hh.Ext.Api.{FilledField}
use otclick_hh.Ext.Dom.{Dom, collect_roots}
use otclick_hh.Ext.Snapshot.Elements.{aria_toggle_peers, attr_or, is_tag, is_visible, radio_peers}
use otclick_hh.Ext.Snapshot.Labels.{option_label}
use otclick_hh.Ext.Filler.Actions.{Actions, Fetched, fetched, wait_for_dom}
use otclick_hh.Ext.Filler.Choices.{best_option, best_peer, is_truthy, match_from, norm}

-- `s.split(sep)[0]` and `s.split(sep).pop()`
abbrev pub before_first : ℕ → Text → Text
before_first sep [] = []
before_first sep (c ∷ s) = let rest = c ∷ before_first sep s in if eqb c sep then [] else rest

after_last_from : ℕ → Text → Text → Text
after_last_from sep part [] = part
after_last_from sep part (c ∷ s) = after_last_from sep (if eqb c sep then [] else part ++ c ∷ []) s

-- `f.filename || (f.value.split("?")[0].split("/").pop() || "resume.pdf")`
unfoldable pub filename_of : FilledField → Text
unfolding after_last_from
filename_of f =
    or_text (or_else f.filename [])
      (or_text (after_last_from b'/' [] (before_first b'?' f.value)) (codes "resume.pdf"))

-- `===` on indices
abbrev pub same_index : Option ℕ → Option ℕ → Bool
same_index none none = true
same_index (some i) (some j) = eqb i j
same_index _ _ = false

-- What a method leaves: the page, with the answer that decides whether the field counts as applied,
-- or the page when it threw.
pub data Attempt (W : Type 0) : Type 0 where
  returned : W → Bool → Attempt W
  failed : W → Attempt W

-- `document` and `depth` are where the walk over the roots starts and its fuel.
module _ {Blob : Type 0} (d : Dom) (a : Actions d Blob) (document : d.Root) (depth : ℕ) where
  open d use {
    World, El, Root, query_all, within, root_of, closest, tag_name, attr, text_content, is_input,
    input_value, select_options, escape, to_lower,
  }
  open a use {
    set_text, set_checked, real_click, focus, selected_index, assign_value, assign_index,
    change_event, set_files, files_length, mutations, cached, fetch, background,
  }

  abbrev pub page_roots : World → List Root
  page_roots w = collect_roots d w depth document

  abbrev or_fetched : Fetched Blob → Option Blob → Option Blob
  or_fetched (fetched b) other = some b
  or_fetched _ other = other

  -- `downloadAttachment`: the prefetched file, else a fetch from the page, else the background
  pub download_attachment : Text → Option Blob
  download_attachment url = elim (cached url) [
    | some (some b) ↦ some b
    | some none ↦ or_fetched (fetch url) (background url)
    | none ↦ or_fetched (fetch url) (background url)
  ]

  attach_blob : World → El → FilledField → Option Blob → Attempt World
  attach_blob w el f none = returned w false
  attach_blob w el f (some blob) =
      let w' = set_files w el blob (filename_of f) in returned w' (ltb 0 (files_length w' el))

  -- `attachFile`
  pub attach_file : World → El → FilledField → Attempt World
  unfolding download_attachment attach_blob
  attach_file w el f = attach_blob w el f (download_attachment f.value)

  abbrev pub assign_match : World → El → Option ℕ → World
  assign_match w el none = w
  assign_match w el (some i) = assign_index w el i

  -- the native `<select>` branch up to the check: the page after the choice was made
  pub choose : World → El → Text → World
  choose w el value =
      let w1 = assign_value w el value in
      if text_eq (input_value w1 el) value
      then w1
      else assign_match w1 el (match_from to_lower 0 (norm to_lower value) (select_options w1 el))

  -- `sel.selectedIndex < 0 || (sel.selectedIndex === before && sel.value !== f.value)`
  pub is_no_choice : World → El → Option ℕ → Text → Bool
  is_no_choice w el before value =
      not (is_some (selected_index w el))
      || same_index (selected_index w el) before && not (text_eq (input_value w el) value)

  pub set_native_select : World → El → Text → World × Bool
  unfolding choose is_no_choice
  set_native_select w el value =
      let w' = choose w el value in
      if is_no_choice w' el (selected_index w el) value
      then (w', false)
      else (change_event w' el, true)

  role_option : Text
  role_option = codes "[role=\"option\"]"

  abbrev pub first_in : Text → World → List Root → Option El
  first_in selector w [] = none
  first_in selector w (r ∷ rs) = elim (head (query_all w r selector)) [
    | some el ↦ some el
    | none ↦ first_in selector w rs
  ]

  -- `_optionScope` and the options in it: those of the listbox that the control owns, or those of
  -- its root where no such listbox is found
  pub options_in_scope : World → El → List El
  unfolding role_option
  options_in_scope w el =
      let id = or_text (attr_or d w el "aria-controls") (attr_or d w el "aria-owns") in
      let unlinked = query_all w (root_of w el) role_option in
      if is_empty id then unlinked else elim (first_in (codes "#" ++ escape id) w (page_roots w)) [
        | some lb ↦ within w lb role_option
        | none ↦ unlinked
      ]

  -- `check` of `pickComboboxOption`
  pub wanted_option : El → Text → World → Option El
  unfolding options_in_scope
  wanted_option el value w =
      best_option to_lower (text_content w) (norm to_lower value)
        (keep (is_visible d w) (options_in_scope w el))

  abbrev click_found : Option El × World → World × Bool
  click_found (some target, w) = (real_click w target, true)
  click_found (none, w) = (w, false)

  pub pick_combobox_option : World → El → Text → World × Bool
  unfolding wanted_option
  pick_combobox_option w el value =
      let w1 = real_click (focus w el) el in
      click_found (wait_for_dom (wanted_option el value) w1 (mutations w1))

  -- `setSelect`
  pub set_select : World → El → Text → World × Bool
  unfolding set_native_select pick_combobox_option
  set_select w el value =
      if not (is_tag d w el "SELECT")
      then pick_combobox_option w el value
      else set_native_select w el value

  abbrev pub aria_checked : World → El → Bool
  aria_checked w el = is_word (attr_or d w el "aria-checked") "true"

  -- `setAriaToggle`
  pub set_aria_toggle : World → El → Text → World
  set_aria_toggle w el value =
      let truthy = is_truthy (to_lower (trim value)) in
      if truthy && not (aria_checked w el) || not truthy && aria_checked w el
      then real_click w el
      else w

  -- `setToggle`
  pub set_toggle : World → El → Text → World
  unfolding set_aria_toggle
  set_toggle w el value =
      if not (is_input el)
      then set_aria_toggle w el value
      else set_checked w el (is_truthy (trim (to_lower value)))

  aria_group : World → El → List El
  aria_group w el =
      if ltb 1 (length (aria_toggle_peers d w el)) then aria_toggle_peers d w el else el ∷ []

  abbrev click_unchecked : World → Option El → World
  click_unchecked w none = w
  click_unchecked w (some p) = if aria_checked w p then w else real_click w p

  -- `setAriaRadioGroup`
  pub set_aria_radio_group : World → El → Text → World
  unfolding aria_group
  set_aria_radio_group w el value = click_unchecked w (
      find (λ p. text_eq (to_lower (option_label d w p)) (to_lower (trim value))) (aria_group w el))

  abbrev check_peer : World → Option El → World
  check_peer w none = w
  check_peer w (some p) = set_checked w p true

  -- `setRadioGroup`
  pub set_radio_group : World → El → Text → World
  unfolding set_aria_radio_group set_toggle
  set_radio_group w el value =
      if not (is_input el)
      then set_aria_radio_group w el value
      else if leb (length (radio_peers d w el)) 1
      then set_toggle w el value
      else check_peer w (
          best_peer to_lower (option_label d w) (input_value w) (to_lower (trim value))
            (radio_peers d w el))
