-- ===== src/Ext/Snapshot/Picks.antt =====
-- ext/lib/snapshot.ts, the loop of `PageObserver.observe`: which controls are snapshotted. A group of
-- radio buttons is one question, so it gives one control.
pub mod Groups
pub mod Shown
use otclick_hh.Common.{
  Bool, List, Text, [], any, codes, concat_map, if◌then◌else◌, is_word, length, ltb, map, none, not,
  show_nat, some, suc, text_eq, ℕ, ◌&&◌, ◌++◌, ◌||◌, ◌∷◌,
}
use otclick_hh.Ext.Dom.{Dom}
use otclick_hh.Ext.Snapshot.Elements.{
  aria_toggle_peers, attr_or, hidden_ancestor, is_file_input, is_owned_popup, is_tag, is_visible,
  lower_attr, radio_peers,
}

-- `SNAPSHOT_SELECTOR`
abbrev pub snapshot_selector : Text
snapshot_selector =
    codes
      "input, textarea, select, button, a[href], [role=combobox], [role=listbox], [role=checkbox], [role=radio], [role=button], [role=textbox]"

abbrev pub ref_of : ℕ → Text
ref_of i = codes "e" ++ show_nat i

-- What one control does to the pass: it is skipped, it spends its group's place without being shown,
-- or it is snapshotted.
pub data Step (S : Type 0) : Type 0 where
  skip : Step S
  spend : S → Step S
  pick : S → Step S

module _ (d : Dom) (w : d.World) where
  open d use {El, Root, query_all, closest, same_el}

  -- `seenRadioGroups` and `seenAriaRadioGroups`
  pub record Seen : Type 0 where
    pub names : List Text
    pub groups : List El

  abbrev pub type_of : El → Text
  type_of el = lower_attr d w el "type"

  -- `["hidden", "reset", "image"].includes(type)` on an input, or the popup of another control
  unfoldable pub is_ignored : Root → El → Bool
  is_ignored r el =
      is_tag d w el "INPUT"
        && (is_word (type_of el) "hidden"
            || is_word (type_of el) "reset"
            || is_word (type_of el) "image")
      || is_owned_popup d w el r

  -- a native radio button whose name other radio buttons share
  abbrev pub in_named_group : El → Bool
  in_named_group el = is_word (type_of el) "radio" && ltb 1 (length (radio_peers d w el))

  abbrev pub in_aria_group : El → Bool
  in_aria_group el =
      not (is_word (type_of el) "radio")
      && is_word (lower_attr d w el "role") "radio"
      && ltb 1 (length (aria_toggle_peers d w el))

  abbrev pub name_of : El → Text
  name_of el = attr_or d w el "name"

  -- `el.closest('[role="radiogroup"]')!`, as the elements to note
  abbrev pub group_of : El → List El
  group_of el = elim (closest w el (codes "[role=\"radiogroup\"]")) [ none ↦ [] | some g ↦ g ∷ [] ]

  abbrev pub seen_name : Seen → Text → Bool
  seen_name seen name = any (text_eq name) seen.names

  abbrev pub seen_group : Seen → List El → Bool
  seen_group seen gs = any (λ g. any (same_el g) seen.groups) gs

  abbrev pub is_shown : El → Bool
  is_shown el = is_visible d w el || is_file_input d w el && not (hidden_ancestor d w el)

  abbrev pub show_step : Seen → El → Step Seen
  show_step seen el = if is_shown el then pick seen else spend seen

  -- the body of the loop
  pub step : Seen → Root → El → Step Seen
  step seen r el =
      if is_ignored r el
      then skip
      else if in_named_group el
      then (if seen_name seen (name_of el)
          then skip
          else show_step (record seen { names = name_of el ∷ seen.names }) el)
      else if in_aria_group el
      then (if seen_group seen (group_of el)
          then skip
          else show_step (record seen { groups = group_of el ++ seen.groups }) el)
      else show_step seen el

  -- The numbered controls that are snapshotted, over the controls of each root in turn.
  pub picks : Seen → ℕ → List (Root × El) → List (ℕ × El)
  picks seen i [] = []
  picks seen i ((r, el) ∷ cs) = elim (step seen r el) [
    | skip ↦ picks seen i cs
    | spend seen' ↦ picks seen' i cs
    | pick seen' ↦ (i, el) ∷ picks seen' (suc i) cs
  ]

  abbrev pub candidates : List Root → List (Root × El)
  candidates roots = concat_map (λ r. map (λ el. (r, el)) (query_all w r snapshot_selector)) roots

  abbrev pub no_groups : Seen
  no_groups = record { names = []; groups = [] }
