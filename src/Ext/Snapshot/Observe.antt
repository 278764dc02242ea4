-- ===== src/Ext/Snapshot/Observe.antt =====
-- ext/lib/snapshot.ts, `PageObserver.observe` and `build`: one pass over the page's controls.
pub mod Refs
use otclick_hh.Common.{
  Bool, List, Option, String, Text, [], codes, find, if◌then◌else◌, is_some, is_word, keep, length,
  ltb, map, none, not, or_text, parse_int, some, take, text_eq, ℤ, ◌&&◌, ◌++◌, ◌∷◌,
}
use otclick_hh.Ext.Dom.{Dom}
use otclick_hh.Ext.Snapshot.Elements.{
  aria_toggle_peers, attr_or, field_type_of, quoted, radio_peers,
}
use otclick_hh.Ext.Snapshot.Labels.{option_label}
use otclick_hh.Ext.Snapshot.Context.{
  aria_group_context, aria_radio_group_label, described_error, durable, group_context, required_for,
  section_for,
}
use otclick_hh.Ext.Snapshot.Picks.{candidates, name_of, no_groups, picks, ref_of}
use otclick_hh.Ext.Snapshot.Options.{extract_options, is_full}

pub record SnapshotEl : Type 0 where
  pub ref : Text
  pub label : Text
  pub field_type : String
  pub selector : Text
  pub options : List Text
  pub required : Bool
  pub autocomplete : Option Text
  pub placeholder : Option Text
  pub name : Option Text
  pub value : Option Text
  -- `some none` is NaN
  pub maxlength : Option (Option ℤ)
  pub pattern' : Option Text
  pub accept : Option Text
  pub error : Option Text
  pub section : Option Text

abbrev pub full_or_none : Text → Option Text
full_or_none [] = none
full_or_none (c ∷ s) = some (c ∷ s)

module _ (d : Dom) (w : d.World) (schema : d.El → List Text) where
  open d use {El, Root, root_of, host_of, attr, input_value, is_checked, escape}

  abbrev by_ref_attr : Text → Text
  by_ref_attr ref = codes "[data-otc-ref=\"" ++ ref ++ codes "\"]"

  is_radio_group : El → Bool
  is_radio_group el = ltb 1 (length (radio_peers d w el))

  is_aria_group : El → Bool
  is_aria_group el = not (is_radio_group el) && ltb 1 (length (aria_toggle_peers d w el))

  with_group : Text → Text → Text
  with_group [] label = label
  with_group (c ∷ g) label =
      if text_eq (c ∷ g) label then label else (c ∷ g) ++ codes " — " ++ label

  label_of : El → Text
  unfolding with_group
  label_of el =
      if is_radio_group el
      then or_text (group_context d w el) (option_label d w el)
      else if is_aria_group el
      then or_text (aria_radio_group_label d w el) (option_label d w el)
      else with_group (or_text (group_context d w el) (aria_group_context d w el))
          (option_label d w el)

  abbrev label_or_empty : Option El → Text
  label_or_empty none = []
  label_or_empty (some p) = option_label d w p

  abbrev aria_checked : El → Bool
  aria_checked p = is_word (attr_or d w p "aria-checked") "true"

  value_of : El → Text
  value_of el =
      if is_radio_group el
      then label_or_empty (find (is_checked w) (radio_peers d w el))
      else if is_aria_group el
      then label_or_empty (find aria_checked (aria_toggle_peers d w el))
      else input_value w el

  selector_of : El → Text → Text
  selector_of el ref =
      if is_some (host_of (root_of w el))
      then by_ref_attr ref
      else if is_radio_group el
      then quoted d w "input[type=\"radio\"][name=\"" (escape (name_of d w el)) "\"]"
      else if is_aria_group el
      then by_ref_attr ref
      else durable d w el

  -- `build`; the control is also tagged with `ref`, in its attribute `data-otc-ref`
  pub build : El → Text → SnapshotEl
  unfolding is_radio_group is_aria_group label_of value_of selector_of
  build el ref = record {
    ref = ref;
    label = take 200 (label_of el);
    field_type = field_type_of d w el;
    selector = selector_of el ref;
    options =
        if is_aria_group el
        then keep is_full (map (option_label d w) (aria_toggle_peers d w el))
        else extract_options d w schema el;
    required = required_for d w el;
    autocomplete = attr w el "autocomplete";
    placeholder = attr w el "placeholder";
    name = attr w el "name";
    value = full_or_none (value_of el);
    maxlength = elim (attr w el "maxlength") [ none ↦ none | some c ↦ some (parse_int c) ];
    pattern' = attr w el "pattern";
    accept = attr w el "accept";
    error = described_error d w el;
    section = full_or_none (section_for d w el);
  }

  -- `observe`, over the roots that the walk has collected
  pub observe : List Root → List SnapshotEl
  observe roots =
      map (λ p. build p.1 (ref_of p.0)) (picks d w (no_groups d w) 0 (candidates d w roots))
