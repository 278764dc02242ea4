-- ===== src/Ext/Snapshot/Context.antt =====
-- ext/lib/snapshot.ts: the question of a group of options, the section of a field, whether it is
-- required, its shown error, and its durable selector.
use mathlib.Core.Option
use otclick_hh.Common.{
  Bool, List, Option, Text, [], any, codes, collapse, concat_map, false, find, head, if◌then◌else◌,
  is_empty, is_empty_list, is_some, is_word, join, keep, length, ltb, none, not, or_text, show_nat,
  some, suc, text_eq, trim, words, zero, ℕ, ◌&&◌, ◌++◌, ◌||◌, ◌∷◌,
}
use otclick_hh.Ext.Dom.{Dom}
use otclick_hh.Ext.Snapshot.Elements.{
  attr_or, has_text, is_tag, is_visible, lower_attr, quoted, shadow_host_attr,
}
use otclick_hh.Ext.Snapshot.Labels.{
  by_id, clean, ends_in_star, has_shown_text, is_boundary, resolve_labelled_by, shown_text,
}

module _ (d : Dom) (w : d.World) where
  open d use {
    El, Root, query_all, within, closest, contains, ancestors, prev_siblings, root_of,
    owner_document, tag_name, attr, text_content, required_prop, escape, to_lower,
  }

  -- `if (inp.getAttribute("name") !== name)`
  abbrev other_name : Text → El → Bool
  other_name name inp = not (is_some (attr w inp "name") && text_eq (attr_or d w inp "name") name)

  -- the legend or label of a scope that wraps no input and not `el`
  group_label : El → El → Option El
  group_label el scope =
      find
        (λ c.
          is_empty_list (within w c (codes "input"))
          && not (contains w c el)
          && has_shown_text d w c)
        (within w scope (codes "legend, .legend, label"))

  -- the loop of `groupContext`
  group_context_from : El → Text → ℕ → List El → Text
  group_context_from el name zero scopes = []
  group_context_from el name (suc n) [] = []
  group_context_from el name (suc n) (scope ∷ scopes) =
      let rest = group_context_from el name n scopes in
      if is_boundary d w scope
        || any (other_name name) (within w scope (codes "input, select, textarea"))
      then []
      else elim (group_label el scope) [ some c ↦ clean (text_content w c) | none ↦ rest ]

  abbrev is_option_type : Text → Bool
  is_option_type type = is_word type "radio" || is_word type "checkbox"

  -- the inputs of `el`'s type and name
  abbrev named_peers : El → List El
  named_peers el = query_all w (owner_document el) (
      quoted d w "input[type=\"" (lower_attr d w el "type") "\"][name=\""
      ++ quoted d w "" (escape (attr_or d w el "name")) "\"]")

  pub group_context : El → Text
  unfolding group_context_from group_label
  group_context el =
      if not (is_option_type (lower_attr d w el "type"))
        || not (has_text d w el "name")
        || ltb (length (named_peers el)) 2
      then []
      else group_context_from el (attr_or d w el "name") 5 (ancestors w el)

  abbrev label_of_group : El → Option El → Text
  label_of_group el none = []
  label_of_group el (some group) =
      if has_text d w group "aria-labelledby"
      then clean (resolve_labelled_by d w (attr_or d w group "aria-labelledby") (root_of w el))
      else []

  pub aria_radio_group_label : El → Text
  aria_radio_group_label el = label_of_group el (closest w el (codes "[role=\"radiogroup\"]"))

  pub aria_group_context : El → Text
  aria_group_context el =
      if not (is_word (lower_attr d w el "role") "checkbox")
      then []
      else label_of_group el (closest w el (codes "[role=\"list\"][aria-labelledby]"))

  -- `labs` of `labelRequiredMarker`
  abbrev by_ids : El → List El
  by_ids el =
      concat_map (λ id. elim (by_id d w (owner_document el) id) [ none ↦ [] | some l ↦ l ∷ [] ])
        (words (attr_or d w el "aria-labelledby"))

  abbrev opt_el : Option El → List El
  opt_el none = []
  opt_el (some l) = l ∷ []

  abbrev or_els : List El → List El → List El
  or_els [] ys = ys
  or_els (x ∷ xs) ys = x ∷ xs

  abbrev required_labels : El → List El
  required_labels el = or_els (by_ids el) (
      or_els
        (if has_text d w el "id"
          then opt_el (
              head (
                query_all w (owner_document el)
                  (quoted d w "label[for=\"" (escape (attr_or d w el "id")) "\"]")))
          else [])
        (opt_el (closest w el (codes "label"))))

  pub label_required_marker : El → Bool
  unfolding ends_in_star
  label_required_marker el =
      any
        (λ l.
          is_some (head (within w l (codes "[class*=\"req\"], .required, .asterisk")))
          || ends_in_star (text_content w l))
        (required_labels el)

  abbrev is_true : Option Text → Bool
  is_true none = false
  is_true (some v) = is_word v "true"

  pub required_for : El → Bool
  required_for el =
      required_prop w el
      || is_some (attr w el "required")
      || is_true (attr w el "aria-required")
      || is_some (shadow_host_attr d w el "required")
      || is_true (shadow_host_attr d w el "aria-required")
      || label_required_marker el

  abbrev shown_error : Option El → Bool
  shown_error none = false
  shown_error (some e) = has_shown_text d w e && is_visible d w e

  error_in : Root → List Text → Option Text
  error_in doc [] = none
  error_in doc (id ∷ ids) =
      let rest = error_in doc ids in
      if shown_error (by_id d w doc id)
      then Option.map (λ e. trim (collapse (text_content w e))) (by_id d w doc id)
      else rest

  pub described_error : El → Option Text
  unfolding error_in
  described_error el = error_in (owner_document el) (words (attr_or d w el "aria-describedby"))

  abbrev is_heading : El → Bool
  is_heading sib =
      is_tag d w sib "H1" || is_tag d w sib "H2" || is_tag d w sib "H3" || is_tag d w sib "H4"

  -- what one preceding sibling gives: its own text, or that of the first heading in it
  heading_text : El → Text
  heading_text sib =
      or_text (if is_heading sib then shown_text d w (some sib) else [])
        (shown_text d w (head (within w sib (codes "h1, h2, h3, h4"))))

  -- the inner loop of `sectionFor`
  heading_before : List El → Text
  heading_before [] = []
  heading_before (sib ∷ sibs) = or_text (heading_text sib) (heading_before sibs)

  -- the outer loop, over the element and its ancestors
  heading_above : List El → Text
  heading_above [] = []
  heading_above (node ∷ nodes) =
      or_text (heading_before (prev_siblings w node)) (heading_above nodes)

  abbrev legend_of : Option El → Text
  legend_of none = []
  legend_of (some fs) = shown_text d w (head (within w fs (codes "legend")))

  abbrev trimmed_text : Option El → List Text
  trimmed_text none = []
  trimmed_text (some e) =
      if is_empty (trim (text_content w e)) then [] else trim (text_content w e) ∷ []

  abbrev group_heading : El → Option El → Text
  group_heading el none = []
  group_heading el (some group) = join (codes " ") (
      concat_map (λ id. trimmed_text (by_id d w (owner_document el) id))
        (words (attr_or d w group "aria-labelledby")))

  pub section_for : El → Text
  unfolding heading_above heading_before heading_text
  section_for el = trim (
      collapse (
        or_text (legend_of (closest w el (codes "fieldset"))) (
          or_text
            (group_heading el (
              closest w el
                (codes "[role=group][aria-labelledby], [role=radiogroup][aria-labelledby]")))
            (heading_above (el ∷ ancestors w el)))))

  -- the position of a node among the siblings of its tag, counted from 1
  abbrev nth_of_type : El → ℕ
  nth_of_type node =
      suc (length (keep (λ sib. text_eq (tag_name sib) (tag_name node)) (prev_siblings w node)))

  abbrev path_part : El → Text
  path_part node =
      to_lower (tag_name node) ++ codes ":nth-of-type(" ++ show_nat (nth_of_type node) ++ codes ")"

  -- the loop of `durable`, up to the body; `parts` has the outermost step first
  path_parts : List Text → List El → List Text
  path_parts parts [] = parts
  path_parts parts (node ∷ nodes) =
      let rest = path_parts (path_part node ∷ parts) nodes in
      if is_tag d w node "BODY" then parts else rest

  pub durable : El → Text
  unfolding path_parts
  durable el =
      if has_text d w el "id"
      then codes "#" ++ escape (attr_or d w el "id")
      else if has_text d w el "name"
          && is_option_type (lower_attr d w el "type")
          && is_some (attr w el "value")
      then quoted d w "input[name=\"" (attr_or d w el "name") "\"][value=\""
        ++ quoted d w "" (attr_or d w el "value") "\"]"
      else if has_text d w el "name"
      then to_lower (tag_name el) ++ quoted d w "[name=\"" (attr_or d w el "name") "\"]"
      else join (codes " > ") (path_parts [] (el ∷ ancestors w el))
