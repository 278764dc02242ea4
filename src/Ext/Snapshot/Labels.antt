-- ===== src/Ext/Snapshot/Labels.antt =====
-- ext/lib/snapshot.ts: the label, the section and the question of a field, its durable selector,
-- and whether it is required.
use mathlib.Core.List.{reverse}
use mathlib.Core.Option
use otclick_hh.Common.{
  Bool, List, Option, Text, [], any, codes, collapse, concat_map, eqb, false, find, head,
  if◌then◌else◌, is_empty, is_empty_list, is_word, join, none, not, or_else, or_text, some, suc,
  trim, without_stars, words, zero, ℕ, ◌&&◌, ◌++◌, ◌||◌, ◌∷◌,
}
use otclick_hh.Ext.Dom.{Dom}
use otclick_hh.Ext.Snapshot.Elements.{attr_or, has_text, is_tag, quoted, shadow_host_attr}

-- `s.replace(/\s+/g, " ").replace(/\*/g, "").trim()`
unfoldable pub clean : Text → Text
clean s = trim (without_stars (collapse s))

-- `/\*\s*$/.test(s.trim())`
unfoldable pub ends_in_star : Text → Bool
ends_in_star s = elim (head (reverse (trim s))) [ none ↦ false | some c ↦ eqb c b'*' ]

abbrev some_text : Option Text → List Text
some_text none = []
some_text (some t) = if is_empty (trim t) then [] else t ∷ []

module _ (d : Dom) (w : d.World) where
  open d use {
    El, Root, query_all, within, closest, contains, same_el, ancestors, prev_siblings, root_of,
    owner_document, tag_name, attr, text_content, escape, to_lower,
  }

  -- `textContent` if it is not blank, else ""
  abbrev pub shown_text : Option El → Text
  shown_text none = []
  shown_text (some e) = if is_empty (trim (text_content w e)) then [] else text_content w e

  abbrev pub by_id : Root → Text → Option El
  by_id root id = head (query_all w root (codes "#" ++ escape id))

  abbrev pub has_shown_text : El → Bool
  has_shown_text e = not (is_empty (trim (text_content w e)))

  -- `FORM` and `BODY` end the climb of a label's search.
  abbrev pub is_boundary : El → Bool
  is_boundary scope = is_tag d w scope "FORM" || is_tag d w scope "BODY"

  -- the label or legend of a scope that wraps no control and not `el`
  own_label : El → El → Option El
  own_label el scope =
      find
        (λ c.
          is_empty_list (within w c (codes "input, select, textarea"))
          && not (contains w c el)
          && has_shown_text c)
        (within w scope (codes "label, legend"))

  -- the loop of `containerLabel`: the rounds left, and the scopes from the parent upwards
  container_label_from : El → ℕ → List El → Text
  container_label_from el zero scopes = []
  container_label_from el (suc n) [] = []
  container_label_from el (suc n) (scope ∷ scopes) =
      let rest = container_label_from el n scopes in
      if is_boundary scope
        || any (λ inp. not (same_el inp el)) (within w scope (codes "input, select, textarea"))
      then []
      else elim (own_label el scope) [ some c ↦ text_content w c | none ↦ rest ]

  pub container_label : El → Text
  unfolding container_label_from own_label
  container_label el = container_label_from el 5 (ancestors w el)

  -- `resolveLabelledBy`
  pub resolve_labelled_by : Text → Root → Text
  resolve_labelled_by ids root =
      join (codes " ")
        (concat_map (λ id. some_text (Option.map (text_content w) (by_id root id))) (words ids))

  abbrev labelled_by : El → Text
  labelled_by el =
      if has_text d w el "aria-labelledby"
      then resolve_labelled_by (attr_or d w el "aria-labelledby") (root_of w el)
      else []

  -- the branch of `accName` for native controls
  control_label : El → Text
  control_label el =
      let host =
        or_else (shadow_host_attr d w el "label")
          (or_else (shadow_host_attr d w el "aria-label") []) in
      or_text (container_label el) (if is_empty (trim host) then [] else host)

  abbrev is_control_tag : Text → Bool
  is_control_tag tag = is_word tag "input" || is_word tag "textarea" || is_word tag "select"

  unfoldable pub acc_name : El → Text
  unfolding control_label
  acc_name el =
      or_text
        (if has_text d w el "id"
          then shown_text (
              head (
                query_all w (root_of w el)
                  (quoted d w "label[for=\"" (escape (attr_or d w el "id")) "\"]")))
          else [])
        (or_text (shown_text (closest w el (codes "label"))) (
          or_text (attr_or d w el "aria-label") (
            or_text (labelled_by el) (
              or_text (if is_control_tag (to_lower (tag_name el)) then control_label el else []) (
                or_text (attr_or d w el "placeholder")
                  (or_text (attr_or d w el "name") (trim (text_content w el))))))))

  -- `radioOptionLabel` and `ariaOptionLabel`, which read alike
  unfoldable pub option_label : El → Text
  unfolding clean
  option_label el = clean (acc_name el)
