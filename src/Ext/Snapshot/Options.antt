-- ===== src/Ext/Snapshot/Options.antt =====
-- ext/lib/snapshot.ts, `extractOptions`: the choices of a field.
use otclick_hh.Common.{
  Bool, List, Option, String, Text, [], codes, eqb, head, if◌then◌else◌, is_empty, is_word, keep,
  length, ltb, map, none, not, or_text, some, starts_with, trim, ℕ, ◌||◌, ◌∷◌,
}
use otclick_hh.Ext.Dom.{Dom}
use otclick_hh.Ext.Snapshot.Elements.{
  attr_or, has_text, is_tag, is_visible, lower_attr, radio_peers,
}
use otclick_hh.Ext.Snapshot.Labels.{by_id, option_label}

abbrev is_dash : ℕ → Bool
is_dash c = eqb c b'-' || eqb c 8211 || eqb c 8212

-- `_isPlaceholder`; `to_lower` stands for the flag `i`
unfoldable pub is_placeholder : (Text → Text) → Text → Bool
unfolding starts_with
is_placeholder to_lower v =
    is_empty v
    || is_empty (keep (λ c. not (is_dash c)) v)
    || starts_with (to_lower v) (codes "select")
    || starts_with (to_lower v) (codes "choose")

abbrev pub is_full : Text → Bool
is_full v = not (is_empty v)

-- `if (found.length) return found`, and else what follows
abbrev pub or_texts : List Text → List Text → List Text
or_texts [] ys = ys
or_texts (x ∷ xs) ys = x ∷ xs

-- `schema` is the answer of `schemaOptions`.
module _ (d : Dom) (w : d.World) (schema : d.El → List Text) where
  open d use {
    El, Root, query_all, within, ancestors, owner_document, attr, text_content, select_options,
    to_lower,
  }

  -- `_collectOpts`
  pub collect_opts : List El → List Text
  collect_opts els =
      keep (λ v. not (is_placeholder to_lower v))
        (map (λ o. trim (text_content w o)) (keep (is_visible d w) els))

  abbrev role_option : Text
  role_option = codes "[role=\"option\"]"

  -- exact tests of `role`, which is not put in lower case here
  abbrev is_role : El → String → Bool
  is_role el name = is_word (attr_or d w el "role") name

  pub looks_like_dropdown : El → Bool
  looks_like_dropdown el =
      is_role el "listbox"
      || is_role el "combobox"
      || is_word (lower_attr d w el "aria-haspopup") "listbox"
      || has_text d w el "aria-controls"
      || has_text d w el "aria-owns"

  abbrev opts_within : Option El → List Text
  opts_within none = []
  opts_within (some e) = collect_opts (within w e role_option)

  abbrev second : List El → Option El
  second [] = none
  second (x ∷ xs) = head xs

  -- steps 2 to 7
  dropdown_options : El → List Text
  dropdown_options el =
      or_texts (if is_role el "listbox" || is_role el "combobox" then opts_within (some el) else [])
        (or_texts
          (if has_text d w el "aria-controls"
            then opts_within (by_id d w (owner_document el) (attr_or d w el "aria-controls"))
            else [])
          (or_texts (opts_within (head (ancestors w el))) (
            or_texts (opts_within (second (ancestors w el))) (
              or_texts
                (if is_word (lower_attr d w el "aria-expanded") "true"
                  then collect_opts (query_all w (owner_document el) role_option)
                  else [])
                (schema el)))))

  abbrev choice_of : Text × Text → Text
  choice_of (value, text) = or_text value (trim text)

  pub extract_options : El → List Text
  unfolding dropdown_options
  extract_options el =
      if ltb 1 (length (radio_peers d w el))
      then keep is_full (map (option_label d w) (radio_peers d w el))
      else if is_tag d w el "SELECT"
      then keep (λ v. not (is_placeholder to_lower v)) (map choice_of (select_options w el))
      else if not (looks_like_dropdown el)
      then []
      else dropdown_options el
