-- ===== src/Ext/FieldValue.antt =====
-- ext/lib/marks.ts: the value that a field holds, as the user sees it.
use otclick_hh.Common.{
  Bool, Bool-cases, List, Option, String, Text, [], any, arith, codes, false, find, head,
  if◌then◌else◌, inl, inr, is_empty, is_word, none, not, or_else, or_text, refl, some, take, trim,
  true, ◌&&◌, ◌++◌, ◌↔◌, ◌∷◌, ◌≡◌, ◌≢◌,
}
use otclick_hh.Ext.Dom.{Dom, find_el}

-- What the file reads besides `Dom`: `input.type`, and the text of a select's first chosen option.
pub record Values (d : Dom) : Type 0 where
  pub type_prop : d.World → d.El → Text
  pub selected_text : d.World → d.El → Option Text

module _ (d : Dom) (v : Values d) (w : d.World) where
  open d use {
    El, query_all, within, closest, ancestors, owner_document, tag_name, attr, text_content,
    input_value, is_checked, escape, to_lower,
  }
  open v use {type_prop, selected_text}

  abbrev pub peers_named : El → Text → List El
  peers_named el [] = el ∷ []
  peers_named el (c ∷ name) =
      query_all w (owner_document el)
        (codes "input[type=\"radio\"][name=\"" ++ escape (c ∷ name) ++ codes "\"]")

  -- `radioGroupPeers`
  unfoldable pub radio_group_peers : El → List El
  radio_group_peers el = peers_named el (or_else (attr w el "name") [])

  abbrev pub has_display : El → Bool
  has_display node =
      not (is_empty (within w node (codes "[class*=\"single-value\"], [class*=\"placeholder\"]")))

  -- `selectContainer`
  unfoldable pub select_container : El → Option El
  select_container el = elim (find has_display (take 8 (ancestors w el))) [
    | some node ↦ some node
    | none ↦ closest w el (codes "[class*=\"select\"]")
  ]

  abbrev pub single_value : Option El → Option El
  single_value none = none
  single_value (some c) = head (within w c (codes "[class*=\"single-value\"]"))

  abbrev pub shown_value : El → Option El → Text
  shown_value el none = input_value w el
  shown_value el (some node) = trim (text_content w node)

  abbrev pub checked_value : Option El → Text
  checked_value none = []
  checked_value (some p) = or_text (input_value w p) (codes "on")

  abbrev is_tag : El → String → Bool
  is_tag el name = is_word (tag_name el) name

  abbrev pub is_combobox : El → Bool
  is_combobox el = is_word (or_else (attr w el "role") []) "combobox"

  -- the branch for an `<input>` that is no combobox
  unfoldable pub read_input : El → Text
  unfolding radio_group_peers
  read_input el =
      let t = to_lower (type_prop w el) in
      if is_word t "radio"
      then checked_value (find (is_checked w) (radio_group_peers el))
      else if is_word t "checkbox"
      then (if is_checked w el then or_text (input_value w el) (codes "on") else [])
      else input_value w el

  -- `readFieldValue`
  unfoldable pub read_field_value : El → Text
  unfolding select_container read_input
  read_field_value el =
      if is_tag el "INPUT" && is_combobox el
      then shown_value el (single_value (select_container el))
      else if is_tag el "INPUT"
      then read_input el
      else if is_tag el "TEXTAREA"
      then input_value w el
      else if is_tag el "SELECT"
      then trim (or_text (or_else (selected_text w el) []) (input_value w el))
      else trim (text_content w el)

  -- `saveEdits` reads the field of a selector, if it is still on the page.
  unfoldable pub read_back : List d.Root → Text → Option Text
  unfolding read_field_value
  read_back roots selector = elim (find_el d w roots selector) [
    | none ↦ none
    | some el ↦ some (read_field_value el)
  ]

  on_or_value : (s : Text) → or_text s (codes "on") ≢ []
  on_or_value [] e = ground arith
  on_or_value (c ∷ s) e = ground arith

  checked_value-blank :
      (els : List El)
      → (checked_value (find (is_checked w) els) ≡ []) ↔ (any (is_checked w) els ≡ false)
  checked_value-blank [] = (λ e. refl, λ e. refl)
  checked_value-blank (x ∷ els) = elim (Bool-cases (is_checked w x)) [
    | inl e ↦ rw e (λ q. absurd (on_or_value (input_value w x) q), λ q. ground arith)
    | inr e ↦ rw e (checked_value-blank els)
  ]

  -- A radio button that is no combobox reads as blank exactly when no button of its group is
  -- checked, whichever button of the group the selector finds.
  pub read_field_value-radio :
      (el : El)
      → is_tag el "INPUT" ≡ true
      → is_combobox el ≡ false
      → is_word (to_lower (type_prop w el)) "radio" ≡ true
      → (read_field_value el ≡ []) ↔ (any (is_checked w) (radio_group_peers el) ≡ false)
  unfolding read_field_value read_input
  read_field_value-radio el input plain radio =
      rw (input, plain, radio) (checked_value-blank (radio_group_peers el))
