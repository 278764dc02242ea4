-- ===== src/Ext/Snapshot/Elements.antt =====
-- ext/lib/snapshot.ts: what is visible, the peers of a radio button, the type of a field.
use otclick_hh.Common.{
  Bool, List, Option, String, Text, [], any, codes, false, head, if◌then◌else◌, is_empty, is_some,
  is_word, none, not, or_else, some, suc, true, zero, ℕ, ◌&&◌, ◌++◌, ◌==◌, ◌||◌,
}
use otclick_hh.Ext.Dom.{Dom}

module _ (d : Dom) (w : d.World) where
  open d use {
    El, Root, query_all, within, closest, ancestors, root_of, owner_document, host_of, tag_name,
    attr, display, visibility, has_offset_parent, escape, to_lower,
  }

  -- `el.getAttribute(name) || ""`
  abbrev pub attr_or : El → String → Text
  attr_or el name = or_else (attr w el name) []

  -- `(el.getAttribute(name) || "").toLowerCase()`
  abbrev pub lower_attr : El → String → Text
  lower_attr el name = to_lower (attr_or el name)

  -- `!!el.getAttribute(name)`
  abbrev pub has_text : El → String → Bool
  has_text el name = not (is_empty (attr_or el name))

  abbrev pub is_tag : El → String → Bool
  is_tag el name = is_word (tag_name el) name

  unfoldable pub is_hidden_style : El → Bool
  is_hidden_style el = display w el == "none" || visibility w el == "hidden"

  unfoldable pub is_visible : El → Bool
  unfolding is_hidden_style
  is_visible el =
      if is_hidden_style el
      then false
      else if not (has_offset_parent w el) && not (is_tag el "BODY")
      then false
      else true

  unfoldable pub is_file_input : El → Bool
  is_file_input el = is_tag el "INPUT" && is_word (lower_attr el "type") "file"

  unfoldable pub hidden_ancestor : El → Bool
  unfolding is_hidden_style
  hidden_ancestor el = any is_hidden_style (ancestors w el)

  -- `for (let d = 0; d < 4 && root instanceof ShadowRoot; d++)`, on the rounds that are left
  shadow_host_from : ℕ → Root → String → Option Text
  shadow_host_from zero root name = none
  shadow_host_from (suc n) root name = elim (host_of root) [
    | none ↦ none
    | some host ↦ elim (attr w host name) [
      | some v ↦ some v
      | none ↦ shadow_host_from n (root_of w host) name
    ]
  ]

  pub shadow_host_attr : El → String → Option Text
  unfolding shadow_host_from
  shadow_host_attr el name = shadow_host_from 4 (root_of w el) name

  abbrev pub quoted : String → Text → String → Text
  quoted before name after = codes before ++ name ++ codes after

  -- `radioPeers`
  unfoldable pub radio_peers : El → List El
  radio_peers el =
      if not (is_word (lower_attr el "type") "radio") || not (has_text el "name")
      then []
      else query_all w (owner_document el)
          (quoted "input[type=\"radio\"][name=\"" (escape (attr_or el "name")) "\"]")

  abbrev pub radios_of : Option El → List El
  radios_of none = []
  radios_of (some group) = within w group (codes "[role=\"radio\"]")

  -- `ariaTogglePeers`
  pub aria_toggle_peers : El → List El
  aria_toggle_peers el =
      if not (is_word (lower_attr el "role") "radio")
      then []
      else radios_of (closest w el (codes "[role=\"radiogroup\"]"))

  -- `ftype`
  pub field_type_of : El → String
  field_type_of el =
      let tag = to_lower (tag_name el) in
      let role = lower_attr el "role" in
      let type = lower_attr el "type" in
      let popup = lower_attr el "aria-haspopup" in
      if is_word tag "textarea"
      then "textarea"
      else if is_word tag "select"
          || is_word role "combobox"
          || is_word role "listbox"
          || is_word popup "listbox"
      then "select"
      else if is_word type "file"
      then "file"
      else if is_word type "checkbox" || is_word role "checkbox"
      then "checkbox"
      else if is_word type "radio" || is_word role "radio"
      then "radio"
      else if is_word tag "button"
          || is_word type "submit"
          || is_word type "button"
          || is_word role "button"
          || is_word tag "a"
      then "button"
      else "text"

  -- `isOwnedPopup`
  unfoldable pub is_owned_popup : El → Root → Bool
  is_owned_popup el root =
      if not (is_word (lower_attr el "role") "listbox") || is_empty (attr_or el "id")
      then false
      else is_some (
          head (
            query_all w root (
              quoted "[aria-controls~=\"" (attr_or el "id") "\"], [aria-owns~=\""
              ++ quoted "" (attr_or el "id") "\"]")))
