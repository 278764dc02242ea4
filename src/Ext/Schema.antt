-- ===== src/Ext/Schema.antt =====
-- ext/lib/snapshot.ts, `schemaOptions`: the choices of a field in the form schema that a page embeds.
pub mod Labels
use mathlib.Core.Option
use otclick_hh.Common.{
  Bool, List, Option, Text, [], codes, concat_map, drop, ends_line, eqb, false, if◌then◌else◌,
  index_of, index_of_from, is_word, length, ltb, map, none, or_else, some, split_spaces,
  starts_with, suc, take, true, zero, ℕ, ◌++◌, ◌+◌, ◌-◌, ◌>>=◌, ◌||◌, ◌∷◌,
}
use otclick_hh.Ext.Dom.{Dom}
use otclick_hh.Ext.Snapshot.Elements.{attr_or}
use otclick_hh.Ext.Snapshot.Options.{or_texts}

-- `replace(/-label$/, "")`
unfoldable pub without_label : Text → Text
without_label [] = []
without_label (c ∷ s) =
    let rest = without_label s in if is_word (c ∷ s) "-label" then [] else c ∷ rest

abbrev is_select_part : Text → Bool
is_select_part s = is_word s "-input" || is_word s "-live-region" || is_word s "-placeholder"

-- `(.+?)-(input|live-region|placeholder)$` from here
unfoldable pub before_part : Text → Option Text
before_part [] = none
before_part (c ∷ s) =
    let longer = Option.map (λ m. c ∷ m) (before_part s) in
    if ends_line c then none else if is_select_part s then some (c ∷ []) else longer

-- one key of the `flatMap`
unfoldable pub with_react_id : Text → List Text
unfolding before_part starts_with
with_react_id k =
    let id = if starts_with k (codes "react-select-") then before_part (drop 13 k) else none in
    elim id [ none ↦ k ∷ [] | some m ↦ m ∷ k ∷ [] ]

abbrev one_key : Text → List Text
one_key [] = []
one_key (c ∷ s) = (c ∷ s) ∷ []

abbrev label_keys : Text → List Text
label_keys [] = []
label_keys (c ∷ s) = map without_label (split_spaces (c ∷ s))

-- `keys`, of the attributes `id`, `name` and `aria-labelledby`
unfoldable pub schema_keys : Text → Text → Text → List Text
unfolding without_label with_react_id
schema_keys id name labelled_by =
    concat_map with_react_id (one_key id ++ one_key name ++ label_keys labelled_by)

-- `s`: the first of the two
abbrev pub earlier : Option ℕ → Option ℕ → Option ℕ
earlier vi none = vi
earlier none (some oi) = some oi
earlier (some vi) (some oi) = if ltb oi vi then some oi else some vi

-- `slice`, from the bracket after the field's name to the next closing one
unfoldable pub schema_slice : Text → Text → Option Text
unfolding index_of_from
schema_slice json key = do
  at ← index_of json (codes "\"name\":\"" ++ key ++ codes "\"")
  let vi = index_of_from json (codes "\"values\":") at
  let oi = index_of_from json (codes "\"options\":") at
  s ← earlier vi oi
  lb ← index_of_from json (codes "[") s
  rb ← index_of_from json (codes "]") lb
  some (take (rb + 1 - lb) (drop lb json))

-- `((?:[^"\\]|\\.)*)"` from here, after a backslash or not (the backslash is "\\")
unfoldable pub scan_string : Bool → Text → Option Text
scan_string escaped [] = none
scan_string true (c ∷ s) =
    let rest = Option.map (λ m. c ∷ m) (scan_string false s) in if ends_line c then none else rest
scan_string false (c ∷ s) =
    let plain = Option.map (λ m. c ∷ m) (scan_string false s) in
    let escape = Option.map (λ m. c ∷ m) (scan_string true s) in
    if eqb c 34 then some [] else if eqb c 92 then escape else plain

abbrev label_mark : Text
label_mark = codes "\"label\":\""

-- `re.exec` at this place
unfoldable pub label_at : Text → Option Text
unfolding scan_string starts_with
label_at s = if starts_with s label_mark then scan_string false (drop 9 s) else none

-- the matches of `re` one after the other, the next `skip` characters lying in the last one
unfoldable pub labels_from : ℕ → Text → List Text
unfolding label_at
labels_from skip [] = []
labels_from (suc skip) (c ∷ s) = labels_from skip s
labels_from zero (c ∷ s) =
    let next = labels_from zero s in
    elim (label_at (c ∷ s)) [ none ↦ next | some m ↦ m ∷ labels_from (length m + 9) s ]

-- `unquote` is `JSON.parse` of a string in quotes, `none` where it throws
unfoldable pub labels_of : (Text → Option Text) → Text → List Text
unfolding labels_from
labels_of unquote slice = map (λ m. or_else (unquote m) m) (labels_from 0 slice)

abbrev slice_labels : (Text → Option Text) → Option Text → List Text
slice_labels unquote none = []
slice_labels unquote (some slice) = labels_of unquote slice

-- the loop over the keys
unfoldable pub options_by_keys : (Text → Option Text) → Text → List Text → List Text
unfolding schema_slice labels_of
options_by_keys unquote json [] = []
options_by_keys unquote json (key ∷ keys) =
    or_texts (slice_labels unquote (schema_slice json key)) (options_by_keys unquote json keys)

-- `schemaOptions`; `json` is `_pageJson` of the element's window
unfoldable pub schema_options : (d : Dom) → d.World → (Text → Option Text) → Text → d.El → List Text
unfolding schema_keys options_by_keys
schema_options d w unquote json el =
    options_by_keys unquote json
      (schema_keys (attr_or d w el "id") (attr_or d w el "name") (attr_or d w el "aria-labelledby"))
