-- ===== src/Ext/Schema/Labels.antt =====
-- ext/lib/snapshot.ts, `schemaOptions`: the labels that its regular expression finds.
use otclick_hh.Common.{
  All, List, Text, [], ap, append_assoc, arith, codes, eqb, false, length, length-append, refl,
  some, starts_with, sym, ℕ, ◌++◌, ◌+◌, ◌∙◌, ◌∷◌, ◌≡◌,
}
use otclick_hh.Ext.Schema.{label_at, labels_from, scan_string}

-- no quote, no backslash and no line end
abbrev pub IsPlainLabel : Text → Type 0
IsPlainLabel m = All (λ c. (eqb c 34 ≡ false) × (eqb c 92 ≡ false)) m

scan_string-plain : (m rest : Text) → IsPlainLabel m → scan_string false (m ++ 34 ∷ rest) ≡ some m
unfolding scan_string
scan_string-plain [] rest h = refl
scan_string-plain (c ∷ m) rest ((q, b), h) = rw (q, b, scan_string-plain m rest h) refl

labels_from-skip : (m rest : Text) → labels_from (length m) (m ++ rest) ≡ labels_from 0 rest
unfolding labels_from
labels_from-skip [] rest = refl
labels_from-skip (c ∷ m) rest = labels_from-skip m rest

-- `"label":"…"}` and what follows it
abbrev pub label_json : Text → Text → Text
label_json m rest = 34 ∷ (codes "label\":\"" ++ (m ++ 34 ∷ b'}' ∷ rest))

abbrev more_json : List Text → Text
more_json [] = codes "]"
more_json (m ∷ ms) = b',' ∷ b'{' ∷ label_json m (more_json ms)

-- The JSON of a list of choices, `[{"label":"…"},{"label":"…"}]`.
abbrev pub options_json : List Text → Text
options_json [] = codes "[]"
options_json (m ∷ ms) = b'[' ∷ b'{' ∷ label_json m (more_json ms)

labels_from-label :
    (m rest : Text)
    → IsPlainLabel m
    → labels_from (length m + 9) (codes "label\":\"" ++ (m ++ 34 ∷ rest)) ≡ labels_from 0 rest
labels_from-label m rest h =
    let matched = codes "label\":\"" ++ (m ++ 34 ∷ []) in
    let parts : codes "label\":\"" ++ (m ++ 34 ∷ rest) ≡ matched ++ rest =
      ap (λ t. codes "label\":\"" ++ t) (sym (append_assoc m (34 ∷ []) rest)) in
    let long : length m + 9 ≡ length matched = (let l = length-append m (34 ∷ []) in omega arith) in
    rw (parts, long) (labels_from-skip matched rest)

labels_from-found :
    (m : Text) (c : ℕ) (s : Text)
    → label_at (c ∷ s) ≡ some m
    → labels_from 0 (c ∷ s) ≡ m ∷ labels_from (length m + 9) s
unfolding labels_from
labels_from-found m c s h = rw (h, labels_from) refl

label_at-label_json : (m rest : Text) → IsPlainLabel m → label_at (label_json m rest) ≡ some m
unfolding label_at starts_with
label_at-label_json m rest h = scan_string-plain m (b'}' ∷ rest) h

labels_from-closed : (rest : Text) → labels_from 0 (b'}' ∷ rest) ≡ labels_from 0 rest
unfolding labels_from label_at starts_with
labels_from-closed rest = refl

labels_from-label_json :
    (m rest : Text) → IsPlainLabel m → labels_from 0 (label_json m rest) ≡ m ∷ labels_from 0 rest
labels_from-label_json m rest h =
    labels_from-found m 34 (codes "label\":\"" ++ (m ++ 34 ∷ b'}' ∷ rest))
      (label_at-label_json m rest h)
    ∙ ap (λ ms. m ∷ ms) (labels_from-label m (b'}' ∷ rest) h ∙ labels_from-closed rest)

labels_from-more_json : (ms : List Text) → All IsPlainLabel ms → labels_from 0 (more_json ms) ≡ ms
unfolding labels_from label_at starts_with
labels_from-more_json [] h = refl
labels_from-more_json (m ∷ ms) (h, hs) =
    labels_from-label_json m (more_json ms) h ∙ ap (λ ns. m ∷ ns) (labels_from-more_json ms hs)

-- The labels of a list of choices in JSON, with no quote and no backslash in them, are found again,
-- each as it is and in their order.
pub labels_from-options_json :
    (ms : List Text) → All IsPlainLabel ms → labels_from 0 (options_json ms) ≡ ms
unfolding labels_from label_at starts_with
labels_from-options_json [] h = refl
labels_from-options_json (m ∷ ms) (h, hs) =
    labels_from-label_json m (more_json ms) h ∙ ap (λ ns. m ∷ ns) (labels_from-more_json ms hs)
