-- ===== src/Ext/DeterministicFill/Laws.antt =====
-- ext/lib/deterministic-fill.ts: what is filled without the model.
use otclick_hh.Common.{
  All, All-map_pred, Bool-cases, List, Memᴰ, Option, String, Text, [], ap, arith, eq_iff, false,
  find, inl, inr, none, or_else, refl, some, true, ℕ, ◌++◌, ◌==◌, ◌∷◌, ◌≡◌, ◌≢◌,
}
use otclick_hh.Ext.Api.{FilledField, profile}
use otclick_hh.Ext.DeterministicFill.{
  FormEl, Resume, Rule, deterministic_fields, fact_of, file_field, prop, push_file, push_text,
  re_test, rule_for, rules, text_field, value_for,
}

module _ (fold : ℕ → ℕ) (facts : List (String × Text)) (resume : Option Resume) where
  -- The first rule with a pattern that the label matches: those before it do not match.
  abbrev pub IsFirstRule : Text → Rule → Type 0
  IsFirstRule label rule =
      (before : List Rule) × (after : List Rule) × (rules ≡ before ++ rule ∷ after)
      × All (λ r. re_test fold r.re label ≡ false) before
      × (re_test fold rule.re label ≡ true)

  -- A field addresses an element of the form, from the profile, in the top frame, and is required
  -- just when the element is.
  abbrev pub Addresses : FormEl → FilledField → Type 0
  Addresses el f =
      (f.ref ≡ el.ref)
      × (f.selector ≡ el.selector)
      × (f.frame_id ≡ 0)
      × (f.source ≡ profile)
      × (f.required ≡ some (or_else el.required false))

  -- What justifies a field: an element of the form that it addresses, and either the resume for a
  -- file input or the fact of the first matching rule for a text input.
  pub data Justified (els : List FormEl) (f : FilledField) : Type 0 where
    attached :
        (el : FormEl) (r : Resume)
        → Memᴰ el els
        → Addresses el f
        → el.field_type ≡ "file"
        → f.field_type ≡ "file"
        → resume ≡ some r
        → f.value ≡ r.url
        → f.filename ≡ some r.filename
        → Justified els f
    known :
        (el : FormEl) (rule : Rule)
        → Memᴰ el els
        → Addresses el f
        → el.field_type ≡ "text"
        → f.field_type ≡ "text"
        → IsFirstRule (or_else el.label []) rule
        → prop rule.key facts ≡ some f.value
        → f.value ≢ []
        → f.filename ≡ none
        → Justified els f

  Justified-cons :
      {els : List FormEl} {f : FilledField} (el : FormEl) → Justified els f → Justified (el ∷ els) f
  Justified-cons el (attached e r m a t u s v q) = attached e r (Memᴰ.tail m) a t u s v q
  Justified-cons el (known e r m a t u i p n q) = known e r (Memᴰ.tail m) a t u i p n q

  find-first :
      (rs : List Rule) (label : Text) (rule : Rule)
      → find (λ r. re_test fold r.re label) rs ≡ some rule
      → (before : List Rule) × (after : List Rule) × (rs ≡ before ++ rule ∷ after)
        × All (λ r. re_test fold r.re label ≡ false) before
        × (re_test fold rule.re label ≡ true)
  find-first [] label rule h = let no : ⊥ = ground arith in elim no [ ]
  find-first (r ∷ rs) label rule h = elim (Bool-cases (re_test fold r.re label)) [
    | inl e ↦
        let same : r ≡ rule = ground (arith, rw e at h) in
        ([], rs, ap (λ x. x ∷ rs) same, tt, rw (← same) e)
    | inr e ↦
        let (before, after, cut, none_fit, fits) = find-first rs label rule (rw e at h) in
        (r ∷ before, after, ap (λ xs. r ∷ xs) cut, (e, none_fit), fits)
  ]

  fact_of-rule :
      (o : Option Rule) (v : Text)
      → fact_of fold facts o ≡ some v
      → (rule : Rule) × (o ≡ some rule) × (prop rule.key facts ≡ some v)
  fact_of-rule none v h = let no : ⊥ = ground arith in elim no [ ]
  fact_of-rule (some rule) v h = (rule, refl, h)

  value_for-rule :
      (label : Option Text) (v : Text)
      → value_for fold facts label ≡ some v
      → (rule : Rule) × IsFirstRule (or_else label []) rule × (prop rule.key facts ≡ some v)
  unfolding value_for rule_for
  value_for-rule label v h =
      let (rule, found, p) = fact_of-rule (rule_for fold (or_else label [])) v h in
      (rule, find-first rules (or_else label []) rule found, p)

  push_text-Justified :
      (els : List FormEl) (el : FormEl) (v : Option Text) (out : List FilledField)
      → el.field_type ≡ "text"
      → value_for fold facts el.label ≡ v
      → All (Justified (el ∷ els)) out
      → All (Justified (el ∷ els)) (push_text el v out)
  unfolding text_field
  push_text-Justified els el none out t e h = h
  push_text-Justified els el (some []) out t e h = h
  push_text-Justified els el (some (c ∷ v)) out t e h =
      let (rule, first, p) = value_for-rule el.label (c ∷ v) e in
      (
        known el rule (Memᴰ.head refl) (refl, refl, refl, refl, refl) t refl first p (λ q. cc) refl,
        h,
      )

  push_file-Justified :
      (els : List FormEl) (el : FormEl) (r : Option Resume) (out : List FilledField)
      → el.field_type ≡ "file"
      → resume ≡ r
      → All (Justified (el ∷ els)) out
      → All (Justified (el ∷ els)) (push_file el r out)
  unfolding file_field
  push_file-Justified els el none out t e h = h
  push_file-Justified els el (some r) out t e h =
      (attached el r (Memᴰ.head refl) (refl, refl, refl, refl, refl) t refl e refl refl, h)

  -- Every field that is filled without the model is justified by an element of the form: the
  -- resume file for a file input when there is one, or for a text input the non-empty fact of the
  -- first rule whose pattern matches the label.
  pub deterministic_fields-Justified :
      (els : List FormEl) → All (Justified els) (deterministic_fields fold els facts resume)
  unfolding deterministic_fields
  deterministic_fields-Justified [] = tt
  deterministic_fields-Justified (el ∷ els) =
      let later : All (Justified (el ∷ els)) (deterministic_fields fold els facts resume) =
        All-map_pred (Justified els) (Justified (el ∷ els)) (λ f. Justified-cons el)
          (deterministic_fields fold els facts resume) (deterministic_fields-Justified els) in
      elim (Bool-cases (el.field_type == "file")) [
        | inl is_file ↦ rw is_file (
            push_file-Justified els el resume _ ((eq_iff el.field_type "file").0 is_file) refl
              later)
        | inr other ↦ elim (Bool-cases (el.field_type == "text")) [
          | inl is_text ↦
              rw (other, is_text)
                (push_text-Justified els el (value_for fold facts el.label) _
                  ((eq_iff el.field_type "text").0 is_text) refl later)
          | inr neither ↦ rw (other, neither) later
        ]
      ]

  push_text-keeps :
      (el : FormEl) (v : Option Text) (out : List FilledField) (f : FilledField)
      → Memᴰ f out
      → Memᴰ f (push_text el v out)
  push_text-keeps el none out f m = m
  push_text-keeps el (some []) out f m = m
  push_text-keeps el (some (c ∷ v)) out f m = Memᴰ.tail m

  push_file-keeps :
      (el : FormEl) (r : Option Resume) (out : List FilledField) (f : FilledField)
      → Memᴰ f out
      → Memᴰ f (push_file el r out)
  push_file-keeps el none out f m = m
  push_file-keeps el (some r) out f m = Memᴰ.tail m

  deterministic_fields-keeps :
      (el : FormEl) (els : List FormEl) (f : FilledField)
      → Memᴰ f (deterministic_fields fold els facts resume)
      → Memᴰ f (deterministic_fields fold (el ∷ els) facts resume)
  unfolding deterministic_fields
  deterministic_fields-keeps el els f m = elim (Bool-cases (el.field_type == "file")) [
    | inl is_file ↦ rw is_file (push_file-keeps el resume _ f m)
    | inr other ↦ elim (Bool-cases (el.field_type == "text")) [
      | inl is_text ↦ rw (other, is_text) (push_text-keeps el _ _ f m)
      | inr neither ↦ rw (other, neither) m
    ]
  ]

  push_text_new :
      (el : FormEl) (v : Text) (out : List FilledField)
      → v ≢ []
      → Memᴰ (text_field el v) (push_text el (some v) out)
  push_text_new el [] out full = absurd (full refl)
  push_text_new el (c ∷ v) out full = Memᴰ.head refl

  no_file : (s : String) → s ≡ "text" → (s == "file") ≡ false
  no_file s e = rw e

  -- Every text input whose label has a known, non-empty fact is filled with it.
  pub deterministic_fields-known :
      (els : List FormEl) (el : FormEl) (v : Text)
      → Memᴰ el els
      → el.field_type ≡ "text"
      → value_for fold facts el.label ≡ some v
      → v ≢ []
      → Memᴰ (text_field el v) (deterministic_fields fold els facts resume)
  unfolding deterministic_fields
  deterministic_fields-known [] el v m t k full = elim m [ ]
  deterministic_fields-known (x ∷ els) el v (Memᴰ.head e) t k full =
      rw (← e, no_file el.field_type t, (eq_iff el.field_type "text").1 t, k)
        (push_text_new el v _ full)
  deterministic_fields-known (x ∷ els) el v (Memᴰ.tail m) t k full =
      deterministic_fields-keeps x els _ (deterministic_fields-known els el v m t k full)

  -- Every file input is given the resume when there is one.
  pub deterministic_fields-attached :
      (els : List FormEl) (el : FormEl) (r : Resume)
      → Memᴰ el els
      → el.field_type ≡ "file"
      → resume ≡ some r
      → Memᴰ (file_field el r) (deterministic_fields fold els facts resume)
  unfolding deterministic_fields
  deterministic_fields-attached [] el r m t given = elim m [ ]
  deterministic_fields-attached (x ∷ els) el r (Memᴰ.head e) t given =
      rw (← e, (eq_iff el.field_type "file").1 t, given) (Memᴰ.head refl)
  deterministic_fields-attached (x ∷ els) el r (Memᴰ.tail m) t given =
      deterministic_fields-keeps x els _ (deterministic_fields-attached els el r m t given)
