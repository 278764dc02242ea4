-- ===== src/Ext/Api.antt =====
-- ext/lib/api.ts: the fields that travel between the backend, the page and the panel, and the pure
-- helpers over them.
use otclick_hh.Common.{
  Bool, List, Option, String, Text, [], eqb, find, if◌then◌else◌, map, none, or_else, some, take,
  text_eq, ℕ, ◌∷◌,
}

pub data Source : Type 0 where
  profile ai : Source

-- `required?: boolean` is an option; a missing `filename` is `none`.
pub record FilledField : Type 0 where
  pub frame_id : ℕ
  pub ref : Text
  pub selector : Text
  pub field_type : String
  pub value : Text
  pub source : Source
  pub filename : Option Text
  pub required : Option Bool

-- `FilledField & { label: string }`
pub record LabelledField : Type 0 where
  pub field : FilledField
  pub open field use *
  pub label : Text

pub record Frame : Type 0 where
  pub frame_id : ℕ
  pub fields : List FilledField

-- `new Map(pairs).get(key)`: of two entries with one key the later stays.
unfoldable pub map_get {ℓ} : {V : Type ℓ} → Text → List (Text × V) → Option V
map_get k [] = none
map_get k ((j, v) ∷ m) = elim (map_get k m) [
  | some w ↦ some w
  | none ↦ if text_eq j k then some v else none
]

abbrev pub max_page_text : ℕ
max_page_text = 40000

pub record FillPayload (S : Type 0) : Type 0 where
  pub url : Text
  pub page_text : Text
  pub frames : List (ℕ × List S)

unfoldable pub build_fill_payload : {S : Type 0} → Text → Text → List (ℕ × List S) → FillPayload S
build_fill_payload url page_text frames = record {
  url = url;
  page_text = take max_page_text page_text;
  frames = frames;
}

abbrev fields_or_none : Option Frame → List FilledField
fields_or_none none = []
fields_or_none (some f) = f.fields

unfoldable pub merge_frame_fields : List Frame → ℕ → List FilledField
merge_frame_fields frames frame_id = fields_or_none (find (λ f. eqb f.frame_id frame_id) frames)

-- `els` are pairs of a ref and an optional label.
unfoldable pub with_labels : List FilledField → List (Text × Option Text) → List LabelledField
with_labels fields els =
    let labels = map (λ e. (e.0, or_else e.1 [])) els in
    map (λ f. record { field = f; label = or_else (map_get f.ref labels) [] }) fields
