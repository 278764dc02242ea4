-- ===== src/Web/FiltersDrawer.antt =====
-- frontend/src/components/filters-drawer.tsx: the filter that is edited, and the filters and entries
-- that are made.
use otclick_hh.Common.{
  List, Option, Option-cases, Text, [], ap, codes, eqb, find, if◌then◌else◌, inl, inr, is_empty,
  none, or_else, or_text, refl, some, text_eq, text_eq_refl, trim, ℕ, ◌∙◌, ◌∷◌, ◌≡◌, ◌⊎◌,
}

pub record Filter : Type 0 where
  pub id : Text
  pub resume_id : Option Text
  pub name : Option Text
  pub text : Option Text
  pub area : Option ℕ

pub record Resume : Type 0 where
  pub id : Text
  pub title : Option Text

abbrev area_part : Option ℕ → Text
area_part none = []
area_part (some area) = if eqb area 40 then codes "KZ" else if eqb area 113 then codes "RU" else []

abbrev resume_title : Option Resume → Text
resume_title none = []
resume_title (some resume) = or_else resume.title []

abbrev resume_of : List Resume → Option Text → Option Resume
resume_of resumes none = none
resume_of resumes (some id) = find (λ r. text_eq r.id id) resumes

-- `filterTitle`; a filter has one area, so that its parts are at most one
unfoldable pub filter_title : Filter → List Resume → Text
filter_title f resumes = or_text (or_else f.name []) (
    or_text (or_else f.text []) (
      or_text (resume_title (resume_of resumes f.resume_id))
        (or_text (area_part f.area) (codes "пустой фильтр"))))

abbrev pub filter_in : List Filter → Text → Option Filter
filter_in filters id = find (λ f. text_eq f.id id) filters

abbrev head_id : List Filter → Option Text
head_id [] = none
head_id (f ∷ filters) = some f.id

abbrev if_found : List Filter → Text → Option Filter → Option Text
if_found filters id none = head_id filters
if_found filters id (some f) = some id

-- the effect that chooses a filter: the first one when none is chosen, or when the chosen one is gone
abbrev pub settle_id : List Filter → Option Text → Option Text
settle_id filters none = head_id filters
settle_id [] (some []) = some []
settle_id (f ∷ filters) (some []) = some f.id
settle_id filters (some (c ∷ id)) = if_found filters (c ∷ id) (filter_in filters (c ∷ id))

unfoldable pub settle : Option (List Filter) → Option Text → Option Text
settle none selected_id = selected_id
settle (some filters) selected_id = settle_id filters selected_id

-- `selected`
unfoldable pub selected : Option (List Filter) → Option Text → Option Filter
selected none selected_id = none
selected (some filters) none = none
selected (some filters) (some id) = filter_in filters id

head-selected :
    (f : Filter) (filters : List Filter) → selected (some (f ∷ filters)) (some f.id) ≡ some f
unfolding selected
head-selected f filters = rw (text_eq_refl f.id) refl

-- Once there are filters, one of them is always chosen, also when the chosen one has been deleted;
-- one that is still there stays chosen.
pub selected-settle :
    (f : Filter) (filters : List Filter) (selected_id : Option Text)
    → (g : Filter) × (selected (some (f ∷ filters)) (settle (some (f ∷ filters)) selected_id)
        ≡ some g)
      × ((g ≡ f) ⊎ (selected (some (f ∷ filters)) selected_id ≡ some g))
unfolding settle selected
selected-settle f filters none = (f, head-selected f filters, inl refl)
selected-settle f filters (some []) = (f, head-selected f filters, inl refl)
selected-settle f filters (some (c ∷ id)) = elim (Option-cases (filter_in (f ∷ filters) (c ∷ id))) [
  | inl e ↦ (
    f,
    ap (λ found. selected (some (f ∷ filters)) (if_found (f ∷ filters) (c ∷ id) found)) e
        ∙ head-selected f filters,
    inl refl,
  )
  | inr (g, e) ↦ (
    g,
    ap (λ found. selected (some (f ∷ filters)) (if_found (f ∷ filters) (c ∷ id) found)) e ∙ e,
    inr e,
  )
]

-- The form for a new filter: `newResumeId`, and the titles of the toasts, the last one first.
pub record Form : Type 0 where
  pub selected_id : Option Text
  pub new_resume_id : Text
  pub toasts : List Text

pub data Created : Type 0 where
  created : Text → Created
  refused : Text → Created

abbrev after_create : Created → Form → Form
after_create (created id) s = record s {
  selected_id = some id;
  new_resume_id = [];
  toasts = codes "фильтр создан" ∷ s.toasts;
}
after_create (refused message) s = record s { toasts = message ∷ s.toasts }

-- `handleCreate`; `post` is the answer to the filter with a resume's id
unfoldable pub handle_create : (Text → Created) → List Resume → Form → Form
handle_create post [] s = record s { toasts = codes "Сначала синхронизируй резюме" ∷ s.toasts }
handle_create post (r ∷ rs) s =
    if is_empty s.new_resume_id
    then record s { toasts = codes "Выбери резюме для фильтра" ∷ s.toasts }
    else after_create (post s.new_resume_id) s

-- the entry that the form of the blacklist posts: its company's id, its name and the reason
unfoldable pub blacklist_body : Text → Text → Option (Text × Option Text × Text)
blacklist_body company_id company =
    if is_empty (trim company_id)
    then none
    else some (
      trim company_id,
      if is_empty (trim company) then none else some (trim company),
      codes "manual",
    )
