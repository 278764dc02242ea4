-- ===== src/Web/Vacancies/Letter/Shown.antt =====
-- frontend/src/app/(app)/vacancies/cover-letter-editor.tsx: which text is approved and queued.
use otclick_hh.Common.{
  Bool-cases, List, Text, [], arith, codes, false, inl, inr, is_word, none, refl, sym, text_eq,
  text_eq→eq, trim, true, ◌&&◌, ◌||◌, ◌∙◌, ◌∷◌, ◌≡◌, ◌⊎◌,
}
use otclick_hh.Web.Vacancies.Letter.{
  CoverLetterRow, Editor, Event, answered, can_approve, can_queue, cancel_editing, cancelling,
  draft_of, editing, failed, generate_or_approve, generating_or_approving, happen, happen_all,
  is_changed, is_editable, is_status, opened, passed_down, passing_down, save_or_refresh,
  saving_or_refreshing, start_editing, taken, type_text, typing,
}

-- A text that cannot be edited is the one that the backend has.
abbrev pub IsSaved : Editor → Type 0
IsSaved s = (is_editable s ≡ true) ⊎ (s.text ≡ s.saved_text)

passed_down-IsSaved :
    (row : CoverLetterRow) (before : Text) (s : Editor)
    → IsSaved s
    → IsSaved (passed_down row before s)
unfolding passed_down
passed_down-IsSaved row before s h =
    elim (Bool-cases (text_eq row.status s.status && text_eq (draft_of row) before)) [
      | inl e ↦ rw e h
      | inr e ↦ rw e (inr refl)
    ]

taken-IsSaved : (row : CoverLetterRow) (s : Editor) → IsSaved (taken row s)
taken-IsSaved row s =
    passed_down-IsSaved row s.saved_text
      (record s { text = draft_of row; saved_text = draft_of row }) (inr refl)

type_text-IsSaved : (text : Text) (s : Editor) → IsSaved s → IsSaved (type_text text s)
unfolding type_text is_editable
type_text-IsSaved text s h =
    elim (Bool-cases (is_status s "letter_draft" || is_status s "approved")) [
      | inl e ↦ elim (Bool-cases (is_status s "letter_draft" || s.editing_approved)) [
        | inl f ↦ rw (e, f) (inl f)
        | inr f ↦ rw (e, f) h
      ]
      | inr e ↦ rw e h
    ]

is_editable_once_editing : (s : Editor) → is_editable (record s { editing_approved = true }) ≡ true
unfolding is_editable
is_editable_once_editing s = elim (Bool-cases (is_status s "letter_draft")) [
  | inl e ↦ rw e refl
  | inr e ↦ rw e refl
]

start_editing-IsSaved : (s : Editor) → IsSaved s → IsSaved (start_editing s)
unfolding start_editing
start_editing-IsSaved s h = elim (Bool-cases (can_queue s)) [
  | inl e ↦ rw e (inl (is_editable_once_editing s))
  | inr e ↦ rw e h
]

cancel_editing-IsSaved : (s : Editor) → IsSaved s → IsSaved (cancel_editing s)
unfolding cancel_editing
cancel_editing-IsSaved s h = elim (Bool-cases (is_status s "approved" && s.editing_approved)) [
  | inl e ↦ rw e (inr refl)
  | inr e ↦ rw e h
]

happen-IsSaved : (e : Event) (s : Editor) → IsSaved s → IsSaved (happen e s)
unfolding happen generate_or_approve save_or_refresh is_editable
happen-IsSaved (typing text) s h = type_text-IsSaved text s h
happen-IsSaved editing s h = start_editing-IsSaved s h
happen-IsSaved cancelling s h = cancel_editing-IsSaved s h
happen-IsSaved (generating_or_approving (failed message)) s h = h
happen-IsSaved (generating_or_approving (answered row)) s h =
    taken-IsSaved row (record s { error = none })
happen-IsSaved (saving_or_refreshing (failed message)) s h = h
happen-IsSaved (saving_or_refreshing (answered row)) s h =
    taken-IsSaved row (record s { error = none; editing_approved = false })
happen-IsSaved (passing_down row) s h = passed_down-IsSaved row s.saved_text s h

happen_all-IsSaved : (es : List Event) (s : Editor) → IsSaved s → IsSaved (happen_all es s)
unfolding happen_all
happen_all-IsSaved [] s h = h
happen_all-IsSaved (e ∷ es) s h = happen_all-IsSaved es (happen e s) (happen-IsSaved e s h)

-- what a letter that can be approved or queued shows
abbrev pub QueuesSaved : Editor → Type 0
QueuesSaved s = (can_queue s ≡ false) ⊎ (s.text ≡ s.saved_text)

abbrev pub ApprovesSaved : Editor → Type 0
ApprovesSaved s = (can_approve s ≡ false) ⊎ (trim s.text ≡ trim s.saved_text)

approved_not_draft :
    (status : Text) → is_word status "approved" ≡ true → is_word status "letter_draft" ≡ false
approved_not_draft status h = let same = text_eq→eq status (codes "approved") h in rw same refl

IsSaved-QueuesSaved : (s : Editor) → IsSaved s → QueuesSaved s
unfolding can_queue is_editable
IsSaved-QueuesSaved s h = elim (Bool-cases (is_status s "approved")) [
  | inr e ↦ rw e (inl refl)
  | inl e ↦ elim (Bool-cases s.editing_approved) [
    | inl f ↦ rw (e, f) (inl refl)
    | inr f ↦ elim h [
      | inl a ↦
          let no : false ≡ true = sym (rw (approved_not_draft s.status e, f) refl) ∙ a in
          ground arith
      | inr same ↦ inr same
    ]
  ]
]

ApprovesSaved-any : (s : Editor) → ApprovesSaved s
unfolding can_approve is_changed
ApprovesSaved-any s = elim (Bool-cases (text_eq (trim s.text) (trim s.saved_text))) [
  | inl e ↦ inr (text_eq→eq (trim s.text) (trim s.saved_text) e)
  | inr e ↦ rw e (elim (Bool-cases (is_status s "letter_draft")) [
    | inl f ↦ rw f (inl refl)
    | inr f ↦ rw f (inl refl)
  ])
]

-- Whatever is typed, edited, cancelled and answered, and in whatever order: a letter can be put into
-- the queue only while the text on the screen is the one that the backend has, and can be approved
-- only while it is so up to outer white space.
pub happen_all-QueuesSaved :
    (es : List Event) (row : CoverLetterRow)
    → QueuesSaved (happen_all es (opened row)) × ApprovesSaved (happen_all es (opened row))
unfolding opened
happen_all-QueuesSaved es row =
    let s = happen_all es (opened row) in
    (IsSaved-QueuesSaved s (happen_all-IsSaved es (opened row) (inr refl)), ApprovesSaved-any s)
