-- ===== src/Web/Vacancies/Letter.antt =====
-- frontend/src/app/(app)/vacancies/cover-letter-editor.tsx: the cover letter of a vacancy, from its
-- draft to the queue.
pub mod Shown
use otclick_hh.Common.{
  Bool, List, Option, String, Text, [], false, if◌then◌else◌, is_empty, is_word, leb, length, none,
  not, or_else, some, text_eq, trim, true, ◌&&◌, ◌||◌, ◌∷◌,
}

-- The row that the backend answers with: the status of the vacancy, and its draft.
pub record CoverLetterRow : Type 0 where
  pub status : Text
  pub cover_letter_draft : Option Text

-- `text`, `savedText`, `editingApproved` and `error`, with the `status` that the parent passes.
pub record Editor : Type 0 where
  pub status : Text
  pub text : Text
  pub saved_text : Text
  pub editing_approved : Bool
  pub error : Option Text

-- The answer to a request, or the message of the exception.
pub data Answer : Type 0 where
  failed : Text → Answer
  answered : CoverLetterRow → Answer

abbrev pub draft_of : CoverLetterRow → Text
draft_of row = or_else row.cover_letter_draft []

-- the editor as it opens, and as the effect on the draft and the status leaves it
unfoldable pub opened : CoverLetterRow → Editor
opened row = record {
  status = row.status;
  text = draft_of row;
  saved_text = draft_of row;
  editing_approved = false;
  error = none;
}

-- the row of another answer, which the parent passes down: the effect runs when its draft or its
-- status is new
unfoldable pub passed_down : CoverLetterRow → Text → Editor → Editor
passed_down row before s =
    if text_eq row.status s.status && text_eq (draft_of row) before then s else record s {
      status = row.status;
      text = draft_of row;
      saved_text = draft_of row;
      editing_approved = false;
    }

-- the texts of an answer, and `onUpdated`
abbrev pub taken : CoverLetterRow → Editor → Editor
taken row s =
    passed_down row s.saved_text (record s { text = draft_of row; saved_text = draft_of row })

-- `generate` and `approve`
unfoldable pub generate_or_approve : Answer → Editor → Editor
unfolding passed_down
generate_or_approve (failed message) s = record s { error = some message }
generate_or_approve (answered row) s = taken row (record s { error = none })

-- `save`, and `refreshVacancy` at the end of `queue` and `cancelQueue`
unfoldable pub save_or_refresh : Answer → Editor → Editor
unfolding passed_down
save_or_refresh (failed message) s = record s { error = some message }
save_or_refresh (answered row) s = taken row (record s { error = none; editing_approved = false })

abbrev pub is_status : Editor → String → Bool
is_status s name = is_word s.status name

-- `changed`
unfoldable pub is_changed : Editor → Bool
is_changed s = not (text_eq (trim s.text) (trim s.saved_text))

-- `editable`
unfoldable pub is_editable : Editor → Bool
is_editable s = is_status s "letter_draft" || s.editing_approved

-- the buttons that are shown and enabled while nothing is on its way
unfoldable pub can_approve : Editor → Bool
unfolding is_changed
can_approve s = is_status s "letter_draft" && (not (is_changed s) && not (is_empty (trim s.text)))

unfoldable pub can_queue : Editor → Bool
can_queue s = is_status s "approved" && not s.editing_approved

-- `inTargetLength`
unfoldable pub in_target_length : Editor → Bool
in_target_length s = leb 1400 (length s.text) && leb (length s.text) 3500

-- the text area, which is only there for a draft and an approved letter
unfoldable pub type_text : Text → Editor → Editor
unfolding is_editable
type_text text s =
    if (is_status s "letter_draft" || is_status s "approved") && is_editable s
    then record s { text = text }
    else s

-- "изменить письмо" and "отмена"
unfoldable pub start_editing : Editor → Editor
unfolding can_queue
start_editing s = if can_queue s then record s { editing_approved = true } else s

unfoldable pub cancel_editing : Editor → Editor
cancel_editing s =
    if is_status s "approved" && s.editing_approved
    then record s { text = s.saved_text; editing_approved = false }
    else s

pub data Event : Type 0 where
  typing : Text → Event
  editing cancelling : Event
  generating_or_approving saving_or_refreshing : Answer → Event
  passing_down : CoverLetterRow → Event

unfoldable pub happen : Event → Editor → Editor
unfolding type_text start_editing cancel_editing generate_or_approve save_or_refresh passed_down
happen (typing text) s = type_text text s
happen editing s = start_editing s
happen cancelling s = cancel_editing s
happen (generating_or_approving answer) s = generate_or_approve answer s
happen (saving_or_refreshing answer) s = save_or_refresh answer s
happen (passing_down row) s = passed_down row s.saved_text s

unfoldable pub happen_all : List Event → Editor → Editor
unfolding happen
happen_all [] s = s
happen_all (e ∷ es) s = happen_all es (happen e s)
