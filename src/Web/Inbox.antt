-- ===== src/Web/Inbox.antt =====
-- frontend/src/hooks/useRecruiter.ts: the cached lists of what waits for the user, and how an
-- action changes them once its request went through.
pub mod Order
use otclick_hh.Common.{
  Bool, List, Option, Text, [], codes, false, keep, not, or_else, some, text_eq, true, ◌++◌,
}

pub record Draft : Type 0 where
  pub id : Text
  pub negotiation_id : Text
  pub draft_text : Text
  pub reason : Option Text
  pub question_text : Option Text
  pub vacancy_id : Option Text
  pub vacancy_title : Option Text
  pub employer_name : Option Text
  pub created_at : Text

pub record Todo : Type 0 where
  pub id : Text
  pub negotiation_id : Text
  pub title : Text
  pub detail : Option Text
  pub link : Option Text
  pub vacancy_id : Option Text
  pub vacancy_title : Option Text
  pub employer_name : Option Text
  pub created_at : Text

pub record QuestionSet : Type 0 where
  pub id : Text
  pub negotiation_id : Text
  pub questions : List Text
  pub reason : Option Text
  pub question_text : Option Text
  pub vacancy_id : Option Text
  pub vacancy_title : Option Text
  pub employer_name : Option Text
  pub created_at : Text

pub record RecruiterData : Type 0 where
  pub drafts : List Draft
  pub todos : List Todo
  pub questions : List QuestionSet

-- `EMPTY`
abbrev pub no_data : RecruiterData
no_data = record { drafts = []; todos = []; questions = [] }

pub data Verdict : Type 0 where
  done dismiss : Verdict

-- The calls of `useRecruiter`, with what they send.
pub data Action : Type 0 where
  send_draft : Text → Text → Action
  discard_draft : Text → Action
  resolve_todo : Text → Verdict → Action
  answer_questions : Text → List Text → Action
  discard_question : Text → Action

abbrev verdict_text : Verdict → Text
verdict_text done = codes "done"
verdict_text dismiss = codes "dismiss"

-- the path that the action posts to
unfoldable pub path_of : Action → Text
path_of (send_draft id message) = codes "/api/recruiter/drafts/" ++ id ++ codes "/send"
path_of (discard_draft id) = codes "/api/recruiter/drafts/" ++ id ++ codes "/discard"
path_of (resolve_todo id v) = codes "/api/recruiter/todos/" ++ id ++ codes "/" ++ verdict_text v
path_of (answer_questions id answers) = codes "/api/recruiter/questions/" ++ id ++ codes "/answer"
path_of (discard_question id) = codes "/api/recruiter/questions/" ++ id ++ codes "/discard"

-- `xs.filter((x) => x.id !== id)`
abbrev pub without {ℓ} : {A : Type ℓ} → (A → Text) → Text → List A → List A
without id_of id xs = keep (λ x. not (text_eq (id_of x) id)) xs

-- the function that the action patches the data with
unfoldable pub remove : Action → RecruiterData → RecruiterData
remove (send_draft id message) prev = record prev { drafts = without (λ d. d.id) id prev.drafts }
remove (discard_draft id) prev = record prev { drafts = without (λ d. d.id) id prev.drafts }
remove (resolve_todo id v) prev = record prev { todos = without (λ t. t.id) id prev.todos }
remove (answer_questions id answers) prev = record prev {
  questions = without (λ q. q.id) id prev.questions;
}
remove (discard_question id) prev = record prev {
  questions = without (λ q. q.id) id prev.questions;
}

-- An entry of the cache, `none` before it is loaded; `patch` writes to it.
unfoldable pub patch : (RecruiterData → RecruiterData) → Option RecruiterData → Option RecruiterData
patch fn prev = some (fn (or_else prev no_data))

-- An action whose request went through (`true`) or threw, in which case the call throws too.
unfoldable pub perform : Bool → Action → Option RecruiterData → Option RecruiterData
unfolding patch remove
perform false a cache = cache
perform true a cache = patch (remove a) cache

-- `data?.drafts ?? EMPTY.drafts` and so on
abbrev pub shown : Option RecruiterData → RecruiterData
shown cache = or_else cache no_data
