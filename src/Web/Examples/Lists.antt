-- ===== src/Web/Examples/Lists.antt =====
-- Examples for the hooks of the lists that wait for the user, and for the toasts.
use otclick_hh.Common.{All, Bool, List, Option, Text, [], codes, false, none, some, true, ◌∷◌, ◌≡◌}
use otclick_hh.Web.Inbox.{Action, RecruiterData, Todo, discard_draft, done, resolve_todo, shown}
use otclick_hh.Web.Inbox.Order.{is_settled, perform_all, perform_all-shown}
use otclick_hh.Web.FormDrafts.{DraftCache, FormDraft}
use otclick_hh.Web.Toaster.{
  IsTimed, Reachable, Reachable-IsTimed, Step, ToastPayload, no_toasts, on_toast,
}

abbrev call_back : Todo
call_back = record {
  id = codes "t1";
  negotiation_id = codes "n";
  title = codes "call";
  detail = none;
  link = none;
  vacancy_id = none;
  vacancy_title = none;
  employer_name = none;
  created_at = codes "now";
}

abbrev inbox : Option RecruiterData
inbox = some (record { drafts = []; todos = call_back ∷ []; questions = [] })

abbrev answered : List (Bool × Action)
answered = (true, resolve_todo (codes "t1") done) ∷ (false, discard_draft (codes "d")) ∷ []

perform_all-shown_example :
    ((shown (perform_all answered inbox)).drafts ≡ [])
    × ((shown (perform_all answered inbox)).todos ≡ [])
    × ((shown (perform_all answered inbox)).questions ≡ [])
unfolding is_settled
perform_all-shown_example = perform_all-shown answered inbox

abbrev draft_named : Text → FormDraft
draft_named id = record {
  id = id;
  vacancy_id = [];
  resume_id = [];
  vacancy_title = none;
  employer_name = none;
  vacancy_url = none;
  answers = [];
  letter = none;
  status = codes "draft";
  created_at = [];
}

abbrev two_drafts : DraftCache
two_drafts = some (draft_named (codes "a") ∷ draft_named (codes "b") ∷ [])

abbrev note : ToastPayload
note = record { id = none; kind = none; title = codes "ok"; body = none; duration = none }

Reachable-IsTimed_example :
    All
      (IsTimed (on_toast (codes "u") note no_toasts).timers)
      (on_toast (codes "u") note no_toasts).toasts
Reachable-IsTimed_example =
    Reachable-IsTimed (Reachable.next Reachable.first (Step.pushed no_toasts (codes "u") note))
