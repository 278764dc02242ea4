-- ===== src/Web/Examples/Cards.antt =====
-- Examples for the cards of the to-do page and for the subscription to notifications.
use otclick_hh.Common.{
  List, Text, [], codes, false, is_space, length, map, none, refl, some, trim, true, ◌++◌, ◌∷◌, ◌≡◌,
}
use otclick_hh.Web.Inbox.{Draft, QuestionSet, answer_questions, send_draft}
use otclick_hh.Web.DraftCard.{
  Session, discard_reply, draft_card, edit, enter, on_drafts, reply_after, send_reply,
  send_reply-sessions, sessions_events,
}
use otclick_hh.Web.RealtimeBridge.{
  BridgeEvent, Payload, happen_all, happen_all-toasts, inserted, mounted, toast_of, unmounted,
  visit,
}
use otclick_hh.Web.Notifications.{NotificationRow}
use otclick_hh.Web.QuestionCard.{
  QuestionEvent, answers_typed, is_ready, last_typed, on_questions, question_card, reloaded,
  send_answers, send_answers-typed, typed,
}

abbrev reply : Draft
reply = record {
  id = codes "d";
  negotiation_id = codes "n";
  draft_text = codes "Hello";
  reason = none;
  question_text = none;
  vacancy_id = none;
  vacancy_title = none;
  employer_name = none;
  created_at = codes "2026";
}

abbrev kept : Session
kept = record { entered = codes "Hi" ∷ codes "Good day" ∷ []; saved = true }

abbrev given_up : Session
given_up = record { entered = codes "No" ∷ []; saved = false }

send_reply-sessions_example :
    (send_reply (on_drafts (sessions_events (kept ∷ given_up ∷ [])) (draft_card reply))
      ≡ some (send_draft (codes "d") (codes "Good day")))
    × (send_reply (
          on_drafts
            (sessions_events (kept ∷ given_up ∷ []) ++ edit ∷ map enter (codes "x" ∷ []))
            (draft_card reply))
        ≡ none)
    × (discard_reply (
          on_drafts
            (sessions_events (kept ∷ given_up ∷ []) ++ edit ∷ map enter (codes "x" ∷ []))
            (draft_card reply))
        ≡ none)
unfolding reply_after
send_reply-sessions_example = send_reply-sessions reply (kept ∷ given_up ∷ []) (codes "x" ∷ [])

abbrev two_questions : QuestionSet
two_questions = record {
  id = codes "q";
  negotiation_id = codes "n";
  questions = codes "Salary?" ∷ codes "City?" ∷ [];
  reason = none;
  question_text = none;
  vacancy_id = none;
  vacancy_title = none;
  employer_name = none;
  created_at = codes "2026";
}

abbrev answering : List QuestionEvent
answering =
    typed 1 (codes "Omsk")
    ∷ reloaded two_questions
    ∷ typed 0 (codes "1")
    ∷ typed 0 (codes "100")
    ∷ []

send_answers-typed_example :
    (send_answers (on_questions answering (question_card two_questions))
      ≡ some (answer_questions (codes "q") (codes "100" ∷ codes "Omsk" ∷ [])))
    × (length (codes "100" ∷ codes "Omsk" ∷ []) ≡ 2)
unfolding answers_typed last_typed is_ready trim is_space
send_answers-typed_example = send_answers-typed two_questions answering (tt, (refl, (tt, (tt, tt))))

abbrev news : NotificationRow (Payload Text)
news = record {
  id = codes "1";
  type' = codes "captcha";
  payload = some ((codes "url", codes "x") ∷ []);
  read' = false;
  created_at = codes "2026";
}

abbrev seen : List (BridgeEvent Text)
seen = inserted news ∷ []

happen_all-toasts_example :
    ((happen_all
        (λ s. s)
        true
        (seen ++ visit (λ s. s) true (codes "u") (news ∷ []) (news ∷ news ∷ []) seen)
        mounted).toasts
      ≡ map (toast_of (λ s. s) true) (news ∷ news ∷ []))
    × ((happen_all
          (λ s. s)
          true
          (seen ++ visit (λ s. s) true (codes "u") (news ∷ []) (news ∷ news ∷ []) seen)
          mounted).channel
        ≡ none)
    × ((happen_all (λ s. s) true (seen ++ (unmounted ∷ seen)) mounted).toasts ≡ [])
    × ((happen_all (λ s. s) true (seen ++ (unmounted ∷ seen)) mounted).channel ≡ none)
happen_all-toasts_example =
    happen_all-toasts (λ s. s) true seen seen (codes "u") (news ∷ []) (news ∷ news ∷ []) (tt, tt)
