-- ===== src/Web/DraftCard.antt =====
-- frontend/src/app/(app)/todo/page.tsx, `DraftCard`: the reply of the AI, which the user edits and
-- sends.
use otclick_hh.Common.{
  Bool, Bool-cases, List, Option, Text, [], ap, false, if◌then◌else◌, inl, inr, map, none, refl,
  some, true, ◌++◌, ◌∙◌, ◌∷◌, ◌≡◌,
}
use otclick_hh.Web.Inbox.{Action, Draft, discard_draft, send_draft}

-- `DraftCard`: the states `text`, `editing` and `buf`, with the property `draft`
pub record DraftCard : Type 0 where
  pub draft : Draft
  pub text : Text
  pub editing : Bool
  pub buf : Text

unfoldable pub draft_card : Draft → DraftCard
draft_card d = record { draft = d; text = d.draft_text; editing = false; buf = d.draft_text }

-- the three buttons that change the card, and the text area
pub data DraftEvent : Type 0 where
  edit save cancel : DraftEvent
  enter : Text → DraftEvent

-- The button to edit is shown while the card is not edited, the others and the text area while it
-- is: what is not shown does nothing.
abbrev while_editing : Bool → DraftEvent → DraftCard → DraftCard
while_editing false edit s = record s { buf = s.text; editing = true }
while_editing false save s = s
while_editing false cancel s = s
while_editing false (enter entries) s = s
while_editing true edit s = s
while_editing true save s = record s { text = s.buf; editing = false }
while_editing true cancel s = record s { buf = s.text; editing = false }
while_editing true (enter entries) s = record s { buf = entries }

unfoldable pub on_draft : DraftEvent → DraftCard → DraftCard
on_draft e s = while_editing s.editing e s

unfoldable pub on_drafts : List DraftEvent → DraftCard → DraftCard
on_drafts [] s = s
on_drafts (e ∷ es) s = on_drafts es (on_draft e s)

-- the buttons to send and to discard, which are shown while the card is not edited
unfoldable pub send_reply : DraftCard → Option Action
send_reply s = if s.editing then none else some (send_draft s.draft.id s.text)

unfoldable pub discard_reply : DraftCard → Option Action
discard_reply s = if s.editing then none else some (discard_draft s.draft.id)

-- The reply is edited in sessions: what was typed in one, and whether it was saved.
pub record Session : Type 0 where
  pub entered : List Text
  pub saved : Bool

abbrev pub events_of : Session → List DraftEvent
events_of w = edit ∷ map enter w.entered ++ (if w.saved then save else cancel) ∷ []

abbrev pub sessions_events : List Session → List DraftEvent
sessions_events [] = []
sessions_events (w ∷ ws) = events_of w ++ sessions_events ws

abbrev pub last_or : Text → List Text → Text
last_or a [] = a
last_or a (b ∷ bs) = last_or b bs

-- the reply after the sessions: the last text of each saved one
unfoldable pub reply_after : Text → List Session → Text
reply_after reply [] = reply
reply_after reply (w ∷ ws) = reply_after (if w.saved then last_or reply w.entered else reply) ws

on_drafts-append :
    (es fs : List DraftEvent) (s : DraftCard)
    → on_drafts (es ++ fs) s ≡ on_drafts fs (on_drafts es s)
unfolding on_drafts
on_drafts-append [] fs s = refl
on_drafts-append (e ∷ es) fs s = on_drafts-append es fs (on_draft e s)

on_drafts-entered :
    (entries : List Text) (d : Draft) (reply buf : Text)
    → on_drafts (map enter entries) (record { draft = d; text = reply; editing = true; buf = buf })
      ≡ record { draft = d; text = reply; editing = true; buf = last_or buf entries }
unfolding on_drafts on_draft
on_drafts-entered [] d reply buf = refl
on_drafts-entered (w ∷ entries) d reply buf = on_drafts-entered entries d reply w

-- the card with a reply, not edited, its buffer left over
abbrev idle_card : Draft → Text → Text → DraftCard
idle_card d reply buf = record { draft = d; text = reply; editing = false; buf = buf }

on_drafts-session :
    (w : Session) (d : Draft) (reply buf : Text)
    → (left : Text) × (on_drafts (events_of w) (idle_card d reply buf)
        ≡ idle_card d (if w.saved then last_or reply w.entered else reply) left)
unfolding on_drafts on_draft
on_drafts-session w d reply buf =
    let cut =
      on_drafts-append (map enter w.entered) ((if w.saved then save else cancel) ∷ [])
        (record { draft = d; text = reply; editing = true; buf = reply }) in
    let typed = on_drafts-entered w.entered d reply reply in
    elim (Bool-cases w.saved) [
      | inl e ↦ (last_or reply w.entered, cut ∙ rw (typed, e) refl)
      | inr e ↦ (reply, cut ∙ rw (typed, e) refl)
    ]

on_drafts-sessions :
    (ws : List Session) (d : Draft) (reply buf : Text)
    → (left : Text) × (on_drafts (sessions_events ws) (idle_card d reply buf)
        ≡ idle_card d (reply_after reply ws) left)
unfolding reply_after on_drafts
on_drafts-sessions [] d reply buf = (buf, refl)
on_drafts-sessions (w ∷ ws) d reply buf =
    let one = on_drafts-session w d reply buf in
    let rest = on_drafts-sessions ws d (if w.saved then last_or reply w.entered else reply) one.0 in
    (
      rest.0,
      on_drafts-append (events_of w) (sessions_events ws) (idle_card d reply buf)
          ∙ ap (on_drafts (sessions_events ws)) one.1
          ∙ rest.1,
    )

-- However often a reply is edited, what the card then sends is the last text of the last session that
-- was saved with a text in it, a cancelled session being as if it had not been; and while a session
-- is open the card neither sends nor discards.
pub send_reply-sessions :
    (d : Draft) (ws : List Session) (typed : List Text)
    → (send_reply (on_drafts (sessions_events ws) (draft_card d))
        ≡ some (send_draft d.id (reply_after d.draft_text ws)))
      × (send_reply (on_drafts (sessions_events ws ++ edit ∷ map enter typed) (draft_card d))
          ≡ none)
      × (discard_reply (on_drafts (sessions_events ws ++ edit ∷ map enter typed) (draft_card d))
          ≡ none)
unfolding send_reply discard_reply draft_card on_drafts on_draft
send_reply-sessions d ws typed =
    let shut = on_drafts-sessions ws d d.draft_text d.draft_text in
    let after =
      on_drafts-append (sessions_events ws) (edit ∷ map enter typed)
        (idle_card d d.draft_text d.draft_text)
      ∙ ap (on_drafts (edit ∷ map enter typed)) shut.1
      ∙ on_drafts-entered typed d (reply_after d.draft_text ws) (reply_after d.draft_text ws) in
    (ap send_reply shut.1, ap send_reply after, ap discard_reply after)
