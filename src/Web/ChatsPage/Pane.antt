-- ===== src/Web/ChatsPage/Pane.antt =====
-- frontend/src/app/(app)/chats/page.tsx, `MessagesPane`: what is sent to whom.
use otclick_hh.Common.{Bool, [], false, if◌then◌else◌, is_empty, refl, some, trim, true, ◌∷◌, ◌≡◌}
use otclick_hh.Web.ChatsPage.{ChatSummary, MessagesPane, click_send, on_send, send_done}

-- A message that was sent and went through has reached the chat that is shown, once and trimmed, and
-- the pane is empty; one that did not go through is still in the pane.
pub send_done-on_send :
    (chat : ChatSummary) (through : Bool) (s : MessagesPane)
    → is_empty (trim s.draft) ≡ false
    → ((send_done through (click_send (some chat) (record s { sending = false }))).posted
        ≡ (chat.id, trim s.draft) ∷ s.posted)
      × ((send_done through (click_send (some chat) (record s { sending = false }))).draft
          ≡ (if through then [] else s.draft))
      × ((send_done through (click_send (some chat) (record s { sending = false }))).sending
          ≡ false)
unfolding send_done click_send on_send
send_done-on_send chat true s h = rw h (refl, refl, refl)
send_done-on_send chat false s h = rw h (refl, refl, refl)

-- The keys send a message again while it is on its way, which the button does not: two presses of
-- the keys post it twice, a press and a click once.
pub on_send_twice :
    (chat : ChatSummary) (s : MessagesPane)
    → is_empty (trim s.draft) ≡ false
    → ((on_send (some chat) (on_send (some chat) s)).posted
        ≡ (chat.id, trim s.draft) ∷ (chat.id, trim s.draft) ∷ s.posted)
      × ((click_send (some chat) (on_send (some chat) s)).posted
          ≡ (chat.id, trim s.draft) ∷ s.posted)
unfolding click_send on_send
on_send_twice chat s h = rw h (rw h (refl, refl))
