-- ===== src/Ext/ChatTurn.antt =====
-- ext/entrypoints/content.ts, `sendChat`: one turn of the chat.
use otclick_hh.Common.{
  List, Option, Text, [], codes, length, or_else, take, take_last, ℕ, ◌++◌, ◌∷◌, ◌≡◌, ◌≤◌,
}
use otclick_hh.Ext.ChatStore.{
  ChatMsg, Stored, append_all, append_all-window, append_message, assistant, load_history,
  max_history, user,
}
use otclick_hh.Ext.Content.{Reply, answer, throws}

abbrev pub max_chat_text : ℕ
max_chat_text = 20000

abbrev pub no_answer : Text
no_answer = codes "Не удалось получить ответ."

abbrev pub after_chat : Stored → Reply (Option Text) → Stored × Reply Text
after_chat s (throws e) = (s, throws e)
after_chat s (answer resp) =
    let text = or_else resp no_answer in
    ((append_message s (record { role = assistant; content = text })).0, answer text)

-- `chat` is the background's reply to CHAT, which carries the history and the text of the page.
unfoldable pub send_chat :
    (List ChatMsg → Text → Reply (Option Text)) → Text → Stored → Text → Stored × Reply Text
send_chat chat page_text s text =
    let (s1, history) = append_message s (record { role = user; content = text }) in
    after_chat s1 (chat history (take max_chat_text page_text))

-- What the turn adds to the history.
abbrev pub turn : Text → Reply Text → List ChatMsg
turn text (throws e) = record { role = user; content = text } ∷ []
turn text (answer reply) =
    record { role = user; content = text } ∷ record { role = assistant; content = reply } ∷ []

after_chat-window :
    (s : Stored) (text : Text) (r : Reply (Option Text))
    → length (load_history s) ≤ max_history
    → load_history (after_chat (append_message s (record { role = user; content = text })).0 r).0
      ≡ take_last max_history (
          load_history s
          ++ turn text
              (after_chat (append_message s (record { role = user; content = text })).0 r).1)
unfolding append_all
after_chat-window s text (throws e) h =
    append_all-window s (record { role = user; content = text } ∷ []) h
after_chat-window s text (answer resp) h =
    append_all-window s
      (record { role = user; content = text }
        ∷ record { role = assistant; content = or_else resp no_answer }
        ∷ [])
      h

-- After a turn of the chat the history is what it was and then the question and, unless the
-- request threw, the answer that the panel is given, the oldest beyond the last 40 left out, when
-- it was within the limit before.
pub send_chat-window :
    (chat : List ChatMsg → Text → Reply (Option Text)) (page_text : Text) (s : Stored) (text : Text)
    → length (load_history s) ≤ max_history
    → load_history (send_chat chat page_text s text).0
      ≡ take_last max_history (load_history s ++ turn text (send_chat chat page_text s text).1)
unfolding send_chat
send_chat-window chat page_text s text h =
    let m : ChatMsg = record { role = user; content = text } in
    after_chat-window s text (chat (append_message s m).1 (take max_chat_text page_text)) h
