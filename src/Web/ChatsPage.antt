-- ===== src/Web/ChatsPage.antt =====
-- frontend/src/app/(app)/chats/page.tsx and hooks/useChats.ts: the list of the chats, the chat that
-- is shown, and the pane that writes to it.
pub mod Selection
pub mod Pane
use otclick_hh.Common.{
  Bool, List, Option, Text, [], any, codes, false, find, if◌then◌else◌, includes, is_empty, join,
  keep, map, none, not, or_else, or_text, pos, some, split_spaces, take, text_eq, trim, true, ℤ,
  ◌||◌, ◌∷◌,
}

pub record ChatSummary : Type 0 where
  pub id : Text
  pub vacancy_id : Option Text
  pub vacancy_name : Option Text
  pub employer_name : Option Text
  pub employer_logo : Option Text
  pub state_id : Option Text
  pub state_name : Option Text
  pub updated_at : Option Text
  pub unread : ℤ
  pub has_updates : Bool

pub data TagTone : Type 0 where
  ok yellow err neutral : TagTone

-- `STATE_TAG`
abbrev pub state_tags : List (Text × TagTone × Text)
state_tags =
    (codes "response", ok, codes "Отклик отправлен")
    ∷ (codes "invitation", yellow, codes "Приглашение")
    ∷ (codes "interview", ok, codes "Собеседование")
    ∷ (codes "offer", ok, codes "Оффер")
    ∷ (codes "discard", err, codes "Отказ")
    ∷ (codes "discard_by_applicant", neutral, codes "Отозван")
    ∷ (codes "discard_after_interview", err, codes "Отказ")
    ∷ (codes "hidden", neutral, codes "Скрыт")
    ∷ (codes "archive", neutral, codes "Архив")
    ∷ []

abbrev tag_in : List (Text × TagTone × Text) → Text → Text → TagTone × Text
tag_in [] id label = (neutral, label)
tag_in ((k, tone, text) ∷ tags) id label =
    let rest = tag_in tags id label in if text_eq k id then (tone, text) else rest

-- `stateTag`, none where there is no state
unfoldable pub state_tag : Option Text → Option Text → Option (TagTone × Text)
state_tag none name = none
state_tag (some []) name = none
state_tag (some (c ∷ id)) name = some (tag_in state_tags (c ∷ id) (or_else name (c ∷ id)))

abbrev first_letter : (Text → Text) → Text → Text
first_letter upper [] = []
first_letter upper (c ∷ s) = upper (c ∷ [])

-- `initials`; `upper` is `toUpperCase`
unfoldable pub initials : (Text → Text) → Option Text → Text
initials upper none = codes "?"
initials upper (some []) = codes "?"
initials upper (some (c ∷ name)) =
    or_text (join [] (map (first_letter upper) (take 2 (split_spaces (trim (c ∷ name))))))
      (upper (c ∷ []))

-- What the query of `useChats` has: its data, and the message of its error.
pub record ChatsQuery : Type 0 where
  pub items : Option (List ChatSummary)
  pub error : Option Text

-- `chats` of `useChats`: none while they are loading
unfoldable pub chats_of : ChatsQuery → Option (List ChatSummary)
chats_of q = elim q.error [ none ↦ q.items | some message ↦ some [] ]

-- `unreadIds`
unfoldable pub unread_ids : Option (List ChatSummary) → List Text
unread_ids chats = map (λ c. c.id) (keep (λ c. c.has_updates) (or_else chats []))

-- `deepLinkId`, `chats`, `search` and `selectedId`
pub record ChatsPage : Type 0 where
  pub deep_link_id : Option Text
  pub chats : Option (List ChatSummary)
  pub search : Text
  pub selected_id : Option Text

abbrev pub opened_page : Option Text → ChatsPage
opened_page deep_link_id = record {
  deep_link_id = deep_link_id;
  chats = none;
  search = [];
  selected_id = none;
}

abbrev stub : Text → ChatSummary
stub id = record {
  id = id;
  vacancy_id = none;
  vacancy_name = none;
  employer_name = none;
  employer_logo = none;
  state_id = none;
  state_name = none;
  updated_at = none;
  unread = pos 0;
  has_updates = false;
}

abbrev pub chat_in : List ChatSummary → Text → Option ChatSummary
chat_in cs id = find (λ c. text_eq c.id id) cs

abbrev not_found : Option Text → Option ChatSummary
not_found none = none
not_found (some []) = none
not_found (some (c ∷ id)) = some (stub (c ∷ id))

-- `deepLinkId ?? selectedId`
abbrev pub shown_id : Option Text → Option Text → Option Text
shown_id none selected_id = selected_id
shown_id (some id) selected_id = some id

abbrev pub found_in : Option (List ChatSummary) → Option Text → Option ChatSummary
found_in none id = none
found_in (some cs) none = none
found_in (some cs) (some id) = chat_in cs id

-- `fromList ?? stubForDeepLink`
abbrev pub or_stub : Option ChatSummary → Option Text → Option ChatSummary
or_stub none deep_link_id = not_found deep_link_id
or_stub (some c) deep_link_id = some c

-- `selected`
unfoldable pub selected : ChatsPage → Option ChatSummary
selected s = or_stub (found_in s.chats (shown_id s.deep_link_id s.selected_id)) s.deep_link_id

-- `hit`, in the effect
abbrev pub hit_in : Option (List ChatSummary) → Option Text → Option ChatSummary
hit_in chats none = none
hit_in chats (some []) = none
hit_in chats (some (c ∷ id)) = found_in chats (some (c ∷ id))

abbrev pub readonly_states : List Text
readonly_states =
    codes "discard"
    ∷ codes "discard_by_employer"
    ∷ codes "discard_after_interview"
    ∷ codes "discard_by_applicant"
    ∷ codes "discard_visited"
    ∷ codes "discard_no_appearance"
    ∷ codes "hidden"
    ∷ codes "archive"
    ∷ codes "discard_to_other_vacancy"
    ∷ []

-- `canSend`
unfoldable pub can_send : Option ChatSummary → Bool
can_send none = false
can_send (some chat) = not (any (text_eq (or_else chat.state_id [])) readonly_states)

-- `lower` is `toLowerCase`.
module _ (lower : Text → Text) where
  -- `filtered`
  unfoldable pub filtered : ChatsPage → Option (List ChatSummary)
  filtered s =
      let q = lower (trim s.search) in
      elim s.chats [
        | none ↦ none
        | some cs ↦ some (
            if is_empty q
            then cs
            else keep
                (λ c.
                  includes (lower (or_else c.vacancy_name [])) q
                  || includes (lower (or_else c.employer_name [])) q)
                cs)
      ]

  abbrev first_shown : Option (List ChatSummary) → ChatsPage → ChatsPage
  first_shown none s = s
  first_shown (some []) s = s
  first_shown (some (c ∷ cs)) s = record s { selected_id = some c.id }

  abbrev default_choice : ChatsPage → ChatsPage
  default_choice s = if is_empty (or_else s.selected_id []) then first_shown (filtered s) s else s

  abbrev linked : Option ChatSummary → ChatsPage → ChatsPage
  linked none s = default_choice s
  linked (some hit) s = record s { selected_id = some hit.id }

  -- the effect
  unfoldable pub settle : ChatsPage → ChatsPage
  unfolding filtered
  settle s = linked (hit_in s.chats s.deep_link_id) s

  pub data Event : Type 0 where
    loaded : ChatsQuery → Event
    searching : Text → Event
    clicking : Text → Event

  -- a change of the page, and then the effect
  unfoldable pub happen : Event → ChatsPage → ChatsPage
  unfolding settle chats_of
  happen (loaded query) s = settle (record s { chats = chats_of query })
  happen (searching text) s = settle (record s { search = text })
  happen (clicking id) s = settle (record s { selected_id = some id })

  unfoldable pub happen_all : List Event → ChatsPage → ChatsPage
  unfolding happen
  happen_all [] s = s
  happen_all (e ∷ es) s = happen_all es (happen e s)

-- The pane: `draft`, `sending`, and what was posted to which chat, the last one first.
pub record MessagesPane : Type 0 where
  pub draft : Text
  pub sending : Bool
  pub posted : List (Text × Text)

-- `onSend` up to the answer
unfoldable pub on_send : Option ChatSummary → MessagesPane → MessagesPane
on_send none s = s
on_send (some chat) s =
    if is_empty (trim s.draft)
    then s
    else record s { sending = true; posted = (chat.id, trim s.draft) ∷ s.posted }

-- the button, which is disabled while a message is on its way
unfoldable pub click_send : Option ChatSummary → MessagesPane → MessagesPane
unfolding on_send
click_send chat s = if s.sending || is_empty (trim s.draft) then s else on_send chat s

-- the answer: whether the message came through
unfoldable pub send_done : Bool → MessagesPane → MessagesPane
send_done true s = record s { draft = []; sending = false }
send_done false s = record s { sending = false }

unfoldable pub edit_draft : Text → MessagesPane → MessagesPane
edit_draft text s = record s { draft = text }
