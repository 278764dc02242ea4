-- ===== src/Ext/ChatStore.antt =====
-- ext/lib/chat-store.ts: the chat history, in the extension's own storage.
use otclick_hh.Common.{
  List, Text, [], ap, append-nil, append_assoc, arith, drop, drop-append_of_le, length,
  length-append, length-drop, refl, sym, take_last, take_last-all, take_last-of_append, ℕ, ◌++◌,
  ◌-◌, ◌∙◌, ◌∷◌, ◌≡◌, ◌≤◌,
}

pub data Role : Type 0 where
  user assistant : Role

pub record ChatMsg : Type 0 where
  pub role : Role
  pub content : Text

abbrev pub max_history : ℕ
max_history = 40

-- What the storage holds under the key: nothing, an array, or a value of another kind.
pub data Stored : Type 0 where
  missing : Stored
  array : List ChatMsg → Stored
  other : Stored

unfoldable pub load_history : Stored → List ChatMsg
load_history (array list) = list
load_history _ = []

-- The new storage and the history that is returned.
unfoldable pub append_message : Stored → ChatMsg → Stored × List ChatMsg
unfolding load_history
append_message s m =
    let next = take_last max_history (load_history s ++ m ∷ []) in (array next, next)

unfoldable pub clear_history : Stored → Stored
clear_history s = missing

-- Any number of messages, one after the other.
unfoldable pub append_all : Stored → List ChatMsg → Stored
append_all s [] = s
append_all s (m ∷ ms) = append_all (append_message s m).0 ms

-- A history never passes its limit: whatever was stored, what an append stores and returns has at
-- most 40 messages, and the new one is the last of them.
pub append_message-bounded :
    (s : Stored) (m : ChatMsg)
    → (length (append_message s m).1 ≤ max_history)
      × ((before : List ChatMsg) × ((append_message s m).1 ≡ before ++ m ∷ []))
      × (load_history (append_message s m).0 ≡ (append_message s m).1)
unfolding append_message
append_message-bounded s m =
    let h = load_history s in
    let k = length (h ++ m ∷ []) - max_history in
    (
      omega (arith, length-drop k (h ++ m ∷ [])),
      (drop k h, drop-append_of_le k h (m ∷ []) (omega (arith, length-append h (m ∷ [])))),
      refl,
    )

appended :
    (s : Stored) (m : ChatMsg) (ms : List ChatMsg)
    → take_last max_history ((append_message s m).1 ++ ms)
      ≡ take_last max_history (load_history s ++ m ∷ ms)
unfolding append_message
appended s m ms =
    take_last-of_append max_history (load_history s ++ m ∷ []) ms
    ∙ ap (take_last max_history) (append_assoc (load_history s) (m ∷ []) ms)

-- From a history within the limit, a run of appends leaves the last 40 of all the messages: those
-- that were there and then the new ones, in their order.
pub append_all-window :
    (s : Stored) (ms : List ChatMsg)
    → length (load_history s) ≤ max_history
    → load_history (append_all s ms) ≡ take_last max_history (load_history s ++ ms)
unfolding append_all
append_all-window s [] h = rw append-nil (sym (take_last-all max_history (load_history s) h))
append_all-window s (m ∷ ms) h =
    let (bound, _, kept) = append_message-bounded s m in
    append_all-window (append_message s m).0 ms (rw kept bound) ∙ rw kept (appended s m ms)
