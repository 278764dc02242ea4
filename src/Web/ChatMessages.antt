-- ===== src/Web/ChatMessages.antt =====
-- frontend/src/hooks/useChats.ts: loading the messages of the chat that is open.
use otclick_hh.Common.{
  All, Bool, List, Option, Text, [], arith, eqb, false, if◌then◌else◌, none, refl, some, suc, true,
  ℕ, ◌++◌, ◌<◌, ◌∙◌, ◌∷◌, ◌≡◌,
}

-- The state of `useChatMessages`, the messages of any type.
pub record ChatMessages {ℓ} (A : Type ℓ) : Type ℓ where
  pub messages : Option (List A)
  pub error : Option Text
  pub loading : Bool
  pub req_id : ℕ

pub data Loaded {ℓ} (A : Type ℓ) : Type ℓ where
  loaded : List A → Loaded A
  load_failed : Text → Loaded A

module _ {ℓ} {A : Type ℓ} where
  -- the hook before the first refresh
  abbrev pub initial : ChatMessages A
  initial = record { messages = none; error = none; loading = false; req_id = 0 }

  -- `refresh` up to its `await`: no chat clears the messages, a chat makes a request, whose
  -- number is the state's
  unfoldable pub refresh : Option Text → ChatMessages A → ChatMessages A
  refresh none s = record s { messages = none }
  refresh (some chat) s = record s { req_id = suc s.req_id; loading = true; error = none }

  abbrev pub accept : Loaded A → ChatMessages A → ChatMessages A
  accept (loaded items) s = record s { messages = some items; loading = false }
  accept (load_failed e) s = record s { messages = some []; error = some e; loading = false }

  -- `refresh` after its `await`: the answer to the request of a number
  unfoldable pub answer : ℕ → Loaded A → ChatMessages A → ChatMessages A
  answer id r s = if eqb id s.req_id then accept r s else s

  -- the answers to several requests, in the order in which they come
  unfoldable pub answer_all : List (ℕ × Loaded A) → ChatMessages A → ChatMessages A
  answer_all [] s = s
  answer_all ((id, r) ∷ rs) s = answer_all rs (answer id r s)

  abbrev pub IsEarlier : ℕ → (ℕ × Loaded A) → Type 0
  IsEarlier n a = a.0 < n

  answer-earlier : (id : ℕ) (r : Loaded A) (s : ChatMessages A) → id < s.req_id → answer id r s ≡ s
  unfolding answer
  answer-earlier id r s h = ground arith

  answer_all-earlier :
      (rs : List (ℕ × Loaded A)) (s : ChatMessages A)
      → All (IsEarlier s.req_id) rs
      → answer_all rs s ≡ s
  unfolding answer_all
  answer_all-earlier [] s h = refl
  answer_all-earlier ((id, r) ∷ rs) s (p, h) =
      rw (answer-earlier id r s p) (answer_all-earlier rs s h)

  answer_all-append :
      (rs ts : List (ℕ × Loaded A)) (s : ChatMessages A)
      → answer_all (rs ++ ts) s ≡ answer_all ts (answer_all rs s)
  unfolding answer_all
  answer_all-append [] ts s = refl
  answer_all-append ((id, r) ∷ rs) ts s = answer_all-append rs ts (answer id r s)

  accept-req_id : (r : Loaded A) (s : ChatMessages A) → (accept r s).req_id ≡ s.req_id
  accept-req_id (loaded items) s = refl
  accept-req_id (load_failed e) s = refl

  answer-current : (r : Loaded A) (s : ChatMessages A) → answer s.req_id r s ≡ accept r s
  unfolding answer
  answer-current r s = ground arith

  -- After a chat is opened, the answer to its own request decides what is shown, in whatever
  -- order the answers to the requests made before it come, before it or after it.
  pub answer_all-refresh :
      (s : ChatMessages A) (chat : Text) (r : Loaded A) (before after : List (ℕ × Loaded A))
      → All (IsEarlier (suc s.req_id)) before
      → All (IsEarlier (suc s.req_id)) after
      → answer_all (before ++ (suc s.req_id, r) ∷ after) (refresh (some chat) s)
        ≡ accept r (refresh (some chat) s)
  unfolding answer_all refresh
  answer_all-refresh s chat r before after hb ha =
      let t = refresh (some chat) s in
      answer_all-append before ((suc s.req_id, r) ∷ after) t
      ∙ rw (answer_all-earlier before t hb, answer-current r t)
          (answer_all-earlier after (accept r t) (rw (accept-req_id r t) ha))

  -- When the chat is closed while its request is on its way, the answer still fills in the
  -- messages of the closed chat.
  pub answer-closed :
      (s : ChatMessages A) (chat : Text) (items : List A)
      → let opened = refresh (some chat) s in
        ((refresh none opened).messages ≡ none)
        × ((answer opened.req_id (loaded items) (refresh none opened)).messages ≡ some items)
  unfolding refresh answer
  answer-closed s chat items = (refl, ground arith)
