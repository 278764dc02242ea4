-- ===== src/Web/ChatsPage/Selection.antt =====
-- frontend/src/app/(app)/chats/page.tsx: which chat is shown.
use otclick_hh.Common.{
  Bool-cases, List, Option, Option-cases, Text, [], ap, find-eq-some, inl, inr, is_empty, none,
  or_else, refl, some, text_eq, text_eq→eq, ℕ, ◌∙◌, ◌∷◌, ◌≡◌,
}
use otclick_hh.Web.ChatsPage.{
  ChatSummary, ChatsPage, Event, chat_in, chats_of, clicking, filtered, first_shown, found_in,
  happen, happen_all, hit_in, loaded, opened_page, or_stub, searching, selected, settle,
}

chat_in-id :
    (cs : List ChatSummary) (id : Text) (c : ChatSummary) → chat_in cs id ≡ some c → c.id ≡ id
chat_in-id cs id c h =
    let (before, after, split, missed, holds) = find-eq-some (λ c. text_eq c.id id) cs c h in
    text_eq→eq c.id id holds

or_stub-id :
    (chats : Option (List ChatSummary)) (k : ℕ) (id : Text)
    → (c : ChatSummary) × (or_stub (found_in chats (some (k ∷ id))) (some (k ∷ id)) ≡ some c)
      × (c.id ≡ k ∷ id)
or_stub-id none k id = (_, refl, refl)
or_stub-id (some cs) k id = elim (Option-cases (chat_in cs (k ∷ id))) [
  | inl f ↦ rw f (_, refl, refl)
  | inr (c, f) ↦ rw f (c, refl, chat_in-id cs (k ∷ id) c f)
]

-- what the page shows where it has a deep link
deep_link-shown :
    (s : ChatsPage) (k : ℕ) (id : Text)
    → s.deep_link_id ≡ some (k ∷ id)
    → (c : ChatSummary) × (selected s ≡ some c) × (c.id ≡ k ∷ id)
unfolding selected
deep_link-shown s k id h = rw h (or_stub-id s.chats k id)

module _ (lower : Text → Text) where
  first_shown-deep_link_id :
      (cs : Option (List ChatSummary)) (s : ChatsPage)
      → (first_shown lower cs s).deep_link_id ≡ s.deep_link_id
  first_shown-deep_link_id none s = refl
  first_shown-deep_link_id (some []) s = refl
  first_shown-deep_link_id (some (c ∷ cs)) s = refl

  settle-deep_link_id : (s : ChatsPage) → (settle lower s).deep_link_id ≡ s.deep_link_id
  unfolding settle
  settle-deep_link_id s = elim (Option-cases (hit_in s.chats s.deep_link_id)) [
    | inl e ↦ rw e (elim (Bool-cases (is_empty (or_else s.selected_id []))) [
      | inl f ↦ rw f (first_shown-deep_link_id (filtered lower s) s)
      | inr f ↦ rw f refl
    ])
    | inr (c, e) ↦ rw e refl
  ]

  happen-deep_link_id :
      (e : Event lower) (s : ChatsPage) → (happen lower e s).deep_link_id ≡ s.deep_link_id
  unfolding happen
  happen-deep_link_id (loaded query) s = settle-deep_link_id (record s { chats = chats_of query })
  happen-deep_link_id (searching text) s = settle-deep_link_id (record s { search = text })
  happen-deep_link_id (clicking id) s = settle-deep_link_id (record s { selected_id = some id })

  happen_all-deep_link_id :
      (es : List (Event lower)) (s : ChatsPage)
      → (happen_all lower es s).deep_link_id ≡ s.deep_link_id
  unfolding happen_all
  happen_all-deep_link_id [] s = refl
  happen_all-deep_link_id (e ∷ es) s =
      happen_all-deep_link_id es (happen lower e s) ∙ happen-deep_link_id e s

  -- A page that was opened by a deep link to a chat shows that chat and no other one, whatever is
  -- loaded, searched or clicked.
  pub deep_link_stays :
      (k : ℕ) (id : Text) (es : List (Event lower))
      → (c : ChatSummary) × (selected (happen_all lower es (opened_page (some (k ∷ id)))) ≡ some c)
        × (c.id ≡ k ∷ id)
  deep_link_stays k id es =
      deep_link-shown (happen_all lower es (opened_page (some (k ∷ id)))) k id
        (happen_all-deep_link_id es (opened_page (some (k ∷ id))))

  -- Without a deep link a click on a chat of the list shows that chat.
  pub clicked-selected :
      (s : ChatsPage) (cs : List ChatSummary) (k : ℕ) (id : Text) (c : ChatSummary)
      → s.deep_link_id ≡ none
      → s.chats ≡ some cs
      → chat_in cs (k ∷ id) ≡ some c
      → selected (happen lower (clicking (k ∷ id)) s) ≡ some c
  unfolding selected happen settle
  clicked-selected s cs k id c n h f = rw (n, h) (ap (λ o. or_stub o none) f)
