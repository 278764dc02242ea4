-- ===== src/Web/Examples/Chats.antt =====
-- Examples for frontend/src/hooks/useChats.ts.
use otclick_hh.Common.{[], arith, codes, some, true, ℕ, ◌∷◌, ◌≡◌}
use otclick_hh.Web.ChatMessages.{
  ChatMessages, accept, answer_all, answer_all-refresh, initial, loaded, refresh,
}

abbrev second : ChatMessages ℕ
second = record (initial) { req_id = 1; loading = true }

answer_all-refresh_example :
    answer_all
      ((1, loaded (5 ∷ [])) ∷ (2, loaded (6 ∷ [])) ∷ [])
      (refresh (some (codes "b")) second)
    ≡ accept (loaded (6 ∷ [])) (refresh (some (codes "b")) second)
answer_all-refresh_example =
    answer_all-refresh second (codes "b") (loaded (6 ∷ [])) ((1, loaded (5 ∷ [])) ∷ []) []
      (omega arith, tt) tt
