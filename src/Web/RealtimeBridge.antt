-- ===== src/Web/RealtimeBridge.antt =====
-- frontend/src/app/(app)/dashboard/realtime-bridge.tsx: the subscription that turns each new
-- notification into a toast and a notification of the browser. The beep is not modelled.
use otclick_hh.Common.{
  All, Bool, List, Option, Text, [], ap, append-nil, append_assoc, codes, false, if◌then◌else◌,
  join, map, none, or_else, refl, some, sym, take, text_eq, true, ◌++◌, ◌∙◌, ◌∷◌, ◌≡◌,
}
use otclick_hh.Web.Notifications.{NotificationRow}
use otclick_hh.Web.Toaster.{ToastKind, ToastPayload, error, info, success, warning}

abbrev lookup {ℓ} : {A : Type ℓ} → Text → List (Text × A) → Option A
lookup key [] = none
lookup key ((k, a) ∷ rest) = let found = lookup key rest in if text_eq k key then some a else found

-- `TYPE_KIND` and `TYPE_TITLE`
abbrev pub type_kinds : List (Text × ToastKind)
type_kinds =
    (codes "captcha", warning)
    ∷ (codes "limit_reached", warning)
    ∷ (codes "worker_stop", info)
    ∷ (codes "token_dead", error)
    ∷ (codes "account_banned", error)
    ∷ (codes "resume_missing", error)
    ∷ (codes "recruiter_todo", info)
    ∷ (codes "recruiter_draft", info)
    ∷ (codes "recruiter_question", info)
    ∷ (codes "form_approval", info)
    ∷ (codes "cover_letter_written", success)
    ∷ (codes "web_session_expired", error)
    ∷ (codes "recruiter_error", error)
    ∷ []

abbrev pub type_titles : List (Text × Text)
type_titles =
    (codes "captcha", codes "Нужна капча на hh")
    ∷ (codes "limit_reached", codes "Достигнут дневной лимит")
    ∷ (codes "worker_stop", codes "Worker остановлен")
    ∷ (codes "token_dead", codes "Токен hh умер — переподключи аккаунт")
    ∷ (codes "account_banned", codes "Аккаунт hh заблокирован")
    ∷ (codes "resume_missing", codes "Резюме недоступно")
    ∷ (codes "recruiter_todo", codes "Новая задача от рекрутёра")
    ∷ (codes "recruiter_draft", codes "Черновик ответа рекрутёру")
    ∷ (codes "recruiter_question", codes "ИИ-агент спрашивает вас")
    ∷ (codes "form_approval", codes "Анкета ждёт подтверждения")
    ∷ (codes "cover_letter_written", codes "ИИ написал сопроводительное")
    ∷ (codes "web_session_expired", codes "Сессия hh истекла - переподключите аккаунт")
    ∷ (codes "recruiter_error", codes "Ошибка ИИ-агента в чате с рекрутёром")
    ∷ []

-- The entries of a row's payload, whose values are of the type `J` of JSON values.
abbrev pub Payload {ℓ} : Type ℓ → Type ℓ
Payload J = Option (List (Text × J))

-- What happens: the answer of `getUser`, the server's joining of the subscribed channel, an inserted
-- row of the user, and the unmounting.
pub data BridgeEvent {ℓ} (J : Type ℓ) : Type ℓ where
  identified : Option Text → BridgeEvent J
  inserted : NotificationRow (Payload J) → BridgeEvent J
  joined unmounted : BridgeEvent J

-- the two variables of the effect, with the filter of the channel, whether the server has joined it,
-- and what was shown
pub record Bridge : Type 0 where
  pub cancelled : Bool
  pub channel : Option Text
  pub is_joined : Bool
  pub toasts : List ToastPayload
  pub browser : List (Text × Option Text)

abbrev pub mounted : Bridge
mounted = record { cancelled = false; channel = none; is_joined = false; toasts = []; browser = [] }

-- `string_of` is JavaScript's `String` on JSON values, which does not throw, and `granted` whether the browser may notify.
module _ {ℓ} {J : Type ℓ} (string_of : J → Text) (granted : Bool) where
  -- `formatBody`
  unfoldable pub format_body : Payload J → Option Text
  format_body none = none
  format_body (some entries) =
      some (join (codes " · ") (take 3 (map (λ e. e.0 ++ codes ": " ++ string_of e.1) entries)))

  abbrev pub title_of : NotificationRow (Payload J) → Text
  title_of n = or_else (lookup n.type' type_titles) n.type'

  unfoldable pub toast_of : NotificationRow (Payload J) → ToastPayload
  unfolding format_body
  toast_of n = record {
    id = none;
    kind = some (or_else (lookup n.type' type_kinds) info);
    title = title_of n;
    body = format_body n.payload;
    duration = none;
  }

  -- `notifyBrowser`
  abbrev notify_browser : Text → Option Text → Bridge → Bridge
  notify_browser title body s = record s {
    browser = if granted then s.browser ++ (title, body) ∷ [] else s.browser;
  }

  unfoldable pub on_insert : NotificationRow (Payload J) → Bridge → Bridge
  unfolding format_body toast_of
  on_insert n s =
      notify_browser (title_of n) (format_body n.payload)
        (record s { toasts = s.toasts ++ toast_of n ∷ [] })

  -- A row reaches the page only through a channel that was joined.
  unfoldable pub heard : Bool → NotificationRow (Payload J) → Bridge → Bridge
  unfolding on_insert
  heard false n s = s
  heard true n s = on_insert n s

  abbrev pub join_channel : Option Text → Bridge → Bridge
  join_channel none s = s
  join_channel (some filter) s = record s { is_joined = true }

  unfoldable pub happen : BridgeEvent J → Bridge → Bridge
  unfolding heard
  happen (identified none) s = s
  happen (identified (some id)) s =
      if s.cancelled
      then s
      else record s { channel = some (codes "user_id=eq." ++ id); is_joined = false }
  happen joined s = join_channel s.channel s
  happen (inserted n) s = heard s.is_joined n s
  happen unmounted s = record s { cancelled = true; channel = none; is_joined = false }

  unfoldable pub happen_all : List (BridgeEvent J) → Bridge → Bridge
  unfolding happen
  happen_all [] s = s
  happen_all (e ∷ es) s = happen_all es (happen e s)

  -- Anything but an answer that somebody is signed in, and the unmounting.
  abbrev pub IsBefore : BridgeEvent J → Type 0
  IsBefore (identified user) = user ≡ none
  IsBefore (inserted n) = Unit
  IsBefore joined = Unit
  IsBefore unmounted = ⊥

  happen_all-append :
      (es fs : List (BridgeEvent J)) (s : Bridge)
      → happen_all (es ++ fs) s ≡ happen_all fs (happen_all es s)
  unfolding happen_all
  happen_all-append [] fs s = refl
  happen_all-append (e ∷ es) fs s = happen_all-append es fs (happen e s)

  happen_all-before :
      (es : List (BridgeEvent J)) → All IsBefore es → happen_all es mounted ≡ mounted
  unfolding happen_all happen heard
  happen_all-before [] h = refl
  happen_all-before (identified user ∷ es) (h, hs) = rw h (happen_all-before es hs)
  happen_all-before (inserted n ∷ es) (h, hs) = happen_all-before es hs
  happen_all-before (joined ∷ es) (h, hs) = happen_all-before es hs
  happen_all-before (unmounted ∷ es) (h, hs) = elim h [ ]

  happen_all-rows :
      (rows : List (NotificationRow (Payload J))) (s : Bridge)
      → s.is_joined ≡ true
      → (happen_all (map inserted rows) s).toasts ≡ s.toasts ++ map toast_of rows
  unfolding happen_all happen heard on_insert
  happen_all-rows [] s h = sym (append-nil s.toasts)
  happen_all-rows (n ∷ rows) s h = rw h (
      happen_all-rows rows (on_insert n (record s { is_joined = true })) refl
      ∙ append_assoc s.toasts (toast_of n ∷ []) (map toast_of rows))

  happen_all-early :
      (rows : List (NotificationRow (Payload J))) (s : Bridge)
      → s.is_joined ≡ false
      → happen_all (map inserted rows) s ≡ s
  unfolding happen_all happen heard
  happen_all-early [] s h = refl
  happen_all-early (n ∷ rows) s h =
      rw h (happen_all-early rows (record s { is_joined = false }) refl)

  -- The page was left.
  abbrev IsClosed : Bridge → Type 0
  IsClosed s = (s.cancelled ≡ true) × (s.channel ≡ none) × (s.is_joined ≡ false)

  happen_all-closed :
      (es : List (BridgeEvent J)) (s : Bridge)
      → IsClosed s
      → ((happen_all es s).toasts ≡ s.toasts) × ((happen_all es s).channel ≡ none)
  unfolding happen_all happen heard
  happen_all-closed [] s (c, h, j) = (refl, h)
  happen_all-closed (identified none ∷ es) s k = happen_all-closed es s k
  happen_all-closed (identified (some id) ∷ es) s (c, h, j) =
      rw c (happen_all-closed es (record s { cancelled = true }) (refl, h, j))
  happen_all-closed (joined ∷ es) s (c, h, j) =
      rw h (happen_all-closed es (record s { channel = none }) (c, refl, j))
  happen_all-closed (inserted n ∷ es) s (c, h, j) =
      rw j (happen_all-closed es (record s { is_joined = false }) (c, h, refl))
  happen_all-closed (unmounted ∷ es) s k =
      happen_all-closed es (record s { cancelled = true; channel = none; is_joined = false })
        (refl, refl, refl)

  abbrev Rows : Type ℓ
  Rows = List (NotificationRow (Payload J))

  -- the channel is joined, rows are inserted, the page is left, and anything else
  abbrev after_join : Rows → List (BridgeEvent J) → List (BridgeEvent J)
  after_join rows after = joined ∷ (map inserted rows ++ (unmounted ∷ after))

  -- a user is found and rows are inserted before that
  abbrev pub visit : Text → Rows → Rows → List (BridgeEvent J) → List (BridgeEvent J)
  visit id early rows after = identified (some id) ∷ (map inserted early ++ after_join rows after)

  -- The rows inserted from the joining of the channel, which follows the answer of `getUser` with a
  -- user, until the unmounting, and no others, are shown, each once and in their order; after the
  -- unmounting no channel is open, whatever still comes, the answer of `getUser` included, and when
  -- it had not come before no row is ever shown.
  pub happen_all-toasts :
      (before after : List (BridgeEvent J)) (id : Text) (early rows : Rows)
      → All IsBefore before
      → ((happen_all (before ++ visit id early rows after) mounted).toasts ≡ map toast_of rows)
        × ((happen_all (before ++ visit id early rows after) mounted).channel ≡ none)
        × ((happen_all (before ++ (unmounted ∷ after)) mounted).toasts ≡ [])
        × ((happen_all (before ++ (unmounted ∷ after)) mounted).channel ≡ none)
  unfolding happen_all happen
  happen_all-toasts before after id early rows h =
      let open_ = record mounted { channel = some (codes "user_id=eq." ++ id) } in
      let live = record open_ { is_joined = true } in
      let shown = happen_all (map inserted rows) live in
      let cut =
        happen_all-append before (visit id early rows after) mounted
        ∙ ap (happen_all (visit id early rows after)) (happen_all-before before h)
        ∙ happen_all-append (map inserted early) (after_join rows after) open_
        ∙ ap (happen_all (after_join rows after)) (happen_all-early early open_ refl)
        ∙ happen_all-append (map inserted rows) (unmounted ∷ after) live in
      let early_end =
        happen_all-append before (unmounted ∷ after) mounted
        ∙ ap (happen_all (unmounted ∷ after)) (happen_all-before before h) in
      let late =
        happen_all-closed after
          (record shown { cancelled = true; channel = none; is_joined = false })
          (refl, refl, refl) in
      let never =
        happen_all-closed after (record mounted { cancelled = true }) (refl, refl, refl) in
      (
        ap (λ s. s.toasts) cut ∙ late.0 ∙ happen_all-rows rows live refl,
        ap (λ s. s.channel) cut ∙ late.1,
        ap (λ s. s.toasts) early_end ∙ never.0,
        ap (λ s. s.channel) early_end ∙ never.1,
      )
