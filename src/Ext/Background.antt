-- ===== src/Ext/Background.antt =====
-- ext/entrypoints/background.ts: the messages of the background script, which alone has the token.
pub mod Guards
pub mod SignedOut
use otclick_hh.Common.{
  Bool, List, Option, Text, [], codes, eqb, if◌then◌else◌, is_empty, leb, ltb, none, not, or_else,
  show_nat, some, starts_with, text_eq, ℕ, ◌&&◌, ◌++◌, ◌∷◌,
}
use otclick_hh.Ext.Api.{FillPayload, build_fill_payload}
use otclick_hh.Ext.Auth.{
  AuthService, StoredAuth, adopt_calls, get_valid_jwt, persist_external_session, refresh_calls,
  signed_out, stored_text,
}

-- A message, as `handle` reads it. `String(…)` and the casts have been applied. `J` is the JSON
-- that it only passes on.
pub data Msg (J : Type 0) : Type 0 where
  auth_status sign_in sign_out context : Msg J
  open_app : Text → Msg J
  adopt_session : Text → Text → Msg J
  fetch_file : Text → Msg J
  chat : J → Option Text → Msg J
  save_qa : J → Msg J
  fill_page : Text → Text → List (ℕ × List J) → Msg J
  unknown : Text → Msg J

-- `ExtContext`
pub record ExtContext (J : Type 0) : Type 0 where
  pub facts : J
  pub has_resume_file : Bool
  pub resume_filename : Option Text

-- What is posted: the messages and the text of the page, the items, or the payload of a fill.
pub data Body (J : Type 0) : Type 0 where
  chat_body : J → Option Text → Body J
  qa_body : J → Body J
  fill_body : FillPayload J → Body J

-- A request that carries the token: `Authorization: Bearer <jwt>`.
pub record Request (J : Type 0) : Type 0 where
  pub url : Text
  pub jwt : Text
  pub body : Option (Body J)

pub record Response (J : Type 0) : Type 0 where
  pub status : ℕ
  pub json : J
  -- the JSON as `ExtContext`, and its members `answer` and `saved`
  pub context : ExtContext J
  pub answer : J
  pub saved : J

pub data Reply (J : Type 0) : Type 0 where
  status_is : Bool → Text → Reply J
  ok unchanged not_ok : Reply J
  ok_email : Text → Reply J
  data_of : J → Reply J
  context_of : J → Option (Text × Text) → Reply J
  file : J → Reply J
  no_such : Text → Reply J
  -- the promise is rejected; `onMessage` answers with the error
  thrown_with : Text → Reply J
  -- it is rejected with the error of `fetch`
  rejected : Reply J

-- The storage, the tabs that were opened, the requests that were sent to the backend, and the
-- tokens that `auth.setSession` was called with, the last one first.
pub record Background (J : Type 0) : Type 0 where
  pub stored : StoredAuth
  pub tabs : List Text
  pub sent : List (Request J)
  pub sessions : List (Text × Text)

-- The calls of the authentication service that `getValidJwt` makes.
abbrev pub with_refresh : {J : Type 0} → AuthService → Background J → Background J
with_refresh a b = record b { sessions = refresh_calls a b.stored ++ b.sessions }

-- `a` is the authentication service as it is for one message: a later one may meet another.
-- `api_base` and `app_base` are the addresses of the build; `fetch` is the backend, `none` where
-- no answer comes.
module _ {J : Type 0} (a : AuthService) (api_base app_base : Text)
    (fetch : Request J → Option (Response J)) where
  abbrev pub is_ok : ℕ → Bool
  is_ok status = leb 200 status && ltb status 300

  unfoldable pub resume_file_url : Text
  resume_file_url = api_base ++ codes "/api/extension/resume-file"

  -- `apiFetch` after its `fetch`, and what the caller picks of the JSON
  abbrev pub json_of : Text → (Response J → Reply J) → Option (Response J) → Reply J
  json_of path pick none = rejected
  json_of path pick (some resp) =
      if eqb resp.status 401
      then thrown_with (codes "unauthorized")
      else if not (is_ok resp.status)
      then thrown_with (path ++ codes " failed: " ++ show_nat resp.status)
      else pick resp

  abbrev pub send_with :
      Text
      → Option (Body J)
      → (Response J → Reply J)
      → StoredAuth × Option Text
      → Background J
      → Background J × Reply J
  send_with path body pick (stored, none) b =
      (record b { stored = stored }, thrown_with (codes "unauthorized"))
  send_with path body pick (stored, some jwt) b =
      let req : Request J = record { url = api_base ++ path; jwt = jwt; body = body } in
      (record b { stored = stored; sent = req ∷ b.sent }, json_of path pick (fetch req))

  -- `apiFetch`
  unfoldable pub api_fetch :
      Text → Option (Body J) → (Response J → Reply J) → Background J → Background J × Reply J
  api_fetch path body pick b =
      send_with path body pick (get_valid_jwt a b.stored) (with_refresh a b)

  abbrev pub file_of : Option (Response J) → Reply J
  file_of none = rejected
  file_of (some resp) = if is_ok resp.status then file resp.json else not_ok

  -- the reply to CONTEXT
  unfoldable pub context_reply : Response J → Reply J
  unfolding resume_file_url
  context_reply resp = context_of resp.context.facts (
      if resp.context.has_resume_file
      then some (resume_file_url, or_else resp.context.resume_filename (codes "resume.pdf"))
      else none)

  -- `msg.page_text ? String(msg.page_text) : undefined`
  abbrev pub page_text_of : Option Text → Option Text
  page_text_of o = if is_empty (or_else o []) then none else o

  abbrev pub download : Text → StoredAuth × Option Text → Background J → Background J × Reply J
  download url (stored, none) b = (record b { stored = stored }, not_ok)
  download url (stored, some jwt) b =
      let req : Request J = record { url = url; jwt = jwt; body = none } in
      (record b { stored = stored; sent = req ∷ b.sent }, file_of (fetch req))

  abbrev pub adopt_reply : Background J → StoredAuth × Option Text → Background J × Reply J
  adopt_reply b (stored, none) = (record b { stored = stored }, not_ok)
  adopt_reply b (stored, some email) = (record b { stored = stored }, ok_email email)

  abbrev pub auth_reply : Background J → StoredAuth × Option Text → Background J × Reply J
  auth_reply b (stored, jwt) = (
    record b { stored = stored },
    status_is (not (is_empty (stored_text jwt))) (stored_text stored.email),
  )

  -- `handle`
  unfoldable pub handle : Msg J → Background J → Background J × Reply J
  unfolding resume_file_url
  handle auth_status b = auth_reply (with_refresh a b) (get_valid_jwt a b.stored)
  handle sign_in b = (record b { tabs = (app_base ++ codes "/auth") ∷ b.tabs }, ok)
  handle sign_out b = (record b { stored = signed_out }, ok)
  handle (open_app path) b = (record b { tabs = (app_base ++ path) ∷ b.tabs }, ok)
  handle (adopt_session access refresh) b =
      let jwt = stored_text b.stored.jwt in
      if not (is_empty jwt) && text_eq jwt access
      then (b, unchanged)
      else adopt_reply (record b { sessions = adopt_calls access refresh ++ b.sessions })
          (persist_external_session a access refresh b.stored)
  handle context b = api_fetch (codes "/api/extension/context") none context_reply b
  handle (fetch_file url) b =
      if not (starts_with url resume_file_url)
      then (b, not_ok)
      else download url (get_valid_jwt a b.stored) (with_refresh a b)
  handle (chat messages page_text) b =
      api_fetch (codes "/api/extension/chat") (some (chat_body messages (page_text_of page_text)))
        (λ r. data_of r.answer) b
  handle (save_qa items) b =
      api_fetch (codes "/api/extension/qa") (some (qa_body items)) (λ r. data_of r.saved) b
  handle (fill_page url page_text frames) b =
      api_fetch (codes "/api/extension/fill")
        (some (fill_body (build_fill_payload url page_text frames))) (λ r. data_of r.json) b
  handle (unknown type) b = (b, no_such type)
