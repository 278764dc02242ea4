-- ===== src/Ext/Background/Guards.antt =====
-- ext/entrypoints/background.ts: where the token goes.
use otclick_hh.Common.{
  Bool, Bool-cases, Option, Text, [], codes, inl, inr, is_empty, none, not, refl, some, starts_with,
  sym, text_eq, true, ◌&&◌, ◌++◌, ◌||◌, ◌∙◌, ◌∷◌, ◌≡◌, ◌⊎◌,
}
use otclick_hh.Ext.Auth.{
  AuthService, StoredAuth, adopt_calls, get_valid_jwt, is_expiring_soon, persist_external_session,
  refresh_calls, stored_text,
}
use otclick_hh.Ext.Background.{
  Background, Body, Msg, Reply, Request, Response, adopt_reply, adopt_session, api_fetch,
  auth_status, chat, context, download, fetch_file, fill_page, handle, open_app, resume_file_url,
  save_qa, send_with, sign_in, sign_out, unknown, with_refresh,
}

refresh_calls-cases :
    (a : AuthService) (s : StoredAuth)
    → (refresh_calls a s ≡ [])
      ⊎ (refresh_calls a s ≡ (stored_text s.jwt, stored_text s.refresh_token) ∷ [])
unfolding refresh_calls
refresh_calls-cases a s =
    elim (Bool-cases (
      is_empty (stored_text s.jwt)
      || not (is_expiring_soon a (stored_text s.jwt))
      || is_empty (stored_text s.refresh_token))) [
        | inl e ↦ inl (rw e refl)
        | inr e ↦ inr (rw e refl)
      ]

adopt_calls-cases :
    (access refresh : Text)
    → (adopt_calls access refresh ≡ []) ⊎ (adopt_calls access refresh ≡ (access, refresh) ∷ [])
unfolding adopt_calls
adopt_calls-cases access refresh = elim (Bool-cases (is_empty access || is_empty refresh)) [
  | inl e ↦ inl (rw e refl)
  | inr e ↦ inr (rw e refl)
]

module _ {J : Type 0} (a : AuthService) (api_base app_base : Text)
    (fetch : Request J → Option (Response J)) where
  -- One of the four addresses of the extension's part of the backend, or a text that begins with the
  -- address of the resume file.
  abbrev pub IsOurs : Text → Type 0
  IsOurs url =
      (url ≡ api_base ++ codes "/api/extension/context")
      ⊎ (url ≡ api_base ++ codes "/api/extension/chat")
      ⊎ (url ≡ api_base ++ codes "/api/extension/qa")
      ⊎ (url ≡ api_base ++ codes "/api/extension/fill")
      ⊎ (starts_with url (api_base ++ codes "/api/extension/resume-file") ≡ true)

  -- What goes to the backend: nothing, or one request, to an address of ours and with the token that
  -- `getValidJwt` gives out.
  abbrev pub SendsOurs : Background J → Background J → Type 0
  SendsOurs b c =
      (c.sent ≡ b.sent)
      ⊎ ((r : Request J) × (c.sent ≡ r ∷ b.sent)
          × IsOurs r.url
          × ((get_valid_jwt a b.stored).1 ≡ some r.jwt))

  -- What goes to the authentication service: nothing, the stored tokens, or those of the message.
  abbrev pub AsksWithOwn : Msg J → Background J → Background J → Type 0
  AsksWithOwn m b c =
      (c.sessions ≡ b.sessions)
      ⊎ (c.sessions ≡ (stored_text b.stored.jwt, stored_text b.stored.refresh_token) ∷ b.sessions)
      ⊎ ((access : Text) × (refresh : Text) × (m ≡ adopt_session access refresh)
          × (c.sessions ≡ (access, refresh) ∷ b.sessions))

  send_with-SendsOurs :
      (path : Text) (body : Option (Body J)) (pick : Response J → Reply J)
      (r : StoredAuth × Option Text) (b : Background J)
      → r.1 ≡ (get_valid_jwt a b.stored).1
      → IsOurs (api_base ++ path)
      → SendsOurs b (send_with a api_base app_base fetch path body pick r (with_refresh a b)).0
  send_with-SendsOurs path body pick (stored, none) b e o = inl refl
  send_with-SendsOurs path body pick (stored, some jwt) b e o =
      inr (record { url = api_base ++ path; jwt = jwt; body = body }, refl, o, sym e)

  api_fetch-SendsOurs :
      (path : Text) (body : Option (Body J)) (pick : Response J → Reply J) (b : Background J)
      → IsOurs (api_base ++ path)
      → SendsOurs b (api_fetch a api_base app_base fetch path body pick b).0
  unfolding api_fetch
  api_fetch-SendsOurs path body pick b o =
      send_with-SendsOurs path body pick (get_valid_jwt a b.stored) b refl o

  download-SendsOurs :
      (url : Text) (r : StoredAuth × Option Text) (b : Background J)
      → r.1 ≡ (get_valid_jwt a b.stored).1
      → IsOurs url
      → SendsOurs b (download a api_base app_base fetch url r (with_refresh a b)).0
  download-SendsOurs url (stored, none) b e o = inl refl
  download-SendsOurs url (stored, some jwt) b e o =
      inr (record { url = url; jwt = jwt; body = none }, refl, o, sym e)

  fetch_file-SendsOurs :
      (url : Text) (b : Background J)
      → SendsOurs b (handle a api_base app_base fetch (fetch_file url) b).0
  unfolding handle resume_file_url
  fetch_file-SendsOurs url b =
      elim (Bool-cases (starts_with url (api_base ++ codes "/api/extension/resume-file"))) [
        | inl e ↦
            rw e
              (download-SendsOurs url (get_valid_jwt a b.stored) b refl (inr (inr (inr (inr e)))))
        | inr e ↦ rw e (inl refl)
      ]

  adopt_reply-sent :
      (b : Background J) (r : StoredAuth × Option Text)
      → ((adopt_reply a api_base app_base fetch b r).0.sent ≡ b.sent)
        × ((adopt_reply a api_base app_base fetch b r).0.sessions ≡ b.sessions)
  adopt_reply-sent b (stored, none) = (refl, refl)
  adopt_reply-sent b (stored, some email) = (refl, refl)

  abbrev is_known : Text → Background J → Bool
  is_known access b =
      not (is_empty (stored_text b.stored.jwt)) && text_eq (stored_text b.stored.jwt) access

  adopt-sent :
      (access refresh : Text) (b : Background J)
      → (handle a api_base app_base fetch (adopt_session access refresh) b).0.sent ≡ b.sent
  unfolding handle
  adopt-sent access refresh b = elim (Bool-cases (is_known access b)) [
    | inl e ↦ rw e refl
    | inr e ↦
        let asked = record b { sessions = adopt_calls access refresh ++ b.sessions } in
        rw e ((adopt_reply-sent asked (persist_external_session a access refresh b.stored)).0)
  ]

  adopt-sessions :
      (access refresh : Text) (b : Background J)
      → AsksWithOwn
          (adopt_session access refresh)
          b
          (handle a api_base app_base fetch (adopt_session access refresh) b).0
  unfolding handle
  adopt-sessions access refresh b = elim (Bool-cases (is_known access b)) [
    | inl e ↦ rw e (inl refl)
    | inr e ↦
        let asked = record b { sessions = adopt_calls access refresh ++ b.sessions } in
        let (_, same) =
          adopt_reply-sent asked (persist_external_session a access refresh b.stored) in
        elim (adopt_calls-cases access refresh) [
          | inl f ↦ rw e (inl (same ∙ rw f refl))
          | inr f ↦ rw e (inr (inr (access, refresh, refl, same ∙ rw f refl)))
        ]
  ]

  with_refresh-sessions :
      (m : Msg J) (b c : Background J)
      → c.sessions ≡ (with_refresh a b).sessions
      → AsksWithOwn m b c
  with_refresh-sessions m b c same = elim (refresh_calls-cases a b.stored) [
    | inl f ↦ inl (same ∙ rw f refl)
    | inr f ↦ inr (inl (same ∙ rw f refl))
  ]

  send_with-sessions :
      (path : Text) (body : Option (Body J)) (pick : Response J → Reply J)
      (r : StoredAuth × Option Text) (b : Background J)
      → (send_with a api_base app_base fetch path body pick r b).0.sessions ≡ b.sessions
  send_with-sessions path body pick (stored, none) b = refl
  send_with-sessions path body pick (stored, some jwt) b = refl

  download-sessions :
      (url : Text) (r : StoredAuth × Option Text) (b : Background J)
      → (download a api_base app_base fetch url r b).0.sessions ≡ b.sessions
  download-sessions url (stored, none) b = refl
  download-sessions url (stored, some jwt) b = refl

  api_fetch-sessions :
      (m : Msg J) (path : Text) (body : Option (Body J)) (pick : Response J → Reply J)
      (b : Background J)
      → AsksWithOwn m b (api_fetch a api_base app_base fetch path body pick b).0
  unfolding api_fetch
  api_fetch-sessions m path body pick b =
      with_refresh-sessions m b
        (send_with a api_base app_base fetch path body pick (get_valid_jwt a b.stored)
          (with_refresh a b)).0
        (send_with-sessions path body pick (get_valid_jwt a b.stored) (with_refresh a b))

  fetch_file-sessions :
      (url : Text) (b : Background J)
      → AsksWithOwn (fetch_file url) b (handle a api_base app_base fetch (fetch_file url) b).0
  unfolding handle
  fetch_file-sessions url b =
      elim (Bool-cases (starts_with url (resume_file_url a api_base app_base fetch))) [
        | inl e ↦ rw e (
            with_refresh-sessions (fetch_file url) b
              (download a api_base app_base fetch url (get_valid_jwt a b.stored)
                (with_refresh a b)).0
              (download-sessions url (get_valid_jwt a b.stored) (with_refresh a b)))
        | inr e ↦ rw e (inl refl)
      ]

  -- Whatever message the background script is sent, it sends at most one request to the backend, with
  -- the token that `getValidJwt` gives out: to one of four addresses of the extension's part, or to
  -- a text that begins with the address of the resume file, dot segments not being resolved. The
  -- authentication service is called with the stored tokens or with those of an ADOPT_SESSION only.
  pub handle-IsOurs :
      (m : Msg J) (b : Background J)
      → SendsOurs b (handle a api_base app_base fetch m b).0
        × AsksWithOwn m b (handle a api_base app_base fetch m b).0
  unfolding handle
  handle-IsOurs auth_status b = (
    inl refl,
    with_refresh-sessions auth_status b (handle a api_base app_base fetch auth_status b).0 refl,
  )
  handle-IsOurs sign_in b = (inl refl, inl refl)
  handle-IsOurs sign_out b = (inl refl, inl refl)
  handle-IsOurs (open_app path) b = (inl refl, inl refl)
  handle-IsOurs (adopt_session access refresh) b =
      (inl (adopt-sent access refresh b), adopt-sessions access refresh b)
  handle-IsOurs context b =
      (api_fetch-SendsOurs _ _ _ b (inl refl), api_fetch-sessions context _ _ _ b)
  handle-IsOurs (fetch_file url) b = (fetch_file-SendsOurs url b, fetch_file-sessions url b)
  handle-IsOurs (chat messages page_text) b = (
    api_fetch-SendsOurs _ _ _ b (inr (inl refl)),
    api_fetch-sessions (chat messages page_text) _ _ _ b,
  )
  handle-IsOurs (save_qa items) b = (
    api_fetch-SendsOurs _ _ _ b (inr (inr (inl refl))),
    api_fetch-sessions (save_qa items) _ _ _ b,
  )
  handle-IsOurs (fill_page url page_text frames) b = (
    api_fetch-SendsOurs _ _ _ b (inr (inr (inr (inl refl)))),
    api_fetch-sessions (fill_page url page_text frames) _ _ _ b,
  )
  handle-IsOurs (unknown type) b = (inl refl, inl refl)
