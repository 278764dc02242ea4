-- ===== src/Ext/SessionSync/Twice.antt =====
-- ext/entrypoints/otclick-sync.content.ts and background.ts: the two hand-overs of one page load.
use otclick_hh.Common.{
  Bool, Bool-cases, Option, Text, [], ap, inl, inr, is_empty, none, not, refl, some, text_eq,
  text_eq_refl, true, ℕ, ◌&&◌, ◌++◌, ◌∷◌, ◌≡◌, ◌⊎◌,
}
use otclick_hh.Ext.Auth.{
  AuthService, SessionAnswer, StoredAuth, adopt_calls, adopted, given, persist_external_session,
  refused, stored_text, thrown,
}
use otclick_hh.Ext.SessionSync.{
  Decoders, Read, absent, hand_over, parse_session_from_cookies, read, sync_session, threw,
}
use otclick_hh.Ext.Background.{Background, Request, Response, adopt_reply, adopt_session, handle}

abbrev pub is_known : {J : Type 0} → Text → Background J → Bool
is_known access b =
    not (is_empty (stored_text b.stored.jwt)) && text_eq (stored_text b.stored.jwt) access

module _ {J : Type 0} (api_base app_base : Text) (fetch : Request J → Option (Response J)) where
  -- ADOPT_SESSION, as the content script sends it, when the services are `a`
  abbrev pub adopt : AuthService → Text → Text → Background J → Background J
  adopt a access refresh b = (handle a api_base app_base fetch (adopt_session access refresh) b).0

  abbrev stored_after : AuthService → Background J → StoredAuth × Option Text → Background J
  stored_after a b r = (adopt_reply a api_base app_base fetch b r).0

  adopted-stored :
      (a : AuthService) (access refresh : Text) (answer : SessionAnswer) (b : Background J)
      → ((stored_after a b (adopted access refresh answer b.stored)).stored ≡ b.stored)
        ⊎ (stored_text (stored_after a b (adopted access refresh answer b.stored)).stored.jwt
            ≡ access)
  adopted-stored a access refresh thrown b = inl refl
  adopted-stored a access refresh refused b = inl refl
  adopted-stored a access refresh (given session none) b = inl refl
  adopted-stored a access refresh (given session (some email)) b = inr refl

  adopt_known :
      (a : AuthService) (access refresh : Text) (b : Background J)
      → is_known access b ≡ true
      → adopt a access refresh b ≡ b
  unfolding handle
  adopt_known a access refresh b h = rw (h, adopt) refl

  is_known-same :
      (c : ℕ) (access : Text) (b : Background J)
      → stored_text b.stored.jwt ≡ c ∷ access
      → is_known (c ∷ access) b ≡ true
  is_known-same c access b h = rw (h, text_eq_refl (c ∷ access)) refl

  stored_after-cases :
      (a : AuthService) (access refresh : Text) (b : Background J)
      → let c = stored_after a b (persist_external_session a access refresh b.stored) in
        (c.stored ≡ b.stored) ⊎ (is_known access c ≡ true)
  unfolding persist_external_session
  stored_after-cases a [] refresh b = inl refl
  stored_after-cases a (c ∷ access) [] b = inl refl
  stored_after-cases a (c ∷ access) (e ∷ refresh) b =
      let answer = a.set_session (c ∷ access) (e ∷ refresh) in
      elim (adopted-stored a (c ∷ access) (e ∷ refresh) answer b) [
        | inl same ↦ inl same
        | inr now ↦ inr (
            is_known-same c access
              (stored_after a b (adopted (c ∷ access) (e ∷ refresh) answer b.stored)) now)
      ]

  adopt-cases :
      (a : AuthService) (access refresh : Text) (b : Background J)
      → ((adopt a access refresh b).stored ≡ b.stored)
        ⊎ (is_known access (adopt a access refresh b) ≡ true)
  unfolding handle
  adopt-cases a access refresh b = elim (Bool-cases (is_known access b)) [
    | inl e ↦ inl (ap (λ c. c.stored) (adopt_known a access refresh b e))
    | inr e ↦
        rw (e, adopt)
          (stored_after-cases a access refresh
            (record b { sessions = adopt_calls access refresh ++ b.sessions }))
  ]

  hand_over-settled :
      (a later : AuthService) (found : Read (Text × Text)) (b : Background J)
      → ((hand_over (adopt a) found b).stored ≡ b.stored)
        ⊎ (hand_over (adopt later) found (hand_over (adopt a) found b)
            ≡ hand_over (adopt a) found b)
  hand_over-settled a later threw b = inl refl
  hand_over-settled a later absent b = inl refl
  hand_over-settled a later (read (access, refresh)) b = elim (adopt-cases a access refresh b) [
    | inl e ↦ inl e
    | inr e ↦ inr (adopt_known later access refresh (adopt a access refresh b) e)
  ]

  -- Where handing over the cookies of a page has changed the stored session, handing over the same
  -- cookies once more, as the timer does, leaves the background script as it is, whatever the
  -- authentication service would answer by then: no request goes to it or to the backend.
  pub sync_session_idem :
      (a later : AuthService) (t : Decoders) (cookies : Text) (b : Background J)
      → ((sync_session t (adopt a) cookies b).stored ≡ b.stored)
        ⊎ (sync_session t (adopt later) cookies (sync_session t (adopt a) cookies b)
            ≡ sync_session t (adopt a) cookies b)
  unfolding sync_session
  sync_session_idem a later t cookies b =
      hand_over-settled a later (parse_session_from_cookies t cookies) b
