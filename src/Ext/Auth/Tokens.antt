-- ===== src/Ext/Auth/Tokens.antt =====
-- ext/lib/auth.ts: which token is given out, and what stays in the storage.
use otclick_hh.Common.{
  Bool-cases, Option, Text, [], arith, false, inl, inr, is_empty, is_empty-nil, none, refl, some,
  ◌≡◌, ◌⊎◌,
}
use otclick_hh.Ext.Auth.{
  AuthService, Session, SessionAnswer, StoredAuth, get_valid_jwt, given, is_expiring_soon,
  refreshed, refused, stored_text, thrown,
}

-- A token that may be used: one that the clock allows, or one that the service has just given.
abbrev pub IsUsable : AuthService → StoredAuth → Text → Type 0
IsUsable a s token =
    (is_expiring_soon a token ≡ false)
    ⊎ ((session : Session) × (user : Option (Option Text)) × (a.set_session (stored_text s.jwt)
            (stored_text s.refresh_token)
          ≡ given (some session) user)
        × (session.access_token ≡ token))

-- What the storage holds after a token was given out or not.
abbrev pub Agrees : AuthService → StoredAuth → StoredAuth × Option Text → Type 0
Agrees a s (t, some token) = (t.jwt ≡ some token) × IsUsable a s token
Agrees a s (t, none) = stored_text t.jwt ≡ []

refreshed-Agrees :
    (a : AuthService) (s : StoredAuth) (r : SessionAnswer)
    → a.set_session (stored_text s.jwt) (stored_text s.refresh_token) ≡ r
    → Agrees a s (refreshed r s)
refreshed-Agrees a s thrown e = refl
refreshed-Agrees a s refused e = refl
refreshed-Agrees a s (given none user) e = refl
refreshed-Agrees a s (given (some session) user) e = (refl, inr (session, user, e, refl))

stored-some : (o : Option Text) → is_empty (stored_text o) ≡ false → o ≡ some (stored_text o)
stored-some none full = ground arith
stored-some (some jwt) full = refl

stored-Agrees :
    (a : AuthService) (s : StoredAuth)
    → is_empty (stored_text s.jwt) ≡ false
    → is_expiring_soon a (stored_text s.jwt) ≡ false
    → Agrees a s (s, some (stored_text s.jwt))
stored-Agrees a s full fresh = (stored-some s.jwt full, inl fresh)

-- `getValidJwt` gives out only a token that does not expire within a minute or that the service
-- has just issued, and it is the token in the storage; where it gives none, none is left there.
pub get_valid_jwt-Agrees : (a : AuthService) (s : StoredAuth) → Agrees a s (get_valid_jwt a s)
unfolding get_valid_jwt
get_valid_jwt-Agrees a s = elim (Bool-cases (is_empty (stored_text s.jwt))) [
  | inl e ↦ rw e (is_empty-nil (stored_text s.jwt) e)
  | inr full ↦ elim (Bool-cases (is_expiring_soon a (stored_text s.jwt))) [
    | inl old ↦ elim (Bool-cases (is_empty (stored_text s.refresh_token))) [
      | inl e ↦ rw (full, old, e) refl
      | inr e ↦ rw (full, old, e) (refreshed-Agrees a s _ refl)
    ]
    | inr fresh ↦ rw (full, fresh) (stored-Agrees a s full fresh)
  ]
]
