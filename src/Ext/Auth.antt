-- ===== src/Ext/Auth.antt =====
-- ext/lib/auth.ts: the session of the extension, in its local storage.
pub mod Tokens
use otclick_hh.Common.{
  Bool, List, Option, Text, [], false, if◌then◌else◌, is_empty, ltb, none, not, or_else, some, true,
  ℕ, ◌*◌, ◌+◌, ◌||◌, ◌∷◌,
}

-- `browser.storage.local`, a missing key being `none`
pub record StoredAuth : Type 0 where
  pub jwt : Option Text
  pub refresh_token : Option Text
  pub email : Option Text

abbrev pub signed_out : StoredAuth
signed_out = record { jwt = none; refresh_token = none; email = none }

pub record Session : Type 0 where
  pub access_token : Text
  pub refresh_token : Text

-- What `auth.setSession` gives: an error, or data, with the user's e-mail where there is a user.
pub data SessionAnswer : Type 0 where
  thrown refused : SessionAnswer
  given : Option Session → Option (Option Text) → SessionAnswer

-- The world of the module during one call: the clock in milliseconds, the payload of a token (`none`
-- where decoding it throws; `exp` is `none` where it has none), and the authentication service.
pub record AuthService : Type 0 where
  pub now : ℕ
  pub payload : Text → Option (Option ℕ)
  pub set_session : Text → Text → SessionAnswer

-- the string read under a key, a missing one being as good as an empty one in a test
abbrev pub stored_text : Option Text → Text
stored_text o = or_else o []

abbrev pub persist_session : Text → Text → Text → StoredAuth
persist_session jwt refresh_token email = record {
  jwt = some jwt;
  refresh_token = some refresh_token;
  email = some email;
}

abbrev pub expires_at : ℕ → Option (Option ℕ) → Bool
expires_at now none = true
expires_at now (some none) = false
expires_at now (some (some exp)) = ltb (exp * 1000) (now + 60000)

-- `Date.now() / 1000 > payload.exp - 60`, in milliseconds
unfoldable pub is_expiring_soon : AuthService → Text → Bool
is_expiring_soon a jwt = expires_at a.now (a.payload jwt)

abbrev pub refreshed : SessionAnswer → StoredAuth → StoredAuth × Option Text
refreshed (given (some session) user) s = (
  persist_session session.access_token session.refresh_token (stored_text s.email),
  some session.access_token,
)
refreshed _ s = (signed_out, none)

-- `getValidJwt`: the storage after it, and the token
unfoldable pub get_valid_jwt : AuthService → StoredAuth → StoredAuth × Option Text
get_valid_jwt a s =
    let jwt = stored_text s.jwt in
    let refresh_token = stored_text s.refresh_token in
    if is_empty jwt
    then (s, none)
    else if not (is_expiring_soon a jwt)
    then (s, some jwt)
    else if is_empty refresh_token
    then (signed_out, none)
    else refreshed (a.set_session jwt refresh_token) s

abbrev pub adopted : Text → Text → SessionAnswer → StoredAuth → StoredAuth × Option Text
adopted access refresh (given session (some email)) s =
    (persist_session access refresh (stored_text email), some (stored_text email))
adopted access refresh _ s = (s, none)

-- `persistExternalSession`: the storage after it and the e-mail, `none` where it throws
unfoldable pub persist_external_session :
    AuthService → Text → Text → StoredAuth → StoredAuth × Option Text
persist_external_session a access refresh s =
    if is_empty access || is_empty refresh
    then (s, none)
    else adopted access refresh (a.set_session access refresh) s

-- the calls of `auth.setSession` that the two make, with their access and refresh tokens
unfoldable pub refresh_calls : AuthService → StoredAuth → List (Text × Text)
refresh_calls a s =
    let jwt = stored_text s.jwt in
    let refresh_token = stored_text s.refresh_token in
    if is_empty jwt || not (is_expiring_soon a jwt) || is_empty refresh_token
    then []
    else (jwt, refresh_token) ∷ []

unfoldable pub adopt_calls : Text → Text → List (Text × Text)
adopt_calls access refresh =
    if is_empty access || is_empty refresh then [] else (access, refresh) ∷ []
