-- ===== src/Ext/Background/SignedOut.antt =====
-- ext/entrypoints/background.ts: what a sign-out puts an end to.
use otclick_hh.Common.{List, Option, Text, [], ◌∷◌, ◌≡◌}
use otclick_hh.Ext.Auth.{AuthService, signed_out}
use otclick_hh.Ext.Background.{Background, Msg, Request, Response, adopt_session, handle}

abbrev pub IsOther : {J : Type 0} → Msg J → Type 0
IsOther (adopt_session access refresh) = ⊥
IsOther _ = Unit

-- Nothing was sent with a token, and none is stored.
abbrev pub IsQuiet : {J : Type 0} → Background J → Background J → Type 0
IsQuiet b c = (c.stored ≡ signed_out) × (c.sent ≡ b.sent) × (c.sessions ≡ b.sessions)

module _ {J : Type 0} (api_base app_base : Text) (fetch : Request J → Option (Response J)) where
  -- messages one after the other, each at its own time
  abbrev pub handle_all : List (AuthService × Msg J) → Background J → Background J
  handle_all [] b = b
  handle_all ((a, m) ∷ ms) b = handle_all ms (handle a api_base app_base fetch m b).0
