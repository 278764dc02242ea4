-- ===== src/Web/Middleware.antt =====
-- frontend/src/lib/supabase/middleware.ts: where a request is sent, with or without a user.
use otclick_hh.Common.{
  Bool, Bool-cases, Option, Text, arith, codes, false, if◌then◌else◌, inl, inr, is_word, none, not,
  refl, some, starts_with, suc, text_eq→eq, true, zero, ℕ, ◌&&◌, ◌||◌, ◌∙◌, ◌≡◌,
}

pub data Outcome : Type 0 where
  proceed : Outcome
  redirect : Text → Outcome

unfoldable pub is_public : Text → Bool
is_public path = is_word path "/" || starts_with path (codes "/auth")

abbrev pub is_moved : Text → Bool
is_moved path = is_word path "/login" || is_word path "/signup" || is_word path "/filters"

-- `updateSession` after `getUser`, `user` being whether there is one. Only the path of the
-- request is changed by a redirect.
unfoldable pub update_session : Bool → Text → Outcome
update_session user path =
    if is_moved path
    then redirect (if is_word path "/filters" then codes "/dashboard" else codes "/auth")
    else if not user && not (is_public path)
    then redirect (codes "/auth")
    else if user && is_word path "/auth"
    then redirect (codes "/dashboard")
    else proceed

-- The path a browser ends at that follows at most n redirects, `none` if it is redirected again.
abbrev settled : Text → Outcome → Option Text → Option Text
settled path proceed next = some path
settled path (redirect to) next = next

abbrev target : Text → Outcome → Text
target path proceed = path
target path (redirect to) = to

unfoldable pub follow : Bool → ℕ → Text → Option Text
follow user zero path = settled path (update_session user path) none
follow user (suc n) path =
    let o = update_session user path in settled path o (follow user n (target path o))

-- Where a browser is to end: a signed-out one on the page if it is public and else at the
-- sign-in page; a signed-in one on the page, or on the dashboard for a page that has moved and
-- for the sign-in page.
unfoldable pub destination : Bool → Text → Text
destination false path = if is_public path then path else codes "/auth"
destination true path = if is_moved path || is_word path "/auth" then codes "/dashboard" else path

session_at_auth : update_session false (codes "/auth") ≡ proceed
unfolding update_session is_public starts_with
session_at_auth = refl

session_at_dashboard : update_session true (codes "/dashboard") ≡ proceed
unfolding update_session is_public starts_with
session_at_dashboard = refl

no_session_at_dashboard : update_session false (codes "/dashboard") ≡ redirect (codes "/auth")
unfolding update_session is_public starts_with
no_session_at_dashboard = refl

auth_with_session : update_session true (codes "/auth") ≡ redirect (codes "/dashboard")
unfolding update_session is_public starts_with
auth_with_session = refl

moved-is_public : (path : Text) → is_moved path ≡ true → is_public path ≡ false
unfolding is_public starts_with
moved-is_public path h = elim (Bool-cases (is_word path "/login")) [
  | inl e ↦ rw (text_eq→eq path (codes "/login") e) refl
  | inr e ↦ elim (Bool-cases (is_word path "/signup")) [
    | inl e' ↦ rw (text_eq→eq path (codes "/signup") e') refl
    | inr e' ↦ rw (text_eq→eq path (codes "/filters") (ground arith)) refl
  ]
]

follow-proceed :
    (user : Bool) (n : ℕ) (path : Text)
    → update_session user path ≡ proceed
    → follow user n path ≡ some path
unfolding follow
follow-proceed user zero path e = rw e refl
follow-proceed user (suc n) path e = rw e refl

follow-redirect :
    (user : Bool) (n : ℕ) (path to : Text)
    → update_session user path ≡ redirect to
    → follow user (suc n) path ≡ follow user n to
unfolding follow
follow-redirect user n path to e = rw e refl

-- A signed-out browser is served only pages that are public and have not moved.
pub update_session-guards :
    (path : Text)
    → update_session false path ≡ proceed
    → (is_public path ≡ true) × (is_moved path ≡ false)
unfolding update_session
update_session-guards path h = ground arith

to_auth :
    (n : ℕ) (path : Text)
    → update_session false path ≡ redirect (codes "/auth")
    → follow false (suc n) path ≡ some (codes "/auth")
to_auth n path e =
    follow-redirect false n path (codes "/auth") e
    ∙ follow-proceed false n (codes "/auth") session_at_auth

to_dashboard :
    (n : ℕ) (path : Text)
    → update_session true path ≡ redirect (codes "/dashboard")
    → follow true (suc n) path ≡ some (codes "/dashboard")
to_dashboard n path e =
    follow-redirect true n path (codes "/dashboard") e
    ∙ follow-proceed true n (codes "/dashboard") session_at_dashboard

moved_outcome :
    (user : Bool) (path : Text)
    → is_moved path ≡ true
    → update_session user path
      ≡ redirect (if is_word path "/filters" then codes "/dashboard" else codes "/auth")
unfolding update_session
moved_outcome user path m = rw m refl

follow_moved :
    (user : Bool) (path : Text)
    → is_moved path ≡ true
    → follow user 2 path ≡ some (if user then codes "/dashboard" else codes "/auth")
follow_moved false path m = elim (Bool-cases (is_word path "/filters")) [
  | inl e ↦
      follow-redirect false 1 path (codes "/dashboard") (rw (moved_outcome false path m, e) refl)
      ∙ to_auth 0 (codes "/dashboard") no_session_at_dashboard
  | inr e ↦ to_auth 1 path (rw (moved_outcome false path m, e) refl)
]
follow_moved true path m = elim (Bool-cases (is_word path "/filters")) [
  | inl e ↦ to_dashboard 1 path (rw (moved_outcome true path m, e) refl)
  | inr e ↦
      follow-redirect true 1 path (codes "/auth") (rw (moved_outcome true path m, e) refl)
      ∙ to_dashboard 0 (codes "/auth") auth_with_session
]

follow_signed_out : (path : Text) → follow false 2 path ≡ some (destination false path)
unfolding update_session destination
follow_signed_out path = elim (Bool-cases (is_moved path)) [
  | inl m ↦ rw (moved-is_public path m) (follow_moved false path m)
  | inr m ↦ elim (Bool-cases (is_public path)) [
    | inl e ↦ rw e (follow-proceed false 2 path (rw (m, e) refl))
    | inr e ↦ rw e (to_auth 1 path (rw (m, e) refl))
  ]
]

follow_signed_in : (path : Text) → follow true 2 path ≡ some (destination true path)
unfolding update_session destination
follow_signed_in path = elim (Bool-cases (is_moved path)) [
  | inl m ↦ rw m (follow_moved true path m)
  | inr m ↦ elim (Bool-cases (is_word path "/auth")) [
    | inl e ↦ rw (m, e) (to_dashboard 1 path (rw (m, e) refl))
    | inr e ↦ rw (m, e) (follow-proceed true 2 path (rw (m, e) refl))
  ]
]

-- For every user and path the chain of redirects ends, after two of them at most, and at the
-- page of the access rules: never at a protected page for a signed-out browser.
pub follow-destination :
    (user : Bool) (path : Text) → follow user 2 path ≡ some (destination user path)
follow-destination true path = follow_signed_in path
follow-destination false path = follow_signed_out path
