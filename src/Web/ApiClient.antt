-- ===== src/Web/ApiClient.antt =====
-- frontend/src/lib/api.ts: the requests of the web application to the backend.
use otclick_hh.Common.{
  Bool, Bool-cases, List, Option, Option-cases, Text, [], arith, codes, false, if◌then◌else◌, inl,
  inr, keep, leb, ltb, none, not, refl, show_nat, some, sym, text_eq, true, ℕ, ◌&&◌, ◌++◌, ◌∷◌, ◌≡◌,
  ◌≢◌, ◌⊎◌,
}

-- The JSON of the platform: `JSON.parse`, none where it throws, a member of a value, none where it
-- is missing or falsy, a string, and `JSON.stringify`.
pub record Json : Type 1 where
  pub J : Type 0
  pub null : J
  pub parse : Text → Option J
  pub member : J → Text → Option J
  pub as_string : J → Option Text
  pub stringify : J → Text

-- A request: its address, its headers by name, and the body of `init`.
pub record Request (B : Type 0) : Type 0 where
  pub url : Text
  pub headers : List (Text × Text)
  pub init : B

pub record Response : Type 0 where
  pub status : ℕ
  -- none where `res.text()` is rejected
  pub text : Option Text

-- The outcome of `apiFetch`: data, an `ApiError` with its message and status, the exception of
-- `fetch` or of `res.text()`, or that of the JSON.
pub data Outcome (J : Type 0) : Type 0 where
  data_of : J → Outcome J
  api_error : Text → ℕ → Outcome J
  network_error syntax_error : Outcome J

-- `res.ok`
abbrev pub is_ok : ℕ → Bool
is_ok status = leb 200 status && ltb status 300

-- `Headers.set`, on names in lower case
unfoldable pub set_header : Text → Text → List (Text × Text) → List (Text × Text)
set_header name value headers = keep (λ h. not (text_eq h.0 name)) headers ++ (name, value) ∷ []

abbrev authorized : Option Text → List (Text × Text) → List (Text × Text)
authorized none headers = headers
authorized (some []) headers = headers
authorized (some (c ∷ token)) headers =
    set_header (codes "authorization") (codes "Bearer " ++ c ∷ token) headers

-- the request that is made; `token` is that of the session
unfoldable pub request_of :
    {B : Type 0} → Text → Option Text → Text → List (Text × Text) → B → Request B
unfolding set_header
request_of api_url token path headers init = record {
  url = api_url ++ path;
  headers = authorized token (set_header (codes "content-type") (codes "application/json") headers);
  init = init;
}

module _ (t : Json) where
  open t use {J, null, parse, member, as_string, stringify}

  abbrev parsed : Text → Option J
  parsed [] = some null
  parsed (c ∷ s) = parse (c ∷ s)

  abbrev first_of : Option J → Option J → Option J
  first_of (some v) w = some v
  first_of none w = w

  -- `data.detail || data.message`
  abbrev said : J → Option J
  said v = first_of (member v (codes "detail")) (member v (codes "message"))

  abbrev shown_as : J → Option Text → Text
  shown_as v none = stringify v
  shown_as v (some s) = s

  abbrev message_text : J → Text
  message_text v = shown_as v (as_string v)

  abbrev message_of : ℕ → Option J → Text
  message_of status none = codes "HTTP " ++ show_nat status
  message_of status (some v) = message_text v

  abbrev outcome_of : ℕ → Option J → Outcome J
  outcome_of status none = syntax_error
  outcome_of status (some v) =
      if is_ok status then data_of v else api_error (message_of status (said v)) status

  abbrev outcome_of_text : ℕ → Option Text → Outcome J
  outcome_of_text status none = network_error
  outcome_of_text status (some text) = outcome_of status (parsed text)

  -- `apiFetch` after its request, none where no answer came
  unfoldable pub api_fetch : Option Response → Outcome J
  api_fetch none = network_error
  api_fetch (some res) = outcome_of_text res.status res.text

  -- The text is the JSON of a value, null being that of the empty one.
  abbrev pub IsJson : Text → J → Type 0
  IsJson text v = ((text ≡ []) × (v ≡ null)) ⊎ ((text ≢ []) × (parse text ≡ some v))

  -- The message for the JSON of an error: its member `detail`, else its member `message`, as a string
  -- or as JSON, else the status.
  abbrev pub IsText : J → Text → Type 0
  IsText m message = (as_string m ≡ some message) ⊎ (as_string m ≡ none) × (message ≡ stringify m)

  abbrev pub IsMessage : ℕ → J → Text → Type 0
  IsMessage status v message =
      ((m : J) × (member v (codes "detail") ≡ some m) × IsText m message)
      ⊎ ((member v (codes "detail") ≡ none)
          × ((m : J) × (member v (codes "message") ≡ some m) × IsText m message))
      ⊎ (member v (codes "detail") ≡ none)
        × (member v (codes "message") ≡ none)
        × (message ≡ codes "HTTP " ++ show_nat status)

  abbrev pub Tells : Option Response → Outcome J → Type 0
  Tells none outcome = outcome ≡ network_error
  Tells (some res) (data_of v) =
      (is_ok res.status ≡ true) × ((text : Text) × (res.text ≡ some text) × IsJson text v)
  Tells (some res) (api_error message status) =
      (is_ok res.status ≡ false)
      × (status ≡ res.status)
      × ((text : Text) × (v : J) × (res.text ≡ some text)
          × IsJson text v
          × IsMessage status v message)
  Tells (some res) network_error = res.text ≡ none
  Tells (some res) syntax_error =
      (text : Text) × (res.text ≡ some text) × (text ≢ []) × (parse text ≡ none)

  parsed-IsJson : (text : Text) (v : J) → parsed text ≡ some v → IsJson text v
  parsed-IsJson [] v h = inl (refl, sym (ground (arith, h)))
  parsed-IsJson (c ∷ s) v h = inr ((λ e. cc), h)

  parsed-none : (text : Text) → parsed text ≡ none → (text ≢ []) × (parse text ≡ none)
  parsed-none [] h = let no : ⊥ = ground arith in elim no [ ]
  parsed-none (c ∷ s) h = ((λ e. cc), h)

  shown_as-IsText : (m : J) (o : Option Text) → as_string m ≡ o → IsText m (shown_as m o)
  shown_as-IsText m none h = inr (h, refl)
  shown_as-IsText m (some s) h = inl h

  message_text-IsText : (m : J) → IsText m (message_text m)
  message_text-IsText m = shown_as-IsText m (as_string m) refl

  message_of-IsMessage : (status : ℕ) (v : J) → IsMessage status v (message_of status (said v))
  message_of-IsMessage status v = elim (Option-cases (member v (codes "detail"))) [
    | inr (m, e) ↦ rw e (inl (m, refl, message_text-IsText m))
    | inl e ↦ elim (Option-cases (member v (codes "message"))) [
      | inr (m, f) ↦ rw (e, f) (inr (inl (refl, (m, refl, message_text-IsText m))))
      | inl f ↦ rw (e, f) (inr (inr (refl, refl, refl)))
    ]
  ]

  outcome_of_text-Tells :
      (status : ℕ) (text : Option Text)
      → Tells (some (record { status = status; text = text })) (outcome_of_text status text)
  outcome_of_text-Tells status none = refl
  outcome_of_text-Tells status (some text) = elim (Option-cases (parsed text)) [
    | inl e ↦ let (full, bad) = parsed-none text e in rw e (text, refl, full, bad)
    | inr (v, e) ↦ elim (Bool-cases (is_ok status)) [
      | inl f ↦ rw (e, f) (f, (text, refl, parsed-IsJson text v e))
      | inr f ↦
          rw (e, f)
            (f, refl, (text, v, refl, parsed-IsJson text v e, message_of-IsMessage status v))
    ]
  ]

  -- Every request has one of four outcomes: of an answer whose status is a success, the value that
  -- its text is the JSON of; of any other answer, an error with its status and the message of its
  -- JSON; a syntax error, of a text that is no JSON; and a network error, where no answer came or its
  -- text could not be read.
  pub api_fetch-Tells : (answer : Option Response) → Tells answer (api_fetch answer)
  unfolding api_fetch
  api_fetch-Tells none = refl
  api_fetch-Tells (some res) = outcome_of_text-Tells res.status res.text
