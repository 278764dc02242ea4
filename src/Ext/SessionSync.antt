-- ===== src/Ext/SessionSync.antt =====
-- ext/lib/session-sync.ts and ext/entrypoints/otclick-sync.content.ts: the session of the web app,
-- read from its cookies and handed to the background script.
pub mod Jar
pub mod Chunks
pub mod Twice
use otclick_hh.Common.{
  Bool, List, Option, Text, [], codes, drop, ends_line, eqb, false, head, if◌then◌else◌, is_digit,
  is_empty, is_word, join, keep, length, map, none, not, show_nat, some, split_on, starts_with, suc,
  text_eq, trim, true, zero, ℕ, ◌&&◌, ◌++◌, ◌||◌, ◌∷◌,
}

-- The platform's decoders, `none` where they throw, and its JSON.
pub record Decoders : Type 1 where
  pub J : Type 0
  pub decode_uri_component : Text → Option Text
  -- `atob`, then the bytes as UTF-8
  pub base64_utf8 : Text → Option Text
  pub json_parse : Text → Option J
  pub as_array : J → Option (List J)
  pub as_string : J → Option Text
  -- `v?.key`, `none` for undefined
  pub member : J → Text → Option J

-- `b64DecodeUtf8`
unfoldable pub b64_decode_utf8 : Decoders → Text → Option Text
b64_decode_utf8 t s =
    t.base64_utf8 (map (λ c. if eqb c b'-' then b'+' else if eqb c b'_' then b'/' else c) s)

-- `Map.set`: a key keeps its place
unfoldable pub jar_set : Text → Text → List (Text × Text) → List (Text × Text)
jar_set k v [] = (k, v) ∷ []
jar_set k v ((j, u) ∷ jar) =
    let rest = jar_set k v jar in if text_eq j k then (j, v) ∷ jar else (j, u) ∷ rest

-- `Map.get`
unfoldable pub jar_get : Text → List (Text × Text) → Option Text
jar_get k [] = none
jar_get k ((j, u) ∷ jar) = let rest = jar_get k jar in if text_eq j k then some u else rest

-- the text up to the first code `c`, and what follows it, `none` where there is none
unfoldable pub cut : ℕ → Text → Text × Option Text
cut c [] = ([], none)
cut c (x ∷ s) =
    let (before, after) = cut c s in if eqb x c then ([], some s) else (x ∷ before, after)

-- one `part` of the loop
abbrev pub add_part : Text × Option Text → List (Text × Text) → List (Text × Text)
add_part (part, none) jar = jar
add_part (name, some value) jar = jar_set (trim name) (trim value) jar

unfoldable pub add_parts : List Text → List (Text × Text) → List (Text × Text)
unfolding cut
add_parts [] jar = jar
add_parts (part ∷ parts) jar = add_parts parts (add_part (cut b'=' part) jar)

-- `parseCookieJar`
unfoldable pub parse_cookie_jar : Text → List (Text × Text)
unfolding add_parts split_on
parse_cookie_jar s = add_parts (split_on b';' s) []

unfoldable pub all_digits : Text → Bool
all_digits [] = true
all_digits (c ∷ s) = is_digit c && all_digits s

-- `replace(/\.\d+$/, "")`
unfoldable pub without_index : Text → Text
unfolding all_digits
without_index [] = []
without_index (c ∷ s) =
    let rest = without_index s in
    if eqb c b'.' && (not (is_empty s) && all_digits s) then [] else c ∷ rest

-- `.+-auth-token` from here to the end
unfoldable pub is_auth_rest : Text → Bool
is_auth_rest [] = false
is_auth_rest (c ∷ s) = not (ends_line c) && (is_word s "-auth-token" || is_auth_rest s)

-- `AUTH_COOKIE_RE.test`; what stands before an index does not end with one
unfoldable pub is_auth_cookie : Text → Bool
unfolding without_index is_auth_rest starts_with
is_auth_cookie n =
    let base = without_index n in starts_with base (codes "sb-") && is_auth_rest (drop 3 base)

abbrev pub chunk_name : Text → ℕ → Text
chunk_name base i = base ++ codes "." ++ show_nat i

-- the loop that collects the chunks from the `i`th on; `fuel` bounds its rounds
unfoldable pub chunks_from : ℕ → List (Text × Text) → Text → ℕ → List Text
chunks_from zero jar base i = []
chunks_from (suc fuel) jar base i =
    let rest = chunks_from fuel jar base (suc i) in
    elim (jar_get (chunk_name base i) jar) [ none ↦ [] | some v ↦ v ∷ rest ]

-- What is read: an exception, nothing, or a value.
pub data Read (A : Type 0) : Type 0 where
  threw absent : Read A
  read : A → Read A

abbrev pub decoded : Decoders → Text → Read Text
decoded t s = elim (t.decode_uri_component s) [ none ↦ threw | some v ↦ read v ]

abbrev pub of_chunks : Decoders → List Text → Read Text
of_chunks t [] = absent
of_chunks t (c ∷ cs) = decoded t (join [] (c ∷ cs))

unfoldable pub raw_of : Decoders → List (Text × Text) → Text → Read Text
raw_of t jar base = elim (jar_get base jar) [
  | some v ↦ decoded t v
  | none ↦ of_chunks t (chunks_from (suc (length jar)) jar base 0)
]

abbrev pub raw_by_name : Decoders → List (Text × Text) → Option (Text × Text) → Read Text
raw_by_name t jar none = absent
raw_by_name t jar (some (name, value)) = raw_of t jar (without_index name)

-- `readRawValue`
unfoldable pub read_raw_value : Decoders → List (Text × Text) → Read Text
unfolding is_auth_cookie raw_of
read_raw_value t jar = raw_by_name t jar (head (keep (λ c. is_auth_cookie c.0) jar))

abbrev base64_mark : Text
base64_mark = codes "base64-"

-- `session?.[key]` where it is a string
abbrev pub token_of : (t : Decoders) → Option t.J → Text → Option Text
token_of t none key = none
token_of t (some v) key = elim (t.member v key) [ none ↦ none | some m ↦ t.as_string m ]

abbrev pub both : Option Text → Option Text → Read (Text × Text)
both (some a) (some r) = read (a, r)
both _ _ = absent

abbrev pub session_of : (t : Decoders) → t.J → Read (Text × Text)
session_of t parsed =
    let session : Option t.J = elim (t.as_array parsed) [
      | none ↦ some parsed
      | some vs ↦ head vs
    ] in
    both (token_of t session (codes "access_token")) (token_of t session (codes "refresh_token"))

-- the `try` block, an exception in which gives null
abbrev pub tokens_of : Decoders → Text → Read (Text × Text)
tokens_of t raw =
    let json : Option Text =
      if starts_with raw base64_mark
      then b64_decode_utf8 t (drop (length base64_mark) raw)
      else some raw in
    elim json [
      | none ↦ absent
      | some s ↦ elim (t.json_parse s) [ none ↦ absent | some parsed ↦ session_of t parsed ]
    ]

abbrev pub parse_raw : Decoders → Read Text → Read (Text × Text)
parse_raw t threw = threw
parse_raw t absent = absent
parse_raw t (read []) = absent
parse_raw t (read (c ∷ s)) = tokens_of t (c ∷ s)

-- `parseSessionFromCookies`
unfoldable pub parse_session_from_cookies : Decoders → Text → Read (Text × Text)
unfolding parse_cookie_jar read_raw_value
parse_session_from_cookies t cookies = parse_raw t (read_raw_value t (parse_cookie_jar cookies))

-- `send` hands a message to the background script.
abbrev pub hand_over : {B : Type 0} → (Text → Text → B → B) → Read (Text × Text) → B → B
hand_over send threw b = b
hand_over send absent b = b
hand_over send (read (access, refresh)) b = send access refresh b

-- `syncSession`, on the cookies of the page
unfoldable pub sync_session : {B : Type 0} → Decoders → (Text → Text → B → B) → Text → B → B
unfolding parse_session_from_cookies
sync_session t send cookies b = hand_over send (parse_session_from_cookies t cookies) b
