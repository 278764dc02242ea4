-- ===== src/Ext/SessionSync/Jar.antt =====
-- ext/lib/session-sync.ts, `parseCookieJar`: cookies as the browser writes them.
use otclick_hh.Common.{
  All, All-append, Bool-cases, List, Text, [], ap, append-nil, append_assoc, arith, codes, eqb,
  false, inl, inr, is_space, map, none, refl, some, split_on, sym, text_eq, trim, trim_start, true,
  ℕ, ◌++◌, ◌∙◌, ◌∷◌, ◌≡◌,
}
use otclick_hh.Ext.SessionSync.{add_part, add_parts, cut, jar_get, jar_set, parse_cookie_jar}

abbrev pub Lacks : ℕ → Text → Type 0
Lacks c s = All (λ x. eqb x c ≡ false) s

-- A cookie: no semicolon and no white space around its name and its value, no "=" in its name.
abbrev pub IsCookie : Text × Text → Type 0
IsCookie (name, value) =
    Lacks b';' name × Lacks b'=' name × Lacks b';' value × (trim name ≡ name) × (trim value ≡ value)

abbrev pub IsDistinct : List (Text × Text) → Type 0
IsDistinct [] = Unit
IsDistinct ((k, v) ∷ jar) = All (λ c. text_eq k c.0 ≡ false) jar × IsDistinct jar

abbrev pub shown : Text × Text → Text
shown (name, value) = name ++ b'=' ∷ value

abbrev more_cookies : List (Text × Text) → Text
more_cookies [] = []
more_cookies (c ∷ jar) = codes "; " ++ shown c ++ more_cookies jar

-- `document.cookie`
abbrev pub cookie_text : List (Text × Text) → Text
cookie_text [] = []
cookie_text (c ∷ jar) = shown c ++ more_cookies jar

abbrev spaced : Text × Text → Text
spaced c = 32 ∷ shown c

split_on_part :
    (c : ℕ) (part rest : Text)
    → Lacks c part
    → split_on c (part ++ c ∷ rest) ≡ part ∷ split_on c rest
unfolding split_on
split_on_part c [] rest h = let same : eqb c c ≡ true = ground arith in rw same refl
split_on_part c (x ∷ part) rest (e, h) = rw (e, split_on_part c part rest h) refl

split_on_last : (c : ℕ) (part : Text) → Lacks c part → split_on c part ≡ part ∷ []
unfolding split_on
split_on_last c [] h = refl
split_on_last c (x ∷ part) (e, h) = rw (e, split_on_last c part h) refl

cut_at : (c : ℕ) (s t : Text) → Lacks c s → cut c (s ++ c ∷ t) ≡ (s, some t)
unfolding cut
cut_at c [] t h = let same : eqb c c ≡ true = ground arith in rw same refl
cut_at c (x ∷ s) t (e, h) = rw (e, cut_at c s t h) refl

shown-Lacks : (c : Text × Text) → IsCookie c → Lacks b';' (shown c)
shown-Lacks (name, value) (a, b, d, e, f) =
    All-append (λ x. eqb x b';' ≡ false) name (b'=' ∷ value) a (ground arith, d)

split_on_more :
    (part : Text) (jar : List (Text × Text))
    → Lacks b';' part
    → All IsCookie jar
    → split_on b';' (part ++ more_cookies jar) ≡ part ∷ map spaced jar
split_on_more part [] h k = rw (append-nil part) (split_on_last b';' part h)
split_on_more part (c ∷ jar) h (k, ks) =
    split_on_part b';' part (32 ∷ (shown c ++ more_cookies jar)) h
    ∙ ap (λ ps. part ∷ ps) (split_on_more (32 ∷ shown c) jar (ground arith, shown-Lacks c k) ks)

split_on-cookie_text :
    (c : Text × Text) (jar : List (Text × Text))
    → IsCookie c
    → All IsCookie jar
    → split_on b';' (cookie_text (c ∷ jar)) ≡ shown c ∷ map spaced jar
split_on-cookie_text c jar h k = split_on_more (shown c) jar (shown-Lacks c h) k

jar_set_new :
    (k v : Text) (jar : List (Text × Text))
    → jar_get k jar ≡ none
    → jar_set k v jar ≡ jar ++ (k, v) ∷ []
unfolding jar_set jar_get
jar_set_new k v [] h = refl
jar_set_new k v ((j, u) ∷ jar) h = elim (Bool-cases (text_eq j k)) [
  | inl e ↦ absurd_none (rw e at h)
  | inr e ↦ rw (e, jar_set_new k v jar (rw e at h)) refl
]
  where
    absurd_none : (some u ≡ none) → jar_set k v ((j, u) ∷ jar) ≡ (j, u) ∷ jar ++ (k, v) ∷ []
    absurd_none e = ground arith

jar_get_appended :
    (k j v : Text) (jar : List (Text × Text))
    → jar_get j jar ≡ none
    → text_eq k j ≡ false
    → jar_get j (jar ++ (k, v) ∷ []) ≡ none
unfolding jar_get
jar_get_appended k j v [] h e = rw e refl
jar_get_appended k j v ((i, u) ∷ jar) h e = elim (Bool-cases (text_eq i j)) [
  | inl a ↦ rw a (rw a at h)
  | inr a ↦ rw a (jar_get_appended k j v jar (rw a at h) e)
]

abbrev AreNew : List (Text × Text) → List (Text × Text) → Type 0
AreNew acc jar = All (λ c. jar_get c.0 acc ≡ none) jar

AreNew-next :
    (k v : Text) (acc jar : List (Text × Text))
    → AreNew acc jar
    → All (λ c. text_eq k c.0 ≡ false) jar
    → AreNew (acc ++ (k, v) ∷ []) jar
AreNew-next k v acc [] h d = tt
AreNew-next k v acc ((j, u) ∷ jar) (h, hs) (d, ds) =
    (jar_get_appended k j v acc h d, AreNew-next k v acc jar hs ds)

cut-shown : (c : Text × Text) → IsCookie c → cut b'=' (shown c) ≡ (c.0, some c.1)
cut-shown (name, value) (a, b, d, e, f) = cut_at b'=' name value b

add_part-shown :
    (c : Text × Text) (jar : List (Text × Text))
    → IsCookie c
    → add_part (cut b'=' (shown c)) jar ≡ jar_set c.0 c.1 jar
add_part-shown (name, value) jar h =
    let (a, b, d, e, f) = h in rw (cut-shown (name, value) h, e, f) refl

trim_space : (s : Text) → trim (32 ∷ s) ≡ trim s
unfolding trim trim_start is_space
trim_space s = refl

add_part-spaced :
    (c : Text × Text) (jar : List (Text × Text))
    → IsCookie c
    → add_part (cut b'=' (spaced c)) jar ≡ jar_set c.0 c.1 jar
unfolding cut
add_part-spaced (name, value) jar h =
    let (a, b, d, e, f) = h in rw (cut-shown (name, value) h, trim_space name, e, f) refl

add_parts-spaced :
    (jar acc : List (Text × Text))
    → All IsCookie jar
    → IsDistinct jar
    → AreNew acc jar
    → add_parts (map spaced jar) acc ≡ acc ++ jar
unfolding add_parts
add_parts-spaced [] acc h d n = sym (append-nil acc)
add_parts-spaced ((k, v) ∷ jar) acc (h, hs) (d, ds) (n, ns) =
    ap (add_parts (map spaced jar)) (add_part-spaced (k, v) acc h ∙ jar_set_new k v acc n)
    ∙ (add_parts-spaced jar (acc ++ (k, v) ∷ []) hs ds (AreNew-next k v acc jar ns d)
        ∙ append_assoc acc ((k, v) ∷ []) jar)

-- Cookies that the browser lists as `name=value; name=value`, with distinct names, no semicolon or
-- outer white space in them and no "=" in a name, are read back as they are and in their order.
pub parse_cookie_jar-cookie_text :
    (jar : List (Text × Text))
    → All IsCookie jar
    → IsDistinct jar
    → parse_cookie_jar (cookie_text jar) ≡ jar
unfolding parse_cookie_jar add_parts jar_get jar_set
parse_cookie_jar-cookie_text [] h d = refl
parse_cookie_jar-cookie_text ((k, v) ∷ jar) (h, hs) (d, ds) =
    rw (split_on-cookie_text (k, v) jar h hs) (
      ap (add_parts (map spaced jar)) (add_part-shown (k, v) [] h)
      ∙ add_parts-spaced jar ((k, v) ∷ []) hs ds (new jar d))
  where
    new : (cs : List (Text × Text)) → All (λ c. text_eq k c.0 ≡ false) cs → AreNew ((k, v) ∷ []) cs
    new [] e = tt
    new ((j, u) ∷ cs) (e, es) = (rw e refl, new cs es)
