-- ===== src/Ext/SessionSync/Chunks.antt =====
-- ext/lib/session-sync.ts, `readRawValue`: the loop over the chunks of a large session.
use mathlib.Core.List.{append_cancel_left}
use otclick_hh.Common.{
  Bool-cases, List, Option-cases, Text, [], ap, arith, codes, false, head, inl, inr, join, keep,
  length, length-keep, none, not, refl, show_nat, show_nat_injective, some, suc, sym, text_eq,
  text_eq→eq, zero, ℕ, ◌++◌, ◌<◌, ◌∙◌, ◌∷◌, ◌≡◌, ◌≤◌,
}
use otclick_hh.Ext.SessionSync.{
  Decoders, chunk_name, chunks_from, decoded, is_auth_cookie, jar_get, raw_by_name, raw_of,
  read_raw_value, without_index,
}

-- The rounds of `for (let i = 0; jar.has(name); i++)` from `i` on, and the chunks they collect.
pub data Collects (jar : List (Text × Text)) (base : Text) : ℕ → List Text → Type 0 where
  stop : (i : ℕ) → jar_get (chunk_name base i) jar ≡ none → Collects jar base i []
  round :
      (i : ℕ) (v : Text) (vs : List Text)
      → jar_get (chunk_name base i) jar ≡ some v
      → Collects jar base (suc i) vs
      → Collects jar base i (v ∷ vs)

-- the cookies under other names
abbrev without : Text → List (Text × Text) → List (Text × Text)
without k jar = keep (λ c. not (text_eq c.0 k)) jar

jar_get-without_less :
    (k v : Text) (jar : List (Text × Text))
    → jar_get k jar ≡ some v
    → length (without k jar) < length jar
unfolding jar_get
jar_get-without_less k v [] h = ground arith
jar_get-without_less k v ((j, u) ∷ jar) h = elim (Bool-cases (text_eq j k)) [
  | inl e ↦ rw e (let l = length-keep (λ c. not (text_eq c.0 k)) jar in omega arith)
  | inr e ↦ rw e (let l = jar_get-without_less k v jar (rw e at h) in omega arith)
]

jar_get-without_other :
    (k j : Text) (jar : List (Text × Text))
    → text_eq k j ≡ false
    → jar_get j (without k jar) ≡ jar_get j jar
unfolding jar_get
jar_get-without_other k j [] d = refl
jar_get-without_other k j ((i, u) ∷ jar) d = elim (Bool-cases (text_eq i k)) [
  | inl e ↦
      let same = text_eq→eq i k e in
      let other : text_eq i j ≡ false = rw same d in rw (e, other) (jar_get-without_other k j jar d)
  | inr e ↦ elim (Bool-cases (text_eq i j)) [
    | inl a ↦ rw (e, a) refl
    | inr a ↦ rw (e, a) (jar_get-without_other k j jar d)
  ]
]

chunk_name-other :
    (base : Text) (i j : ℕ) → i < j → text_eq (chunk_name base i) (chunk_name base j) ≡ false
chunk_name-other base i j h = elim (Bool-cases (text_eq (chunk_name base i) (chunk_name base j))) [
  | inl e ↦
      let same =
        append_cancel_left (base ++ codes ".") (show_nat i) (show_nat j)
          (text_eq→eq (chunk_name base i) (chunk_name base j) e) in
      let equal = show_nat_injective i j same in let no : ⊥ = omega arith in elim no [ ]
  | inr e ↦ e
]

-- the chunks from `i` on are cookies of `rest`
abbrev Holds : List (Text × Text) → List (Text × Text) → Text → ℕ → Type 0
Holds jar rest base i =
    (j : ℕ) → i ≤ j → jar_get (chunk_name base j) jar ≡ jar_get (chunk_name base j) rest

chunks_from-Collects :
    (fuel : ℕ) (jar rest : List (Text × Text)) (base : Text) (i : ℕ)
    → Holds jar rest base i
    → length rest < fuel
    → Collects jar base i (chunks_from fuel jar base i)
unfolding chunks_from
chunks_from-Collects zero jar rest base i k h = let no : ⊥ = omega arith in elim no [ ]
chunks_from-Collects (suc fuel) jar rest base i k h =
    elim (Option-cases (jar_get (chunk_name base i) jar)) [
      | inl e ↦ rw (e, chunks_from) (Collects.stop i e)
      | inr (v, e) ↦
          let here : jar_get (chunk_name base i) rest ≡ some v = sym (k i (omega arith)) ∙ e in
          let less = jar_get-without_less (chunk_name base i) v rest here in
          let later : Holds jar (without (chunk_name base i) rest) base (suc i) = λ j l.
            k j (omega arith)
            ∙ sym (
                jar_get-without_other (chunk_name base i) (chunk_name base j) rest
                  (chunk_name-other base i j l)) in
          rw (e, chunks_from)
            (Collects.round i v (chunks_from fuel jar base (suc i)) e (
              chunks_from-Collects fuel jar (without (chunk_name base i) rest) base (suc i) later
                (omega arith)))
    ]

-- The loop over the chunks ends within one round more than there are cookies, at the first index
-- that no cookie has, and has then collected the values before it in the order of their indices.
pub chunks_from_complete :
    (jar : List (Text × Text)) (base : Text)
    → Collects jar base 0 (chunks_from (suc (length jar)) jar base 0)
chunks_from_complete jar base =
    chunks_from-Collects (suc (length jar)) jar jar base 0 (λ j l. refl) (omega arith)

Collects-unique :
    (jar : List (Text × Text)) (base : Text) (i : ℕ) (xs ys : List Text)
    → Collects jar base i xs
    → Collects jar base i ys
    → xs ≡ ys
Collects-unique jar base i _ _ (Collects.stop _ _) (Collects.stop _ _) = refl
Collects-unique jar base i _ _ (Collects.stop _ e) (Collects.round _ v vs e' c) = ground arith
Collects-unique jar base i _ _ (Collects.round _ v vs e c) (Collects.stop _ e') = ground arith
Collects-unique jar base i _ _ (Collects.round _ v vs e c) (Collects.round _ v' vs' e' c') =
    let same : v ≡ v' = ground arith in rw (same, Collects-unique jar base (suc i) vs vs' c c') refl

-- A session that is split into chunks is put together again, in the order of their indices wherever
-- the cookies stand in the jar: where the first session cookie is one of the chunks, no cookie has
-- the name without an index, and there is a chunk.
pub read_raw_value-chunks :
    (t : Decoders) (jar : List (Text × Text)) (name value chunk : Text) (chunks : List Text)
    → head (keep (λ c. is_auth_cookie c.0) jar) ≡ some (name, value)
    → jar_get (without_index name) jar ≡ none
    → Collects jar (without_index name) 0 (chunk ∷ chunks)
    → read_raw_value t jar ≡ decoded t (join [] (chunk ∷ chunks))
unfolding read_raw_value raw_of
read_raw_value-chunks t jar name value chunk chunks h n c =
    let same =
      Collects-unique jar (without_index name) 0
        (chunks_from (suc (length jar)) jar (without_index name) 0) (chunk ∷ chunks)
        (chunks_from_complete jar (without_index name)) c in
    ap (raw_by_name t jar) h ∙ rw (n, raw_of, same) refl
