-- ===== src/Web/CommandRegistry/Ranks.antt =====
-- frontend/src/lib/command-registry.ts: the order of the commands that match.
use otclick_hh.Common.{
  All, All-append, All-keep, All-map_pred, Bool, Bool-cases, List, Option, Option-cases,
  Sublistᴰ-All, Sublistᴰ-keep, Text, [], arith, eqb, false, index_of, inl, inr, is_empty, keep, map,
  none, refl, some, suc, trim, true, zero, ℕ, ◌++◌, ◌<◌, ◌∷◌, ◌≡◌, ◌≢◌, ◌≤◌,
}
use otclick_hh.Web.CommandRegistry.{
  Command, Entry, entries, haystack_of, insert, match_commands, precedes, score_at, score_command,
  sort,
}

abbrev pub is_score : ℕ → Option ℕ → Bool
is_score k none = false
is_score k (some n) = eqb n k

abbrev IsBefore : ℕ → Entry → Type 0
IsBefore i y = i < y.place

abbrev Goes : Entry → Bool → Entry → Type 0
Goes e b x = precedes e x ≡ b

insert_first : (e : Entry) (xs : List Entry) → All (Goes e true) xs → insert e xs ≡ e ∷ xs
insert_first e [] h = refl
insert_first e (x ∷ xs) (p, h) = rw p refl

insert_after :
    (e : Entry) (xs ys : List Entry)
    → All (Goes e false) xs
    → insert e (xs ++ ys) ≡ xs ++ insert e ys
insert_after e [] ys h = refl
insert_after e (x ∷ xs) ys (p, h) = rw (p, insert_after e xs ys h) refl

abbrev has_score : ℕ → Entry → Bool
has_score k e = eqb e.score k

-- The entries of a score up to n, the higher scores first, each score in the given order.
abbrev buckets : ℕ → List Entry → List Entry
buckets zero es = keep (has_score 0) es
buckets (suc n) es = keep (has_score (suc n)) es ++ buckets n es

All-kept : (P : Entry → Type 0) (p : Entry → Bool) (es : List Entry) → All P es → All P (keep p es)
All-kept P p es h = Sublistᴰ-All P (Sublistᴰ-keep p es) h

All-buckets : (P : Entry → Type 0) (n : ℕ) (es : List Entry) → All P es → All P (buckets n es)
All-buckets P zero es h = All-kept P (has_score 0) es h
All-buckets P (suc n) es h =
    All-append P (keep (has_score (suc n)) es) (buckets n es) (All-kept P (has_score (suc n)) es h)
      (All-buckets P n es h)

score_of_keep : (k : ℕ) (es : List Entry) → All (λ y. y.score ≡ k) (keep (has_score k) es)
score_of_keep k es =
    All-map_pred (λ y. has_score k y ≡ true) (λ y. y.score ≡ k) (λ y h. ground arith)
      (keep (has_score k) es) (All-keep (has_score k) es)

buckets-AtMost : (n : ℕ) (es : List Entry) → All (λ y. y.score ≤ n) (buckets n es)
buckets-AtMost zero es =
    All-map_pred _ (λ y. y.score ≤ 0) (λ y h. omega (arith, h)) (keep (has_score 0) es)
      (score_of_keep 0 es)
buckets-AtMost (suc n) es =
    All-append (λ y. y.score ≤ suc n) (keep (has_score (suc n)) es) (buckets n es)
      (All-map_pred (λ y. y.score ≡ suc n) (λ y. y.score ≤ suc n) (λ y h. omega (arith, h))
        (keep (has_score (suc n)) es) (score_of_keep (suc n) es))
      (All-map_pred (λ y. y.score ≤ n) (λ y. y.score ≤ suc n) (λ y h. omega (arith, h))
        (buckets n es) (buckets-AtMost n es))

All-both : (P Q : Entry → Type 0) (xs : List Entry) → All P xs → All Q xs → All (λ x. P x × Q x) xs
All-both P Q [] h k = tt
All-both P Q (x ∷ xs) (p, h) (q, k) = ((p, q), All-both P Q xs h k)

Goes-first :
    (e : Entry) (n : ℕ) (es : List Entry)
    → e.score ≡ n
    → All (IsBefore e.place) es
    → All (Goes e true) (buckets n es)
unfolding precedes
Goes-first e n es s h =
    All-map_pred (λ y. (y.score ≤ n) × IsBefore e.place y) (Goes e true) (λ y (a, b). ground arith)
      (buckets n es)
      (All-both _ (IsBefore e.place) (buckets n es) (buckets-AtMost n es)
        (All-buckets (IsBefore e.place) n es h))

Goes-after :
    (e : Entry) (k : ℕ) (es : List Entry) → e.score < k → All (Goes e false) (keep (has_score k) es)
unfolding precedes
Goes-after e k es s =
    All-map_pred (λ y. y.score ≡ k) (Goes e false) (λ y h. ground arith) (keep (has_score k) es)
      (score_of_keep k es)

has_score-ne : (e : Entry) (k : ℕ) → e.score ≢ k → has_score k e ≡ false
has_score-ne e k h = ground arith

has_score-eq : (e : Entry) (k : ℕ) → e.score ≡ k → has_score k e ≡ true
has_score-eq e k h = ground arith

buckets_above :
    (e : Entry) (n : ℕ) (es : List Entry) → n < e.score → buckets n (e ∷ es) ≡ buckets n es
buckets_above e zero es h = rw (has_score-ne e 0 (λ s. omega arith)) refl
buckets_above e (suc n) es h =
    rw (has_score-ne e (suc n) (λ s. omega arith), buckets_above e n es (omega arith)) refl

insert-buckets :
    (e : Entry) (n : ℕ) (es : List Entry)
    → e.score ≤ n
    → All (IsBefore e.place) es
    → insert e (buckets n es) ≡ buckets n (e ∷ es)
insert-buckets e zero es s h =
    let s0 : e.score ≡ 0 = omega arith in
    rw (has_score-eq e 0 s0) (insert_first e (buckets 0 es) (Goes-first e 0 es s0 h))
insert-buckets e (suc n) es s h = elim (Bool-cases (has_score (suc n) e)) [
  | inl q ↦
      let here : e.score ≡ suc n = ground arith in
      rw (q, buckets_above e n es (omega arith))
        (insert_first e (buckets (suc n) es) (Goes-first e (suc n) es here h))
  | inr q ↦
      let below : e.score ≤ n = ground arith in
      rw
        (
          q,
          insert_after e (keep (has_score (suc n)) es) (buckets n es)
              (Goes-after e (suc n) es (omega arith)),
          insert-buckets e n es below h,
        )
        refl
]

-- Entries whose scores are at most n and whose places grow.
abbrev InOrder : ℕ → List Entry → Type 0
InOrder n [] = Unit
InOrder n (e ∷ es) = (e.score ≤ n) × All (IsBefore e.place) es × InOrder n es

sort-buckets : (n : ℕ) (es : List Entry) → InOrder n es → sort es ≡ buckets n es
sort-buckets zero [] h = refl
sort-buckets (suc n) [] h = sort-buckets n [] tt
sort-buckets n (e ∷ es) (s, h, o) = rw (sort-buckets n es o) (insert-buckets e n es s h)

module _ (score : Command → Option ℕ) where
  abbrev IsBounded : ℕ → Type 0
  IsBounded n = (cmd : Command) (k : ℕ) → score cmd ≡ some k → k ≤ n

  entries-IsBefore :
      (j i : ℕ) (cmds : List Command) → j < i → All (IsBefore j) (entries score i cmds)
  entries-IsBefore j i [] h = tt
  entries-IsBefore j i (cmd ∷ cmds) h = elim (Option-cases (score cmd)) [
    | inl e ↦ rw e (entries-IsBefore j (suc i) cmds (omega arith))
    | inr (k, e) ↦ rw e (h, entries-IsBefore j (suc i) cmds (omega arith))
  ]

  entries-InOrder : (n i : ℕ) (cmds : List Command) → IsBounded n → InOrder n (entries score i cmds)
  entries-InOrder n i [] b = tt
  entries-InOrder n i (cmd ∷ cmds) b = elim (Option-cases (score cmd)) [
    | inl e ↦ rw e (entries-InOrder n (suc i) cmds b)
    | inr (k, e) ↦
        rw e (
          b cmd k e,
          entries-IsBefore i (suc i) cmds (omega arith),
          entries-InOrder n (suc i) cmds b,
        )
  ]

  -- The commands of one score, in the order of the registry.
  abbrev pub scored : ℕ → List Command → List Command
  scored k cmds = keep (λ cmd. is_score k (score cmd)) cmds

  keep-entries :
      (k i : ℕ) (cmds : List Command)
      → map (λ e. e.cmd) (keep (has_score k) (entries score i cmds)) ≡ scored k cmds
  keep-entries k i [] = refl
  keep-entries k i (cmd ∷ cmds) = elim (Option-cases (score cmd)) [
    | inl e ↦ rw e (keep-entries k (suc i) cmds)
    | inr (n, e) ↦ elim (Bool-cases (eqb n k)) [
      | inl q ↦ rw (e, q, keep-entries k (suc i) cmds) refl
      | inr q ↦ rw (e, q, keep-entries k (suc i) cmds) refl
    ]
  ]

-- The commands shown, best first.
unfoldable pub ranked : (Text → Text) → Text → List Command → List Command
ranked lower query cmds =
    let score = score_command lower query in
    scored score 3 cmds ++ (scored score 2 cmds ++ (scored score 1 cmds ++ scored score 0 cmds))

score_at-AtMost : (haystack : Text) (idx : ℕ) → score_at haystack idx ≤ 3
score_at-AtMost haystack idx = ground arith

score_command-IsBounded :
    (lower : Text → Text) (query : Text) → IsBounded (score_command lower query) 3
unfolding score_command
score_command-IsBounded lower query cmd k h = elim (Bool-cases (is_empty (lower (trim query)))) [
  | inl e ↦ ground arith
  | inr e ↦ elim (Option-cases (index_of (haystack_of lower cmd) (lower (trim query)))) [
    | inl i ↦ ground arith
    | inr (n, i) ↦ let bound = score_at-AtMost (haystack_of lower cmd) n in ground arith
  ]
]

map-append : (f : Entry → Command) (xs ys : List Entry) → map f (xs ++ ys) ≡ map f xs ++ map f ys
map-append f [] ys = refl
map-append f (x ∷ xs) ys = rw (map-append f xs ys) refl

-- The palette shows just the commands that match, those that start with the query first, then
-- those with the query at the start of a later word, then the other matches, each kind in the
-- order of the registry; a blank query gives every command the score 0.
pub match_commands-ranked :
    (lower : Text → Text) (cmds : List Command) (query : Text)
    → match_commands lower cmds query ≡ ranked lower query cmds
unfolding match_commands ranked
match_commands-ranked lower cmds query =
    let score = score_command lower query in
    let es = entries score 0 cmds in
    rw
      (
        sort-buckets 3 es (entries-InOrder score 3 0 cmds (score_command-IsBounded lower query)),
        map-append (λ e. e.cmd) (keep (has_score 3) es) (buckets 2 es),
        map-append (λ e. e.cmd) (keep (has_score 2) es) (buckets 1 es),
        map-append (λ e. e.cmd) (keep (has_score 1) es) (buckets 0 es),
        keep-entries score 3 0 cmds,
        keep-entries score 2 0 cmds,
        keep-entries score 1 0 cmds,
        keep-entries score 0 0 cmds,
      )
      refl
