-- ===== src/Ext/Filler/Choices.antt =====
-- ext/lib/snapshot.ts: how an answer is matched with the choices of a field.
use otclick_hh.Common.{
  Bool, List, Memᴰ, Memᴰ-append_right, Option, Option-cases, Text, [], any, arith, codes, collapse,
  find, find-eq-some, if◌then◌else◌, includes, inl, inr, is_empty, none, not, refl, some, suc,
  text_eq, text_eq_iff, trim, true, ℕ, ◌&&◌, ◌||◌, ◌∷◌, ◌≡◌, ◌⊎◌,
}

abbrev pub falsy_words : List Text
falsy_words =
    codes "0"
    ∷ codes "false"
    ∷ codes "no"
    ∷ codes "off"
    ∷ codes ""
    ∷ codes "null"
    ∷ codes "undefined"
    ∷ []

-- `!!v && !["0", …].includes(v)`, with `v` put in lower case and trimmed
unfoldable pub is_truthy : Text → Bool
is_truthy v = not (is_empty v) && not (any (text_eq v) falsy_words)

module _ (to_lower : Text → Text) where
  -- `s.replace(/\s+/g, " ").trim().toLowerCase()`
  unfoldable pub norm : Text → Text
  norm s = to_lower (trim (collapse s))

  -- the test of the loop in `setSelect`, on an option's value and text
  abbrev pub option_matches : Text → Text × Text → Bool
  option_matches want (value, text) = text_eq (norm text) want || text_eq (norm value) want

  -- the index at which that loop breaks
  unfoldable pub match_from : ℕ → Text → List (Text × Text) → Option ℕ
  match_from i want [] = none
  match_from i want (o ∷ os) =
      let rest = match_from (suc i) want os in if option_matches want o then some i else rest

  -- the options of a combobox whose text holds the answer or lies in it
  abbrev pub overlaps : Text → Text → Bool
  overlaps want text = includes (norm text) want || includes want (norm text)

module _ {A : Type 0} (to_lower : Text → Text) (text_of : A → Text) where
  -- `opts.find(exact) ?? opts.find(overlap) ?? null`
  unfoldable pub best_option : Text → List A → Option A
  best_option want opts = elim (find (λ o. text_eq (norm to_lower (text_of o)) want) opts) [
    | some o ↦ some o
    | none ↦ find (λ o. overlaps to_lower want (text_of o)) opts
  ]

  -- `peers.find(label) ?? peers.find(value)`
  unfoldable pub best_peer : (A → Text) → Text → List A → Option A
  best_peer value_of target peers = elim (find (λ p. text_eq (to_lower (text_of p)) target) peers) [
    | some p ↦ some p
    | none ↦ find (λ p. text_eq (to_lower (value_of p)) target) peers
  ]

-- What is chosen matches: the text of the option is the answer, or no option has that text and the
-- one chosen holds the answer or lies in it.
pub best_option_sound :
    {A : Type 0} (to_lower : Text → Text) (text_of : A → Text) (want : Text) (opts : List A) (o : A)
    → best_option to_lower text_of want opts ≡ some o
    → Memᴰ o opts
      × ((norm to_lower (text_of o) ≡ want)
          ⊎ ((find (λ p. text_eq (norm to_lower (text_of p)) want) opts ≡ none)
              × (overlaps to_lower want (text_of o) ≡ true)))
unfolding best_option
best_option_sound to_lower text_of want opts o h =
    elim (Option-cases (find (λ p. text_eq (norm to_lower (text_of p)) want) opts)) [
      | inl missed ↦
          let found : find (λ p. overlaps to_lower want (text_of p)) opts ≡ some o =
            rw (missed, best_option) at h in
          let (before, after, split, _, holds) = find-eq-some _ opts o found in
          (rw split (Memᴰ-append_right o before (o ∷ after) (Memᴰ.head refl)), inr (missed, holds))
      | inr (p, found) ↦
          let same : p ≡ o = ground arith in
          let (before, after, split, _, holds) = find-eq-some _ opts p found in
          (
            rw (split, ← same) (Memᴰ-append_right p before (p ∷ after) (Memᴰ.head refl)),
            inl (rw (← same) ((text_eq_iff _ _).0 holds)),
          )
    ]
