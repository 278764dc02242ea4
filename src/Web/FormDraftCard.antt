-- ===== src/Web/FormDraftCard.antt =====
-- frontend/src/app/(app)/todo/page.tsx, `FormDraftCard`: editing the answers of a form before it is
-- sent.
use otclick_hh.Common.{
  Bool-cases, List, Memᴰ, Text, [], any, ap, arith, drop, eqb, false, head, if◌then◌else◌, inl, inr,
  or_else, refl, some, suc, sym, text_eq, text_eq→eq, true, words, zero, ℕ, ◌∙◌, ◌∷◌, ◌≡◌,
}
use otclick_hh.Web.FormDrafts.{FormAnswer, FormDraft}

-- `answers` and `letter`
pub record Card : Type 0 where
  pub answers : List FormAnswer
  pub letter : Text

unfoldable pub card_of : FormDraft → Card
card_of draft = record { answers = draft.answers; letter = or_else draft.letter [] }

-- `update`
unfoldable pub update : ℕ → (FormAnswer → FormAnswer) → List FormAnswer → List FormAnswer
update idx patch [] = []
update zero patch (a ∷ as') = patch a ∷ as'
update (suc idx) patch (a ∷ as') = a ∷ update idx patch as'

-- the text of the option with an id, empty where there is none
abbrev pub option_text : Text → List (Text × Text) → Text
option_text id [] = []
option_text id ((i, words) ∷ os) =
    let rest = option_text id os in if text_eq i id then words else rest

abbrev pub chosen : Text → FormAnswer → FormAnswer
chosen id a = record a { answer_id = some id; answer = option_text id (or_else a.options []) }

-- the `onChange` of the select of an answer, and that of its text area
unfoldable pub choose : ℕ → Text → Card → Card
unfolding update
choose i id s = record s { answers = update i (chosen id) s.answers }

unfoldable pub write : ℕ → Text → Card → Card
unfolding update
write i words s = record s { answers = update i (λ a. record a { answer = words }) s.answers }

unfoldable pub write_letter : Text → Card → Card
write_letter words s = record s { letter = words }

-- What is sent to the employer is one of the choices of the question.
abbrev pub IsOffered : FormAnswer → Type 0
IsOffered a = (id : Text) × (a.answer_id ≡ some id) × Memᴰ (id, a.answer) (or_else a.options [])

option_text-Memᴰ :
    (id : Text) (os : List (Text × Text))
    → any (λ o. text_eq o.0 id) os ≡ true
    → Memᴰ (id, option_text id os) os
option_text-Memᴰ id [] h = ground arith
option_text-Memᴰ id ((i, words) ∷ os) h = elim (Bool-cases (text_eq i id)) [
  | inl e ↦ let same = text_eq→eq i id e in rw e (Memᴰ.head (ap (λ j. (j, words)) (sym same)))
  | inr e ↦ rw e (Memᴰ.tail (option_text-Memᴰ id os (rw e at h)))
]

head-drop-update :
    (i j : ℕ) (patch : FormAnswer → FormAnswer) (as' : List FormAnswer) (a : FormAnswer)
    → head (drop j as') ≡ some a
    → head (drop j (update i patch as')) ≡ some (if eqb j i then patch a else a)
unfolding update
head-drop-update i zero patch [] a h = let no : ⊥ = ground arith in elim no [ ]
head-drop-update i (suc j) patch [] a h = let no : ⊥ = ground arith in elim no [ ]
head-drop-update zero zero patch (x ∷ as') a h = let same : x ≡ a = ground arith in rw same refl
head-drop-update zero (suc j) patch (x ∷ as') a h =
    let other : eqb (suc j) 0 ≡ false = ground arith in rw other h
head-drop-update (suc i) zero patch (x ∷ as') a h =
    let other : eqb 0 (suc i) ≡ false = ground arith in rw other h
head-drop-update (suc i) (suc j) patch (x ∷ as') a h =
    let same : eqb (suc j) (suc i) ≡ eqb j i = ground arith in
    rw same (head-drop-update i j patch as' a h)

-- Choosing an offered option of an answer makes its id and its own text the answer, which is thus one
-- of the choices of the question, and leaves every other answer and the letter as they are.
pub choose-IsOffered :
    (i : ℕ) (id : Text) (s : Card) (a : FormAnswer)
    → head (drop i s.answers) ≡ some a
    → any (λ o. text_eq o.0 id) (or_else a.options []) ≡ true
    → (head (drop i (choose i id s).answers) ≡ some (chosen id a))
      × IsOffered (chosen id a)
      × ((j : ℕ) (b : FormAnswer)
          → eqb j i ≡ false
          → head (drop j s.answers) ≡ some b
          → head (drop j (choose i id s).answers) ≡ some b)
      × ((choose i id s).letter ≡ s.letter)
unfolding choose
choose-IsOffered i id s a h o =
    let same : eqb i i ≡ true = ground arith in
    (
      head-drop-update i i (chosen id) s.answers a h
          ∙ ap (λ t. some (if t then chosen id a else a)) same,
      (id, refl, option_text-Memᴰ id (or_else a.options []) o),
      (λ j b other at.
          head-drop-update i j (chosen id) s.answers b at
          ∙ ap (λ t. some (if t then chosen id b else b)) other),
      refl,
    )
