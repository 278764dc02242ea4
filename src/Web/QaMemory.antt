-- ===== src/Web/QaMemory.antt =====
-- frontend/src/components/otclick/qa-memory.tsx: the remembered questions and answers.
use otclick_hh.Common.{
  Bool, Bool-cases, List, Option, Text, [], codes, false, if◌then◌else◌, inl, inr, is_empty, join,
  keep, map, none, not, or_else, refl, some, text_eq, text_eq_refl, text_eq→eq, trim, ◌++◌, ◌||◌,
  ◌∷◌, ◌≡◌,
}

pub record QaItem : Type 0 where
  pub id : Text
  pub question : Text
  pub answer : Text
  pub source : Text
  pub vacancy_id : Option Text
  pub updated_at : Text

-- `items`, `err` and `busy`, and what was posted, the last pair first
pub record Memory : Type 0 where
  pub items : Option (List QaItem)
  pub err : Option Text
  pub busy : Bool
  pub posted : List (Text × Text)

-- An answer of the backend, or the message of the exception.
pub data Answer {ℓ} (A : Type ℓ) : Type ℓ where
  failed : Text → Answer A
  answered : A → Answer A

-- the first effect
unfoldable pub loaded : Answer (List QaItem) → Memory → Memory
loaded (failed message) s = record s { items = some []; err = some message }
loaded (answered items) s = record s { items = some items }

abbrev pub others : QaItem → Option (List QaItem) → List QaItem
others saved items = keep (λ i. not (text_eq i.question saved.question)) (or_else items [])

abbrev after_save : Answer QaItem → Memory → Memory
after_save (failed message) s = record s { err = some message; busy = false }
after_save (answered saved) s = record s {
  items = some (saved ∷ others saved s.items);
  busy = false;
}

-- `save`
unfoldable pub save : Text → Text → Answer QaItem → Memory → Memory
save question answer result s =
    if is_empty (trim question) || is_empty (trim answer)
    then s
    else after_save result (record s { err = none; posted = (question, answer) ∷ s.posted })

-- `remove`
unfoldable pub remove : Text → Answer (Unit {0}) → Memory → Memory
remove id (failed message) s = record s { err = some message }
remove id (answered done) s = record s {
  items = some (keep (λ i. not (text_eq i.id id)) (or_else s.items []));
  err = none;
}

-- `copyAll`: what goes to the clipboard
unfoldable pub copied_text : List QaItem → Text
copied_text items =
    join (codes "\n\n")
      (map (λ i. codes "Вопрос: " ++ i.question ++ codes "\nОтвет: " ++ i.answer) items)

-- the answer remembered for a question
unfoldable pub answer_to : Text → List QaItem → Option Text
answer_to question [] = none
answer_to question (i ∷ items) =
    let rest = answer_to question items in
    if text_eq i.question question then some i.answer else rest

answer_to-others :
    (saved : QaItem) (question : Text) (items : List QaItem)
    → text_eq saved.question question ≡ false
    → answer_to question (keep (λ i. not (text_eq i.question saved.question)) items)
      ≡ answer_to question items
unfolding answer_to
answer_to-others saved question [] h = refl
answer_to-others saved question (i ∷ items) h =
    elim (Bool-cases (text_eq i.question saved.question)) [
      | inl e ↦
          let same = text_eq→eq i.question saved.question e in
          let other : text_eq i.question question ≡ false = rw same h in
          rw (e, other) (answer_to-others saved question items h)
      | inr e ↦ elim (Bool-cases (text_eq i.question question)) [
        | inl f ↦ rw (e, f) refl
        | inr f ↦ rw (e, f) (answer_to-others saved question items h)
      ]
    ]

-- After a pair was saved, the memory answers its question with the saved answer and every other
-- question as before, whatever was typed; a blank question or answer is not posted.
pub save-answer_to :
    (question answer other : Text) (saved : QaItem) (s : Memory)
    → is_empty (trim question) || is_empty (trim answer) ≡ false
    → text_eq saved.question other ≡ false
    → (answer_to saved.question (or_else (save question answer (answered saved) s).items [])
        ≡ some saved.answer)
      × (answer_to other (or_else (save question answer (answered saved) s).items [])
          ≡ answer_to other (or_else s.items []))
      × ((save question answer (answered saved) s).posted ≡ (question, answer) ∷ s.posted)
unfolding save answer_to
save-answer_to question answer other saved s h d =
    rw (h, text_eq_refl saved.question, d)
      (refl, answer_to-others saved other (or_else s.items []) d, refl)
