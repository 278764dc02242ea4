-- ===== src/Web/QuestionCard.antt =====
-- frontend/src/app/(app)/todo/page.tsx, `QuestionCard`: the questions of a recruiter that the user
-- answers.
use otclick_hh.Common.{
  All, Bool, List, Option, Option-cases, Text, [], any, ap, arith, eqb, false, if◌then◌else◌, inl,
  inr, is_empty, length, length-map, map, none, not, or_else, refl, some, suc, sym, trim, true,
  zero, ℕ, ◌+◌, ◌<◌, ◌∙◌, ◌∷◌, ◌≡◌, ◌≤◌,
}
use otclick_hh.Web.Inbox.{Action, QuestionSet, answer_questions, discard_question}

-- the state `answers`, with the property `questionSet`
pub record QuestionCard : Type 0 where
  pub question_set : QuestionSet
  pub answers : List Text

unfoldable pub question_card : QuestionSet → QuestionCard
question_card q = record { question_set = q; answers = map (λ question. []) q.questions }

-- What happens to the card: its property is loaded again, or a text area changes.
pub data QuestionEvent : Type 0 where
  reloaded : QuestionSet → QuestionEvent
  typed : ℕ → Text → QuestionEvent

-- `prev.map((a, i) => (i === idx ? value : a))`
unfoldable pub put_answer : ℕ → Text → List Text → List Text
put_answer idx value [] = []
put_answer zero value (a ∷ as') = value ∷ as'
put_answer (suc idx) value (a ∷ as') = a ∷ put_answer idx value as'

unfoldable pub on_question : QuestionEvent → QuestionCard → QuestionCard
unfolding put_answer
on_question (reloaded q) s = record s { question_set = q }
on_question (typed i value) s = record s { answers = put_answer i value s.answers }

unfoldable pub on_questions : List QuestionEvent → QuestionCard → QuestionCard
on_questions [] s = s
on_questions (e ∷ es) s = on_questions es (on_question e s)

-- `ready`
unfoldable pub is_ready : List Text → Bool
is_ready answers = not (any (λ a. is_empty (trim a)) answers)

-- the two buttons, the first of which is disabled until every answer is there
unfoldable pub send_answers : QuestionCard → Option Action
unfolding is_ready
send_answers s =
    if is_ready s.answers then some (answer_questions s.question_set.id s.answers) else none

unfoldable pub discard_questions : QuestionCard → Action
discard_questions s = discard_question s.question_set.id

-- The card of a set is given that set again, with its id: the id is the card's key.
abbrev pub IsForSet : Text → QuestionEvent → Type 0
IsForSet id (reloaded q) = q.id ≡ id
IsForSet id (typed i value) = Unit

abbrev pub typed_at : ℕ → QuestionEvent → Option Text
typed_at i (reloaded q) = none
typed_at i (typed j value) = if eqb i j then some value else none

abbrev later_or {ℓ} : {A : Type ℓ} → Option A → Option A → Option A
later_or none sooner = sooner
later_or (some a) sooner = some a

-- the last text that was typed for a question
unfoldable pub last_typed : ℕ → List QuestionEvent → Option Text
last_typed i [] = none
last_typed i (e ∷ es) = later_or (last_typed i es) (typed_at i e)

-- the answers from a question on: the last text typed for each, or what was there
unfoldable pub answers_typed : List QuestionEvent → ℕ → List Text → List Text
answers_typed es i [] = []
answers_typed es i (a ∷ as') = or_else (last_typed i es) a ∷ answers_typed es (suc i) as'

last_typed-same :
    (i : ℕ) (value a : Text) (es : List QuestionEvent)
    → or_else (last_typed i (typed i value ∷ es)) a ≡ or_else (last_typed i es) value
unfolding last_typed
last_typed-same i value a es =
    let same : eqb i i ≡ true = ground arith in
    elim (Option-cases (last_typed i es)) [ inl e ↦ rw (e, same) refl | inr (v, e) ↦ rw e refl ]

last_typed-other :
    (i : ℕ) (e : QuestionEvent) (es : List QuestionEvent)
    → typed_at i e ≡ none
    → last_typed i (e ∷ es) ≡ last_typed i es
unfolding last_typed
last_typed-other i e es h = elim (Option-cases (last_typed i es)) [
  | inl k ↦ rw (k, h) refl
  | inr (v, k) ↦ rw k refl
]

answers_typed-other :
    (e : QuestionEvent) (es : List QuestionEvent) (i : ℕ) (answers : List Text)
    → ((j : ℕ) → i ≤ j → typed_at j e ≡ none)
    → answers_typed (e ∷ es) i answers ≡ answers_typed es i answers
unfolding answers_typed
answers_typed-other e es i [] h = refl
answers_typed-other e es i (a ∷ as') h =
    let here = last_typed-other i e es (h i (omega arith)) in
    let rest = answers_typed-other e es (suc i) as' (λ j le. h j (omega arith)) in
    rw (here, rest) refl

typed_at-before : (i j : ℕ) (value : Text) → j < i → typed_at i (typed j value) ≡ none
typed_at-before i j value lt = let other : eqb i j ≡ false = ground arith in rw other refl

answers_typed-put :
    (es : List QuestionEvent) (i j : ℕ) (value : Text) (answers : List Text)
    → answers_typed es i (put_answer j value answers)
      ≡ answers_typed (typed (i + j) value ∷ es) i answers
unfolding answers_typed put_answer
answers_typed-put es i j value [] = refl
answers_typed-put es i zero value (a ∷ as') =
    let at : i + 0 ≡ i = omega arith in
    let here = last_typed-same i value a es in
    let rest =
      answers_typed-other (typed i value) es (suc i) as'
        (λ k le. typed_at-before k i value (omega arith)) in
    sym (
      ap (λ b. b ∷ answers_typed (typed i value ∷ es) (suc i) as') here
      ∙ ap (λ bs. or_else (last_typed i es) value ∷ bs) rest)
    ∙ ap (λ k. answers_typed (typed k value ∷ es) i (a ∷ as')) (sym at)
answers_typed-put es i (suc j) value (a ∷ as') =
    let at : i + suc j ≡ suc i + j = omega arith in
    let other : eqb i (suc i + j) ≡ false = ground arith in
    let here = last_typed-other i (typed (suc i + j) value) es (rw other refl) in
    let rest = answers_typed-put es (suc i) j value as' in
    ap (λ bs. or_else (last_typed i es) a ∷ bs) rest
    ∙ sym (ap (λ v. or_else v a ∷ answers_typed (typed (suc i + j) value ∷ es) (suc i) as') here)
    ∙ ap (λ k. answers_typed (typed k value ∷ es) i (a ∷ as')) (sym at)

answers_typed-nil : (i : ℕ) (answers : List Text) → answers_typed [] i answers ≡ answers
unfolding answers_typed last_typed
answers_typed-nil i [] = refl
answers_typed-nil i (a ∷ as') = ap (λ bs. a ∷ bs) (answers_typed-nil (suc i) as')

length-answers_typed :
    (es : List QuestionEvent) (i : ℕ) (answers : List Text)
    → length (answers_typed es i answers) ≡ length answers
unfolding answers_typed
length-answers_typed es i [] = refl
length-answers_typed es i (a ∷ as') = ap suc (length-answers_typed es (suc i) as')

on_questions-answers :
    (es : List QuestionEvent) (s : QuestionCard)
    → (on_questions es s).answers ≡ answers_typed es 0 s.answers
unfolding on_questions on_question
on_questions-answers [] s = sym (answers_typed-nil 0 s.answers)
on_questions-answers (reloaded q ∷ es) s =
    on_questions-answers es (record s { question_set = q })
    ∙ sym (answers_typed-other (reloaded q) es 0 s.answers (λ j le. refl))
on_questions-answers (typed j value ∷ es) s =
    on_questions-answers es (record s { answers = put_answer j value s.answers })
    ∙ answers_typed-put es 0 j value s.answers
    ∙ ap (λ k. answers_typed (typed k value ∷ es) 0 s.answers) (omega arith)

on_questions-id :
    (id : Text) (es : List QuestionEvent) (s : QuestionCard)
    → s.question_set.id ≡ id
    → All (IsForSet id) es
    → (on_questions es s).question_set.id ≡ id
unfolding on_questions on_question
on_questions-id id [] s h k = h
on_questions-id id (reloaded q ∷ es) s h (k, ks) =
    on_questions-id id es (record s { question_set = q }) k ks
on_questions-id id (typed j value ∷ es) s h (k, ks) =
    on_questions-id id es (record s { answers = put_answer j value s.answers }) h ks

abbrev pub sent_for : Text → List Text → Option Action
sent_for id answers = if is_ready answers then some (answer_questions id answers) else none

-- However the text areas of a card are typed in and however often its set is loaded again, the
-- button sends, for the set's id, the last text typed for each question the card was opened with,
-- and it is disabled if and only if one of these is blank; there are as many as questions.
pub send_answers-typed :
    (q : QuestionSet) (es : List QuestionEvent)
    → All (IsForSet q.id) es
    → (send_answers (on_questions es (question_card q))
        ≡ sent_for q.id (answers_typed es 0 (map (λ question. []) q.questions)))
      × (length (answers_typed es 0 (map (λ question. []) q.questions)) ≡ length q.questions)
unfolding send_answers question_card
send_answers-typed q es h =
    let same = on_questions-answers es (question_card q) in
    let id = on_questions-id q.id es (question_card q) refl h in
    (
      rw (same, id) refl,
      length-answers_typed es 0 (map (λ question. []) q.questions)
          ∙ length-map (λ question. []) q.questions,
    )
