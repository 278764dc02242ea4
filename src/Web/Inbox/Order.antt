-- ===== src/Web/Inbox/Order.antt =====
-- frontend/src/hooks/useRecruiter.ts: what is left of the lists after actions answered in any order.
use otclick_hh.Common.{
  Bool, Bool-cases, List, Option, Text, [], ap, false, inl, inr, keep, not, refl, sym, text_eq,
  true, ◌&&◌, ◌||◌, ◌∙◌, ◌∷◌, ◌≡◌,
}
use otclick_hh.Web.Inbox.{
  Action, RecruiterData, answer_questions, discard_draft, discard_question, patch, perform, remove,
  resolve_todo, send_draft, shown,
}

-- Which draft, task or set of questions an action settles.
abbrev pub settles_draft : Action → Text → Bool
settles_draft (send_draft id message) x = text_eq x id
settles_draft (discard_draft id) x = text_eq x id
settles_draft _ x = false

abbrev pub settles_todo : Action → Text → Bool
settles_todo (resolve_todo id v) x = text_eq x id
settles_todo _ x = false

abbrev pub settles_question : Action → Text → Bool
settles_question (answer_questions id answers) x = text_eq x id
settles_question (discard_question id) x = text_eq x id
settles_question _ x = false

-- actions with their answers, in the order of these: whether the request went through
unfoldable pub perform_all : List (Bool × Action) → Option RecruiterData → Option RecruiterData
perform_all [] cache = cache
perform_all ((ok, a) ∷ as') cache = perform_all as' (perform ok a cache)

-- Some action that went through settles the item.
unfoldable pub is_settled : (Action → Text → Bool) → List (Bool × Action) → Text → Bool
is_settled settles [] id = false
is_settled settles ((ok, a) ∷ as') id = ok && settles a id || is_settled settles as' id

keep-true {ℓ} : {A : Type ℓ} (xs : List A) → keep (λ x. true) xs ≡ xs
keep-true [] = refl
keep-true (x ∷ xs) = rw (keep-true xs) refl

module _ {ℓ} {A : Type ℓ} (list_of : RecruiterData → List A) (id_of : A → Text)
    (settles : Action → Text → Bool) where
  keep-settled :
      (ok : Bool) (a : Action) (as' : List (Bool × Action)) (xs : List A)
      → keep
          (λ x. not (is_settled settles as' (id_of x)))
          (keep (λ x. not (ok && settles a (id_of x))) xs)
        ≡ keep (λ x. not (is_settled settles ((ok, a) ∷ as') (id_of x))) xs
  unfolding is_settled
  keep-settled ok a as' [] = refl
  keep-settled ok a as' (x ∷ xs) = elim (Bool-cases (ok && settles a (id_of x))) [
    | inl e ↦ rw e (keep-settled ok a as' xs)
    | inr e ↦ elim (Bool-cases (is_settled settles as' (id_of x))) [
      | inl f ↦ rw (e, f) (keep-settled ok a as' xs)
      | inr f ↦ rw (e, f) (ap (λ ys. x ∷ ys) (keep-settled ok a as' xs))
    ]
  ]

  -- what one action does to the list, as it is shown
  module _
      (one : (a : Action) (prev : RecruiterData)
        → list_of (remove a prev) ≡ keep (λ x. not (settles a (id_of x))) (list_of prev)) where
    list_of-perform :
        (ok : Bool) (a : Action) (cache : Option RecruiterData)
        → list_of (shown (perform ok a cache))
          ≡ keep (λ x. not (ok && settles a (id_of x))) (list_of (shown cache))
    unfolding perform patch
    list_of-perform false a cache = sym (keep-true (list_of (shown cache)))
    list_of-perform true a cache = one a (shown cache)

    list_of-perform_all :
        (as' : List (Bool × Action)) (cache : Option RecruiterData)
        → list_of (shown (perform_all as' cache))
          ≡ keep (λ x. not (is_settled settles as' (id_of x))) (list_of (shown cache))
    unfolding perform_all is_settled
    list_of-perform_all [] cache = sym (keep-true (list_of (shown cache)))
    list_of-perform_all ((ok, a) ∷ as') cache =
        list_of-perform_all as' (perform ok a cache)
        ∙ ap (keep (λ x. not (is_settled settles as' (id_of x)))) (list_of-perform ok a cache)
        ∙ keep-settled ok a as' (list_of (shown cache))

remove-drafts :
    (a : Action) (prev : RecruiterData)
    → (remove a prev).drafts ≡ keep (λ d. not (settles_draft a d.id)) prev.drafts
unfolding remove
remove-drafts (send_draft id m) prev = refl
remove-drafts (discard_draft id) prev = refl
remove-drafts (resolve_todo id v) prev = sym (keep-true prev.drafts)
remove-drafts (answer_questions id texts) prev = sym (keep-true prev.drafts)
remove-drafts (discard_question id) prev = sym (keep-true prev.drafts)

remove-todos :
    (a : Action) (prev : RecruiterData)
    → (remove a prev).todos ≡ keep (λ t. not (settles_todo a t.id)) prev.todos
unfolding remove
remove-todos (send_draft id m) prev = sym (keep-true prev.todos)
remove-todos (discard_draft id) prev = sym (keep-true prev.todos)
remove-todos (resolve_todo id v) prev = refl
remove-todos (answer_questions id texts) prev = sym (keep-true prev.todos)
remove-todos (discard_question id) prev = sym (keep-true prev.todos)

remove-questions :
    (a : Action) (prev : RecruiterData)
    → (remove a prev).questions ≡ keep (λ q. not (settles_question a q.id)) prev.questions
unfolding remove
remove-questions (send_draft id m) prev = sym (keep-true prev.questions)
remove-questions (discard_draft id) prev = sym (keep-true prev.questions)
remove-questions (resolve_todo id v) prev = sym (keep-true prev.questions)
remove-questions (answer_questions id texts) prev = refl
remove-questions (discard_question id) prev = refl

-- After any actions, in whatever order they are answered, the lists show just the items that were
-- shown before and that no action which went through has settled, in their order: drafts that were
-- sent or discarded go, tasks that were resolved, and questions that were answered or discarded.
pub perform_all-shown :
    (as' : List (Bool × Action)) (cache : Option RecruiterData)
    → ((shown (perform_all as' cache)).drafts
        ≡ keep (λ d. not (is_settled settles_draft as' d.id)) (shown cache).drafts)
      × ((shown (perform_all as' cache)).todos
          ≡ keep (λ t. not (is_settled settles_todo as' t.id)) (shown cache).todos)
      × ((shown (perform_all as' cache)).questions
          ≡ keep (λ q. not (is_settled settles_question as' q.id)) (shown cache).questions)
perform_all-shown as' cache = (
  list_of-perform_all (λ r. r.drafts) (λ d. d.id) settles_draft remove-drafts as' cache,
  list_of-perform_all (λ r. r.todos) (λ t. t.id) settles_todo remove-todos as' cache,
  list_of-perform_all (λ r. r.questions) (λ q. q.id) settles_question remove-questions as' cache,
)
