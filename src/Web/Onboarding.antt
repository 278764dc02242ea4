-- ===== src/Web/Onboarding.antt =====
-- frontend/src/components/otclick/onboarding-modal.tsx: the steps of the first visit.
use otclick_hh.Common.{
  All, Bool, Bool-cases, List, Option, Text, [], false, find, if◌then◌else◌, inl, inr, is_word, ltb,
  none, not, or_else, refl, some, true, ℕ, ◌&&◌, ◌||◌, ◌∷◌, ◌≡◌, ◌⊎◌,
}

pub data StepKey : Type 0 where
  connect resume filter launch : StepKey

-- What the queries have answered: hh's status, the resumes, the filters, and the states of the worker
-- and of its agent, each none while it is not known.
pub record Sources : Type 0 where
  pub connected : Option Bool
  pub resumes : Option ℕ
  pub filters : Option ℕ
  pub worker : Option (Text × Text)

abbrev is_running : Option (Text × Text) → Bool
is_running none = false
is_running (some (state, agent_state)) = is_word state "running" || is_word agent_state "running"

-- `doneMap`
unfoldable pub is_done : Sources → StepKey → Bool
is_done s connect = or_else s.connected false
is_done s resume = ltb 0 (or_else s.resumes 0)
is_done s filter = ltb 0 (or_else s.filters 0)
is_done s launch = is_running s.worker

abbrev pub order : List StepKey
order = connect ∷ resume ∷ filter ∷ launch ∷ []

-- `activeStep` and `allDone`
unfoldable pub active_step : Sources → Option StepKey
active_step s = find (λ k. not (is_done s k)) order

unfoldable pub all_done : Sources → Bool
all_done s = is_done s connect && (is_done s resume && (is_done s filter && is_done s launch))

-- The modal: whether it is shown, minimized, and whether the profile says that the user is onboarded.
pub record Modal : Type 0 where
  pub show : Bool
  pub minimized : Bool
  pub onboarded : Bool

-- `setShow(!data?.onboarded)`
unfoldable pub opened : Bool → Modal
opened onboarded = record { show = not onboarded; minimized = false; onboarded = onboarded }

unfoldable pub open_filters : Modal → Modal
open_filters s = record s { minimized = true }

unfoldable pub resume_modal : Modal → Modal
resume_modal s = record s { minimized = false }

-- the effect that brings the modal back once there is a filter
unfoldable pub settle : Sources → Modal → Modal
settle src s = if s.minimized && is_done src filter then record s { minimized = false } else s

-- `finish`; `signed_in` tells whether there is a user
unfoldable pub finish : Bool → Modal → Modal
finish signed_in s = record s { show = false; onboarded = signed_in || s.onboarded }

-- The steps that come before a step.
abbrev pub before : StepKey → List StepKey
before connect = []
before resume = connect ∷ []
before filter = connect ∷ resume ∷ []
before launch = connect ∷ resume ∷ filter ∷ []

-- The active step is the first that is not done: the steps before it are done and it is not; and
-- there is none just when everything is done.
pub active_step-first :
    (s : Sources)
    → ((active_step s ≡ none) × (all_done s ≡ true))
      ⊎ ((k : StepKey) × (active_step s ≡ some k)
          × (is_done s k ≡ false)
          × (all_done s ≡ false)
          × All (λ j. is_done s j ≡ true) (before k))
unfolding active_step all_done
active_step-first s = elim (Bool-cases (is_done s connect)) [
  | inr e ↦ rw e (inr (connect, refl, e, refl, tt))
  | inl e ↦ elim (Bool-cases (is_done s resume)) [
    | inr f ↦ rw (e, f) (inr (resume, refl, f, refl, (e, tt)))
    | inl f ↦ elim (Bool-cases (is_done s filter)) [
      | inr g ↦ rw (e, f, g) (inr (filter, refl, g, refl, (e, (f, tt))))
      | inl g ↦ elim (Bool-cases (is_done s launch)) [
        | inr h ↦ rw (e, f, g, h) (inr (launch, refl, h, refl, (e, (f, (g, tt)))))
        | inl h ↦ rw (e, f, g, h) (inl (refl, refl))
      ]
    ]
  ]
]
