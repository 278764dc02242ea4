-- ===== src/Web/Vacancies/Sender.antt =====
-- frontend/src/app/(app)/vacancies/sender-control.tsx: the control of the queue of applications.
use otclick_hh.Common.{
  All, Bool, Bool-cases, List, Option, Text, [], arith, codes, false, if◌then◌else◌, inl, inr, ltb,
  negsuc, none, pos, refl, show_nat, some, true, ℕ, ℤ, ◌∷◌, ◌≡◌, ◌≤◌,
}

pub data DesiredState : Type 0 where
  paused running stop_after_current : DesiredState

-- What the backend answers; the progress is in `P`.
pub record SenderState {ℓ} (P : Type ℓ) : Type ℓ where
  pub desired_state : DesiredState
  pub safety_interval_seconds : ℕ
  pub progress : P

pub data ActionName : Type 0 where
  resume pause stop configure : ActionName

-- An answer, or the message of the exception.
pub data Answer {ℓ} (P : Type ℓ) : Type ℓ where
  failed : Text → Answer P
  answered : SenderState P → Answer P

-- `state`, `intervalValue`, `error`, and what was posted: the action and the interval, the last first
pub record Control {ℓ} (P : Type ℓ) : Type ℓ where
  pub state : Option (SenderState P)
  pub interval_value : Text
  pub error : Option Text
  pub posted : List (ActionName × Option ℕ)

abbrev sends_interval : ActionName → Bool
sends_interval resume = true
sends_interval configure = true
sends_interval pause = false
sends_interval stop = false

-- the interval, where `Number` reads a whole number from 0 to 300
abbrev pub interval_of : Option ℤ → Option ℕ
interval_of none = none
interval_of (some (negsuc n)) = none
interval_of (some (pos n)) = if ltb 300 n then none else some n

-- What is posted has an interval of at most 300 seconds, or none.
abbrev pub IsAllowed : ActionName × Option ℕ → Type 0
IsAllowed (name, none) = Unit
IsAllowed (name, some n) = n ≤ 300

module _ {ℓ} {P : Type ℓ} where
  abbrev pub unloaded : Control P
  unloaded = record { state = none; interval_value = codes "10"; error = none; posted = [] }

  -- `load`, at first and every five seconds
  unfoldable pub load : Answer P → Control P → Control P
  load (failed message) s = record s { error = some message }
  load (answered next) s = record s {
    state = some next;
    interval_value = show_nat next.safety_interval_seconds;
    error = none;
  }

  abbrev pub answer_to : Answer P → Control P → Control P
  answer_to (failed message) s = record s { error = some message }
  answer_to (answered next) s = record s { state = some next; error = none }

  abbrev post_interval : ActionName → Option ℕ → Answer P → Control P → Control P
  post_interval name none answer s = record s {
    error = some (codes "Интервал должен быть целым числом от 0 до 300 секунд");
  }
  post_interval name (some n) answer s =
      answer_to answer (record s { posted = (name, some n) ∷ s.posted })

  -- `action`; `number` is `Number`, none for what is no whole number
  unfoldable pub action : (Text → Option ℤ) → ActionName → Answer P → Control P → Control P
  action number name answer s =
      if sends_interval name
      then post_interval name (interval_of (number s.interval_value)) answer s
      else answer_to answer (record s { posted = (name, none) ∷ s.posted })

  answer_to-posted : (answer : Answer P) (s : Control P) → (answer_to answer s).posted ≡ s.posted
  answer_to-posted (failed message) s = refl
  answer_to-posted (answered next) s = refl

  post_interval-IsAllowed :
      (name : ActionName) (z : Option ℤ) (answer : Answer P) (s : Control P)
      → All IsAllowed s.posted
      → All IsAllowed (post_interval name (interval_of z) answer s).posted
  post_interval-IsAllowed name none answer s h = h
  post_interval-IsAllowed name (some (negsuc n)) answer s h = h
  post_interval-IsAllowed name (some (pos n)) answer s h = elim (Bool-cases (ltb 300 n)) [
    | inl e ↦ rw e h
    | inr e ↦
        let small : n ≤ 300 = ground arith in
        rw (e, answer_to-posted answer (record s { posted = (name, some n) ∷ s.posted })) (small, h)
  ]

  -- No interval above 300 seconds is ever posted, whatever was typed and whatever the action.
  pub action-IsAllowed :
      (number : Text → Option ℤ) (name : ActionName) (answer : Answer P) (s : Control P)
      → All IsAllowed s.posted
      → All IsAllowed (action number name answer s).posted
  unfolding action
  action-IsAllowed number resume answer s h =
      post_interval-IsAllowed resume (number s.interval_value) answer s h
  action-IsAllowed number configure answer s h =
      post_interval-IsAllowed configure (number s.interval_value) answer s h
  action-IsAllowed number pause answer s h =
      rw (answer_to-posted answer (record s { posted = (pause, none) ∷ s.posted })) (tt, h)
  action-IsAllowed number stop answer s h =
      rw (answer_to-posted answer (record s { posted = (stop, none) ∷ s.posted })) (tt, h)
