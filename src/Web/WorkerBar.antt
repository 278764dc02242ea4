-- ===== src/Web/WorkerBar.antt =====
-- frontend/src/components/otclick/worker-bar.tsx: what the bar says of the worker.
use otclick_hh.Common.{
  Bool, Bool-cases, Option, Text, [], arith, codes, eqb, false, if◌then◌else◌, inl, inr, is_empty,
  ltb, negsuc, none, not, or_else, pos, refl, show_nat, some, true, ℤ, ◌++◌, ◌+◌, ◌/◌, ◌≡◌,
}

pub data WorkerState : Type 0 where
  starting running paused_captcha paused_limit idle stopped : WorkerState

-- `STATE_LABEL`
unfoldable pub state_label : WorkerState → Text
state_label starting = codes "запускается"
state_label running = codes "работает"
state_label paused_captcha = codes "капча"
state_label paused_limit = codes "лимит"
state_label idle = codes "пачка отработана"
state_label stopped = codes "остановлен"

-- `nextRunText` of the seconds until the run, none where there is no run
unfoldable pub next_run_text : Option ℤ → Text
next_run_text none = codes "—"
next_run_text (some (negsuc n)) = codes "сейчас"
next_run_text (some (pos n)) =
    if eqb n 0
    then codes "сейчас"
    else if ltb n 60
    then codes "через " ++ show_nat n ++ codes " с"
    else codes "через " ++ show_nat ((n + 30) / 60) ++ codes " мин"

-- The answer of the backend, as far as the bar shows it.
pub record WorkerStatus : Type 0 where
  pub state : WorkerState
  pub last_error : Option Text

pub data Dot : Type 0 where
  err ok warn muted : Dot

abbrev pub is_running : WorkerState → Bool
is_running running = true
is_running _ = false

abbrev state_dot : WorkerState → Dot
state_dot running = ok
state_dot paused_captcha = warn
state_dot paused_limit = warn
state_dot starting = warn
state_dot idle = muted
state_dot stopped = muted

-- `state`, `isOn` and `dot`, none while the status is not known
abbrev pub state_of : Option WorkerStatus → WorkerState
state_of none = stopped
state_of (some status) = status.state

unfoldable pub is_on : Option WorkerStatus → Bool
is_on status = elim (state_of status) [ stopped ↦ false | _ ↦ true ]

abbrev has_error : Option WorkerStatus → Bool
has_error none = false
has_error (some status) = not (is_empty (or_else status.last_error []))

unfoldable pub dot : Option WorkerStatus → Dot
dot status = if has_error status then err else state_dot (state_of status)

state_dot-ok : (state : WorkerState) → state_dot state ≡ ok → state ≡ running
state_dot-ok running h = refl
state_dot-ok starting h = ground arith
state_dot-ok paused_captcha h = ground arith
state_dot-ok paused_limit h = ground arith
state_dot-ok idle h = ground arith
state_dot-ok stopped h = ground arith

-- The green dot means a running worker without an error, which the button can stop.
pub dot-ok :
    (status : WorkerStatus)
    → dot (some status) ≡ ok
    → (status.state ≡ running)
      × (is_empty (or_else status.last_error []) ≡ true)
      × (is_on (some status) ≡ true)
unfolding dot is_on
dot-ok status h = elim (Bool-cases (is_empty (or_else status.last_error []))) [
  | inl e ↦ let green = state_dot-ok status.state (rw e at h) in (green, e, rw green refl)
  | inr e ↦ let no : err ≡ ok = rw e at h in ground arith
]
