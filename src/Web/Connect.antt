-- ===== src/Web/Connect.antt =====
-- frontend/src/hooks/useHHConnect.ts: linking the hh.ru account, as a state machine.
use otclick_hh.Common.{
  All, All-map_pred, Bool, List, Memᴰ, Option, Text, [], false, if◌then◌else◌, inl, inr, none, refl,
  some, true, ◌++◌, ◌∙◌, ◌∷◌, ◌≡◌, ◌⊎◌,
}

pub data JobStatus : Type 0 where
  idle running captcha_required code_required success failed : JobStatus

-- The state of the hook; `poll` is the job that the interval of `pollRef` asks for.
pub record Connect : Type 0 where
  pub phase : JobStatus
  pub job_id : Option Text
  pub screenshot_url : Option Text
  pub error : Option Text
  pub submitting : Bool
  pub poll : Option Text

-- the hook before the first call
abbrev pub initial : Connect
initial = record {
  phase = idle;
  job_id = none;
  screenshot_url = none;
  error = none;
  submitting = false;
  poll = none;
}

pub record JobStatusResponse : Type 0 where
  pub status : JobStatus
  pub screenshot_url : Option Text
  pub error : Option Text

-- What a request comes back with: a job and its status, or the message of what was thrown.
pub data Started : Type 0 where
  started : Text → JobStatus → Started
  not_started : Text → Started

pub data Polled : Type 0 where
  polled : JobStatusResponse → Polled
  poll_failed : Text → Polled

-- `none` is a request that went through.
abbrev pub Submitted : Type 0
Submitted = Option Text

abbrev pub is_ended : JobStatus → Bool
is_ended success = true
is_ended failed = true
is_ended _ = false

unfoldable pub stop_poll : Connect → Connect
stop_poll s = record s { poll = none }

-- `start` and `startEmailCode` up to their `await`, which differ only in the request's body
unfoldable pub start : Connect → Connect
start s = record s { error = none; submitting = true }

abbrev pub start_result : Started → Connect → Connect
start_result (started id status) s = record s { job_id = some id; phase = status; poll = some id }
start_result (not_started e) s = record s { phase = failed; error = some e }

-- after their `await`, the `finally` included
unfoldable pub start_done : Started → Connect → Connect
start_done r s = record (start_result r s) { submitting = false }

-- `submitCaptcha` and `submitEmailCode` up to their `await`, with the job they are sent to
unfoldable pub submit : Connect → Connect × Option Text
submit s = elim s.job_id [
  | none ↦ (s, none)
  | some id ↦ (record s { submitting = true; error = none }, some id)
]

abbrev pub captcha_result : Text → Submitted → Connect → Connect
captcha_result id none s = record s { phase = running; screenshot_url = none; poll = some id }
captcha_result id (some e) s = record s { error = some e }

abbrev pub code_result : Text → Submitted → Connect → Connect
code_result id none s = record s { phase = running; poll = some id }
code_result id (some e) s = record s { error = some e }

-- after their `await`
unfoldable pub captcha_done : Text → Submitted → Connect → Connect
captcha_done id r s = record (captcha_result id r s) { submitting = false }

unfoldable pub code_done : Text → Submitted → Connect → Connect
code_done id r s = record (code_result id r s) { submitting = false }

abbrev pub poll_result : Polled → Connect → Connect
poll_result (polled data') s = record s {
  phase = data'.status;
  screenshot_url = data'.screenshot_url;
  error = data'.error;
  poll = if is_ended data'.status then none else s.poll;
}
poll_result (poll_failed e) s = record s { poll = none; phase = failed; error = some e }

-- `reset`
unfoldable pub reset : Connect → Connect
reset s = record s { poll = none; phase = idle; job_id = none; screenshot_url = none; error = none }

-- A use of the hook: its state, the jobs that its start gave, and those that the user's answers were
-- posted to.
pub record Use : Type 0 where
  pub hook : Connect
  pub begun : List Text
  pub posted : List Text

abbrev pub first_use : Use
first_use = record { hook = initial; begun = []; posted = [] }

abbrev pub job_of : Started → List Text
job_of (started id status) = id ∷ []
job_of (not_started e) = []

abbrev pub submit_use : Connect × Option Text → Use → Use
submit_use (s, none) u = record u { hook = s }
submit_use (s, some id) u = record u { hook = s; posted = id ∷ u.posted }

-- The steps of the hook, in any order: the calls and what comes back. A submit is answered only
-- after it was posted, but the hook may have been reset or started again since.
pub data Step : Use → Use → Type 0 where
  begin : (u : Use) → Step u (record u { hook = start u.hook })
  begun_with :
      (u : Use) (r : Started)
      → Step u (record u { hook = start_done r u.hook; begun = job_of r ++ u.begun })
  submitted : (u : Use) → Step u (submit_use (submit u.hook) u)
  captcha_end :
      (u : Use) (id : Text) (r : Submitted)
      → Memᴰ id u.posted
      → Step u (record u { hook = captcha_done id r u.hook })
  code_end :
      (u : Use) (id : Text) (r : Submitted)
      → Memᴰ id u.posted
      → Step u (record u { hook = code_done id r u.hook })
  poll_end : (u : Use) (r : Polled) → Step u (record u { hook = poll_result r u.hook })
  reset_all : (u : Use) → Step u (record u { hook = reset u.hook })
  unmount : (u : Use) → Step u (record u { hook = stop_poll u.hook })

pub data Reachable : Use → Type 0 where
  first : Reachable first_use
  next : {u v : Use} → Reachable u → Step u v → Reachable v

-- No job is polled, the one that the page shows is, or one that an answer was posted to.
abbrev pub PollsOwn : Connect → List Text → Type 0
PollsOwn s posted =
    (s.poll ≡ none) ⊎ (s.poll ≡ s.job_id) ⊎ ((id : Text) × (s.poll ≡ some id) × Memᴰ id posted)

-- Besides, the job that the page shows and those that were posted to are jobs that a start gave.
abbrev pub IsLinked : Use → Type 0
IsLinked u =
    PollsOwn u.hook u.posted
    × ((u.hook.job_id ≡ none) ⊎ ((id : Text) × (u.hook.job_id ≡ some id) × Memᴰ id u.begun))
    × All (λ id. Memᴰ id u.begun) u.posted

poll_or_none :
    (b : Bool) (s : Connect) (posted : List Text)
    → PollsOwn s posted
    → PollsOwn (record s { poll = if b then none else s.poll }) posted
poll_or_none true s posted h = inl refl
poll_or_none false s posted h = h

submit_use-IsLinked : (u : Use) → IsLinked u → IsLinked (submit_use (submit u.hook) u)
unfolding submit
submit_use-IsLinked u (p, inl j, b) = rw j (rw j at p, inl refl, b)
submit_use-IsLinked u (inl p, inr (id, j, m), b) = rw j (inl p, inr (id, refl, m), (m, b))
submit_use-IsLinked u (inr (inl p), inr (id, j, m), b) =
    rw j (inr (inl (p ∙ j)), inr (id, refl, m), (m, b))
submit_use-IsLinked u (inr (inr (i, p, k)), inr (id, j, m), b) =
    rw j (inr (inr (i, p, Memᴰ.tail k)), inr (id, refl, m), (m, b))

Step-IsLinked : {u v : Use} → Step u v → IsLinked u → IsLinked v
unfolding start start_done captcha_done code_done reset stop_poll
Step-IsLinked (Step.begin u) h = h
Step-IsLinked (Step.begun_with u (started i status)) (p, j, b) = (
  inr (inl refl),
  inr (i, refl, Memᴰ.head refl),
  All-map_pred (λ id. Memᴰ id u.begun) (λ id. Memᴰ id (i ∷ u.begun)) (λ id m. Memᴰ.tail m) u.posted
      b,
)
Step-IsLinked (Step.begun_with u (not_started e)) h = h
Step-IsLinked (Step.submitted u) h = submit_use-IsLinked u h
Step-IsLinked (Step.captcha_end u i none m) (p, j, b) = (inr (inr (i, refl, m)), j, b)
Step-IsLinked (Step.captcha_end u i (some e) m) h = h
Step-IsLinked (Step.code_end u i none m) (p, j, b) = (inr (inr (i, refl, m)), j, b)
Step-IsLinked (Step.code_end u i (some e) m) h = h
Step-IsLinked (Step.poll_end u (polled data')) (p, j, b) =
    (poll_or_none (is_ended data'.status) u.hook u.posted p, j, b)
Step-IsLinked (Step.poll_end u (poll_failed e)) (p, j, b) = (inl refl, j, b)
Step-IsLinked (Step.reset_all u) (p, j, b) = (inl refl, inl refl, b)
Step-IsLinked (Step.unmount u) (p, j, b) = (inl refl, j, b)

-- Whatever the order of calls and answers, a submit answered after a reset included, the hook polls
-- no job, the one that the page shows, or one that the user's answer was posted to; and both the
-- shown job and the jobs posted to are among those that its own start gave.
pub Reachable-IsLinked : {u : Use} → Reachable u → IsLinked u
Reachable-IsLinked Reachable.first = (inl refl, inl refl, tt)
Reachable-IsLinked (Reachable.next r step) = Step-IsLinked step (Reachable-IsLinked r)

-- When the user resets while a submit is on its way and the submit then goes through, the hook
-- polls the job that was left, shows it as running, and has no job itself.
pub reset_in_flight :
    (s : Connect) (id : Text)
    → (submit s).1 ≡ some id
    → let t = captcha_done id none (reset (submit s).0) in
      (t.poll ≡ some id) × (t.phase ≡ running) × (t.job_id ≡ none)
unfolding captcha_done reset submit
reset_in_flight s id e = (refl, refl, refl)
