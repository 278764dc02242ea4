-- ===== src/Web/Toaster.antt =====
-- frontend/src/components/toaster.tsx: the toasts on the screen and the timers that take them off.
use otclick_hh.Common.{
  All, All-append, All-map_pred, Bool, Bool-cases, List, Option, Text, [], any, arith, false, inl,
  inr, keep, none, not, or_else, refl, some, suc, text_eq, text_eq_refl, true, zero, ℕ, ◌++◌, ◌||◌,
  ◌∷◌, ◌≡◌,
}

pub data ToastKind : Type 0 where
  info success warning error : ToastKind

pub record ToastPayload : Type 0 where
  pub id : Option Text
  pub kind : Option ToastKind
  pub title : Text
  pub body : Option Text
  pub duration : Option ℕ

pub record Toast : Type 0 where
  pub id : Text
  pub kind : ToastKind
  pub title : Text
  pub body : Option Text
  pub duration : ℕ

-- The toasts, and the timers that are running, by the id that they were set for.
pub record Toaster : Type 0 where
  pub toasts : List Toast
  pub timers : List Text

abbrev pub no_toasts : Toaster
no_toasts = record { toasts = []; timers = [] }

-- `uuid` is the answer of `crypto.randomUUID()`.
unfoldable pub to_toast : Text → ToastPayload → Toast
to_toast uuid detail = record {
  id = or_else detail.id uuid;
  kind = or_else detail.kind info;
  title = detail.title;
  body = detail.body;
  duration = or_else detail.duration 5000;
}

-- `onToast`
unfoldable pub on_toast : Text → ToastPayload → Toaster → Toaster
on_toast uuid detail s =
    let t = to_toast uuid detail in record { toasts = s.toasts ++ t ∷ []; timers = t.id ∷ s.timers }

-- the click on a toast's button
unfoldable pub dismiss : Text → Toaster → Toaster
dismiss id s = record s { toasts = keep (λ x. not (text_eq x.id id)) s.toasts }

-- the timer set last but `n` runs out
abbrev pub drop_at : ℕ → List Text → List Text
drop_at n [] = []
drop_at zero (t ∷ ts) = ts
drop_at (suc n) (t ∷ ts) = t ∷ drop_at n ts

abbrev pub timer_at : ℕ → List Text → Option Text
timer_at n [] = none
timer_at zero (t ∷ ts) = some t
timer_at (suc n) (t ∷ ts) = timer_at n ts

abbrev pub run_with : Option Text → ℕ → Toaster → Toaster
run_with none n s = s
run_with (some id) n s = record s {
  toasts = keep (λ x. not (text_eq x.id id)) s.toasts;
  timers = drop_at n s.timers;
}

unfoldable pub run_out : ℕ → Toaster → Toaster
run_out n s = run_with (timer_at n s.timers) n s

pub data Step : Toaster → Toaster → Type 0 where
  pushed : (s : Toaster) (uuid : Text) (detail : ToastPayload) → Step s (on_toast uuid detail s)
  clicked : (s : Toaster) (id : Text) → Step s (dismiss id s)
  timed_out : (s : Toaster) (n : ℕ) → Step s (run_out n s)

pub data Reachable : Toaster → Type 0 where
  first : Reachable no_toasts
  next : {s t : Toaster} → Reachable s → Step s t → Reachable t

-- A timer runs that takes the toast off.
abbrev pub IsTimed : List Text → Toast → Type 0
IsTimed timers t = any (text_eq t.id) timers ≡ true

any-weaken : (p : Bool) (b : Bool) → b ≡ true → (p || b) ≡ true
any-weaken p b h = ground arith

any-drop_at :
    (n : ℕ) (ts : List Text) (id other : Text)
    → timer_at n ts ≡ some id
    → text_eq other id ≡ false
    → any (text_eq other) ts ≡ true
    → any (text_eq other) (drop_at n ts) ≡ true
any-drop_at n [] id other e ne h = ground arith
any-drop_at zero (t ∷ ts) id other e ne h =
    let same : t ≡ id = ground arith in
    let no : text_eq other t ≡ false = rw same ne in ground arith
any-drop_at (suc n) (t ∷ ts) id other e ne h = ground (arith, any-drop_at n ts id other)

All-keep_both :
    (P Q : Toast → Type 0) (p : Toast → Bool) (xs : List Toast)
    → ((x : Toast) → P x → p x ≡ true → Q x)
    → All P xs
    → All Q (keep p xs)
All-keep_both P Q p [] f h = tt
All-keep_both P Q p (x ∷ xs) f (h, hs) = elim (Bool-cases (p x)) [
  | inl e ↦ rw e (f x h e, All-keep_both P Q p xs f hs)
  | inr e ↦ rw e (All-keep_both P Q p xs f hs)
]

kept_id : (t : Toast) (id : Text) → not (text_eq t.id id) ≡ true → text_eq t.id id ≡ false
kept_id t id h = ground arith

run_with-IsTimed :
    (n : ℕ) (s : Toaster) (o : Option Text)
    → timer_at n s.timers ≡ o
    → All (IsTimed s.timers) s.toasts
    → All (IsTimed (run_with o n s).timers) (run_with o n s).toasts
run_with-IsTimed n s none e h = h
run_with-IsTimed n s (some id) e h =
    All-keep_both (IsTimed s.timers) (IsTimed (drop_at n s.timers)) _ s.toasts
      (λ x k ne. any-drop_at n s.timers id x.id e (kept_id x id ne) k) h

Step-IsTimed :
    {s t : Toaster} → Step s t → All (IsTimed s.timers) s.toasts → All (IsTimed t.timers) t.toasts
unfolding on_toast dismiss run_out
Step-IsTimed (pushed s uuid detail) h =
    let t = to_toast uuid detail in
    All-append (IsTimed (t.id ∷ s.timers)) s.toasts (t ∷ [])
      (All-map_pred (IsTimed s.timers) (IsTimed (t.id ∷ s.timers)) (λ x e. any-weaken _ _ e)
        s.toasts h)
      (rw (text_eq_refl t.id) refl, tt)
Step-IsTimed (clicked s id) h =
    All-keep_both (IsTimed s.timers) (IsTimed s.timers) _ s.toasts (λ x e k. e) h
Step-IsTimed (timed_out s n) h = run_with-IsTimed n s (timer_at n s.timers) refl h

-- Every toast on the screen has a timer that will take it off, whatever was pushed, clicked away
-- or timed out before, toasts with one id included.
pub Reachable-IsTimed : {s : Toaster} → Reachable s → All (IsTimed s.timers) s.toasts
Reachable-IsTimed first = tt
Reachable-IsTimed (next r step) = Step-IsTimed step (Reachable-IsTimed r)
