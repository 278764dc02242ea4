-- ===== src/Web/CaptchaModal/Solved.antt =====
-- frontend/src/components/captcha-modal.tsx: what becomes of a captcha that was solved.
use otclick_hh.Common.{
  All, Bool, Bool-cases, List, Option, Option-cases, Text, [], false, inl, inr, is_empty, none,
  refl, some, text_eq, text_eq→eq, trim, true, ◌∷◌, ◌≡◌, ◌⊎◌,
}
use otclick_hh.Web.CaptchaModal.{
  CaptchaRequest, Event, Modal, dismissing, forced, forced_open, handle_dismiss, handle_solve,
  happen, happen_all, has_path, image_signed, inserted, load_pending, loaded, on_insert, on_update,
  refresh_image, signed, solving, typing, updated,
}

refresh_image-pending :
    (row : CaptchaRequest) (s : Modal) → (refresh_image row s).pending ≡ s.pending
unfolding refresh_image
refresh_image-pending row s = elim (Bool-cases (has_path row)) [
  | inl e ↦ rw e refl
  | inr e ↦ rw e refl
]

handle_solve-pending : (answered : Bool) (s : Modal) → (handle_solve answered s).pending ≡ s.pending
unfolding handle_solve
handle_solve-pending answered s = elim (Option-cases s.pending) [
  | inl e ↦ rw e refl
  | inr (row, e) ↦ elim (Bool-cases (is_empty (trim s.solution))) [
    | inl f ↦ rw (e, f) refl
    | inr f ↦ rw (e, f) refl
  ]
]

handle_dismiss-pending : (s : Modal) → (handle_dismiss s).pending ≡ none
unfolding handle_dismiss
handle_dismiss-pending s = elim (Option-cases s.pending) [
  | inl e ↦ rw e refl
  | inr (row, e) ↦ elim (Bool-cases (is_empty row.id)) [
    | inl f ↦ rw (e, f) refl
    | inr f ↦ rw (e, f) refl
  ]
]

-- No captcha is shown, or one with another id.
abbrev pub IsNotAbout : Text → Option CaptchaRequest → Type 0
IsNotAbout id none = Unit
IsNotAbout id (some row) = text_eq row.id id ≡ false

-- Neither a query answers with the captcha, nor is it inserted unsolved.
abbrev pub Spares : Text → Event → Type 0
Spares id (loaded (some answer)) = IsNotAbout id answer
Spares id (forced row) = IsNotAbout id row
Spares id (inserted row) = (row.solved ≡ true) ⊎ (text_eq row.id id ≡ false)
Spares id _ = Unit

on_update-IsNotAbout :
    (id : Text) (row : CaptchaRequest) (s : Modal)
    → IsNotAbout id s.pending
    → IsNotAbout id (on_update row s).pending
unfolding on_update
on_update-IsNotAbout id row s h = elim (Option-cases s.pending) [
  | inl e ↦ rw e tt
  | inr (prev, e) ↦ elim (Bool-cases (text_eq prev.id row.id)) [
    | inr f ↦ rw (e, f) (rw e at h)
    | inl f ↦
        let same = text_eq→eq prev.id row.id f in
        let other : text_eq prev.id id ≡ false = rw e at h in
        elim (Bool-cases row.solved) [
          | inl g ↦ rw (e, f, g) tt
          | inr g ↦ rw (e, f, g) (rw same at other)
        ]
  ]
]

shown-IsNotAbout :
    (id : Text) (row : CaptchaRequest) (s : Modal)
    → text_eq row.id id ≡ false
    → IsNotAbout id (refresh_image row (record s { pending = some row })).pending
shown-IsNotAbout id row s h = rw (refresh_image-pending row (record s { pending = some row })) h

on_insert-IsNotAbout :
    (id : Text) (row : CaptchaRequest) (s : Modal)
    → (row.solved ≡ true) ⊎ (text_eq row.id id ≡ false)
    → IsNotAbout id s.pending
    → IsNotAbout id (on_insert row s).pending
unfolding on_insert
on_insert-IsNotAbout id row s (inl e) h = rw e h
on_insert-IsNotAbout id row s (inr other) h = elim (Bool-cases row.solved) [
  | inl e ↦ rw e h
  | inr e ↦ rw e (shown-IsNotAbout id (record row { solved = false }) s other)
]

happen-IsNotAbout :
    (id : Text) (e : Event) (s : Modal)
    → Spares id e
    → IsNotAbout id s.pending
    → IsNotAbout id (happen e s).pending
unfolding happen load_pending forced_open image_signed
happen-IsNotAbout id (loaded none) s a h = h
happen-IsNotAbout id (loaded (some none)) s a h = tt
happen-IsNotAbout id (loaded (some (some row))) s a h = shown-IsNotAbout id row s a
happen-IsNotAbout id (forced none) s a h = h
happen-IsNotAbout id (forced (some row)) s a h = a
happen-IsNotAbout id (inserted row) s a h = on_insert-IsNotAbout id row s a h
happen-IsNotAbout id (updated row) s a h = on_update-IsNotAbout id row s h
happen-IsNotAbout id (signed url) s a h = h
happen-IsNotAbout id (typing text) s a h = h
happen-IsNotAbout id (solving answered) s a h = rw (handle_solve-pending answered s) h
happen-IsNotAbout id dismissing s a h = rw (handle_dismiss-pending s) tt

run-IsNotAbout :
    (id : Text) (es : List Event) (s : Modal)
    → All (Spares id) es
    → IsNotAbout id s.pending
    → IsNotAbout id (happen_all es s).pending
unfolding happen_all
run-IsNotAbout id [] s a h = h
run-IsNotAbout id (e ∷ es) s (a, as') h =
    run-IsNotAbout id es (happen e s) as' (happen-IsNotAbout id e s a h)

on_update-gone :
    (row : CaptchaRequest) (s : Modal)
    → row.solved ≡ true
    → IsNotAbout row.id (on_update row s).pending
unfolding on_update
on_update-gone row s h = elim (Option-cases s.pending) [
  | inl e ↦ rw e tt
  | inr (prev, e) ↦ elim (Bool-cases (text_eq prev.id row.id)) [
    | inl f ↦ rw (e, f, h) tt
    | inr f ↦ rw (e, f) f
  ]
]

-- Once the channel has told that a captcha is solved, the modal does not show it again, whatever
-- else the queries, the channel and the user do, and in whatever order, unless a query still
-- answers with it or it is inserted unsolved.
pub happen_all-IsNotAbout :
    (row : CaptchaRequest) (es : List Event) (s : Modal)
    → row.solved ≡ true
    → All (Spares row.id) es
    → IsNotAbout row.id (happen_all (updated row ∷ es) s).pending
unfolding happen_all happen
happen_all-IsNotAbout row es s h a =
    run-IsNotAbout row.id es (on_update row s) a (on_update-gone row s h)
