-- ===== src/Web/CaptchaModal.antt =====
-- frontend/src/components/captcha-modal.tsx: the captcha that waits for the user.
pub mod Solved
use otclick_hh.Common.{
  Bool, List, Option, Text, [], codes, if◌then◌else◌, is_empty, none, not, or_else, some, text_eq,
  trim, ◌++◌, ◌∷◌,
}

pub record CaptchaRequest : Type 0 where
  pub id : Text
  pub storage_path : Option Text
  pub solved : Bool

-- `pending`, `imageUrl`, `solution`, and what was posted to the backend, the last path first
pub record Modal : Type 0 where
  pub pending : Option CaptchaRequest
  pub image_url : Option Text
  pub solution : Text
  pub posted : List (Text × Text)

abbrev pub closed_modal : Modal
closed_modal = record { pending = none; image_url = none; solution = []; posted = [] }

abbrev has_path : CaptchaRequest → Bool
has_path row = not (is_empty (or_else row.storage_path []))

-- `refreshImage` until its request: without a picture there is none to show
unfoldable pub refresh_image : CaptchaRequest → Modal → Modal
refresh_image row s = if has_path row then s else record s { image_url = none }

-- the answer to it
unfoldable pub image_signed : Option Text → Modal → Modal
image_signed url s = record s { image_url = url }

-- `loadPending` after its query, `none` for an error; the query asks for one row
unfoldable pub load_pending : Option (Option CaptchaRequest) → Modal → Modal
unfolding refresh_image
load_pending none s = s
load_pending (some none) s = record s { pending = none; image_url = none }
load_pending (some (some row)) s = refresh_image row (record s { pending = some row })

-- the query of the effect of `forcedOpen`; a row without a picture keeps the one that is shown
unfoldable pub forced_open : Option CaptchaRequest → Modal → Modal
forced_open none s = s
forced_open (some row) s = record s { pending = some row }

-- the INSERT that the channel tells of
unfoldable pub on_insert : CaptchaRequest → Modal → Modal
unfolding refresh_image
on_insert row s = if row.solved then s else refresh_image row (record s { pending = some row })

-- its UPDATE
unfoldable pub on_update : CaptchaRequest → Modal → Modal
on_update row s = elim s.pending [
  | none ↦ s
  | some prev ↦
      if not (text_eq prev.id row.id)
      then s
      else if row.solved
      then record s { pending = none; image_url = none }
      else record s { pending = some row }
]

abbrev solve_path : CaptchaRequest → Text
solve_path row = codes "/api/captcha/" ++ row.id ++ codes "/solve"

-- `handleSolve`; `answered` tells whether the request came through
unfoldable pub handle_solve : Bool → Modal → Modal
handle_solve answered s = elim s.pending [
  | none ↦ s
  | some row ↦ if is_empty (trim s.solution) then s else record s {
    posted = (solve_path row, trim s.solution) ∷ s.posted;
    solution = if answered then [] else s.solution;
  }
]

-- `handleDismiss`
unfoldable pub handle_dismiss : Modal → Modal
handle_dismiss s =
    let closed = record s { pending = none; image_url = none; solution = [] } in
    elim s.pending [
      | none ↦ closed
      | some row ↦ if is_empty row.id then closed else record closed {
        posted = (codes "/api/captcha/" ++ row.id ++ codes "/dismiss", []) ∷ s.posted;
      }
    ]

pub data Event : Type 0 where
  loaded : Option (Option CaptchaRequest) → Event
  forced : Option CaptchaRequest → Event
  inserted updated : CaptchaRequest → Event
  signed : Option Text → Event
  typing : Text → Event
  solving : Bool → Event
  dismissing : Event

unfoldable pub happen : Event → Modal → Modal
unfolding load_pending forced_open on_insert on_update image_signed handle_solve handle_dismiss
happen (loaded answer) s = load_pending answer s
happen (forced row) s = forced_open row s
happen (inserted row) s = on_insert row s
happen (updated row) s = on_update row s
happen (signed url) s = image_signed url s
happen (typing text) s = record s { solution = text }
happen (solving answered) s = handle_solve answered s
happen dismissing s = handle_dismiss s

unfoldable pub happen_all : List Event → Modal → Modal
unfolding happen
happen_all [] s = s
happen_all (e ∷ es) s = happen_all es (happen e s)
