-- ===== src/Ext/Filler/Actions.antt =====
-- ext/lib/snapshot.ts: what `FormFiller` does to the page through the browser, and `waitForDom`.
use otclick_hh.Common.{
  Bool, List, Option, Option-cases, Text, [], inl, inr, none, some, ℕ, ◌∙◌, ◌∷◌, ◌≡◌,
}
use otclick_hh.Ext.Dom.{Dom}

pub data Fetched (Blob : Type 0) : Type 0 where
  fetched : Blob → Fetched Blob
  not_ok : Fetched Blob
  threw : Fetched Blob

pub record Actions (d : Dom) (Blob : Type 0) : Type 0 where
  -- the native value setter and the events `input` and `change`; `none` where the setter throws
  pub set_text : d.World → d.El → Text → Option d.World
  -- `el.checked = b` and the event `change`
  pub set_checked : d.World → d.El → Bool → d.World
  -- `_realClick`
  pub real_click : d.World → d.El → d.World
  -- `el.focus({ preventScroll: true })`
  pub focus : d.World → d.El → d.World
  -- a `<select>`: `selectedIndex` (`none` for -1), `sel.value = v`, `sel.selectedIndex = i`, and the
  -- event `change`
  pub selected_index : d.World → d.El → Option ℕ
  pub assign_value : d.World → d.El → Text → d.World
  pub assign_index : d.World → d.El → ℕ → d.World
  pub change_event : d.World → d.El → d.World
  -- `input.files = …` with its events, and `input.files.length`
  pub set_files : d.World → d.El → Blob → Text → d.World
  pub files_length : d.World → d.El → ℕ
  -- The page as it is at each mutation after a world, and last as it is when the time is up.
  pub mutations : d.World → List d.World
  -- the entry of `_fileCache`, with `none` inside for a prefetch that failed; `fetch`; and the
  -- background's answer to FETCH_FILE
  pub cached : Text → Option (Option Blob)
  pub fetch : Text → Fetched Blob
  pub background : Text → Option Blob
  -- whether `querySelector` takes a text as a selector, and the text of its exception where not
  pub is_selector : Text → Bool
  pub selector_error : Text

module _ {T W : Type 0} (check : W → Option T) where
  unfoldable pub wait_in : W → List W → Option T × W
  wait_in w [] = (none, w)
  wait_in w (w' ∷ ws) = elim (check w') [ some v ↦ (some v, w') | none ↦ wait_in w' ws ]

  -- `waitForDom`: the first answer, at once or at a mutation, or none when the time is up
  unfoldable pub wait_for_dom : W → List W → Option T × W
  unfolding wait_in
  wait_for_dom w ws = wait_in w (w ∷ ws)

  wait_in-check :
      (w : W) (ws : List W) (v : T) → (wait_in w ws).0 ≡ some v → check (wait_in w ws).1 ≡ some v
  unfolding wait_in
  wait_in-check w [] v h = cc
  wait_in-check w (w' ∷ ws) v h = elim (Option-cases (check w')) [
    | inl e ↦ rw (e, wait_in) (wait_in-check w' ws v (rw (e, wait_in) at h))
    | inr (u, e) ↦ rw (e, wait_in) (e ∙ (rw (e, wait_in) at h))
  ]

  -- The answer of a wait is what the check says of the page as the wait leaves it.
  pub wait_for_dom-check :
      (w : W) (ws : List W) (v : T)
      → (wait_for_dom w ws).0 ≡ some v
      → check (wait_for_dom w ws).1 ≡ some v
  unfolding wait_for_dom
  wait_for_dom-check w ws v h = wait_in-check w (w ∷ ws) v h
