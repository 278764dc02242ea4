-- ===== src/Ext/Content/Settles.antt =====
-- ext/entrypoints/content.ts: the state that a run of the autofill leaves the panel in.
use otclick_hh.Common.{
  Bool-cases, List, Option, Text, [], codes, includes, inl, inr, is_empty, length, map, none,
  or_else, refl, some, ℕ, ◌++◌, ◌∙◌, ◌∷◌, ◌≡◌,
}
use otclick_hh.Ext.Dom.{Dom}
use otclick_hh.Ext.DeterministicFill.{deterministic_fields}
use otclick_hh.Ext.Api.{merge_frame_fields}
use otclick_hh.Ext.Snapshot.Observe.{SnapshotEl}
use otclick_hh.Ext.Filler.Actions.{Actions}
use otclick_hh.Ext.Panel.{FillState, done, error, settings, working}
use otclick_hh.Ext.Content.{
  ContextReply, End, FillReply, PanelCall, Reply, St, TabState, after_context, after_fill,
  after_snapshot, and_then, answer, apply_with, ask_rest, call, caught, failure_text, filled,
  finish, quick_fill, raises, remaining_of, returns, run_fill, state, tab, throws, to_form,
}

abbrev state_of : PanelCall → Option FillState
state_of (state s) = some s
state_of (filled fs) = none
state_of (tab t) = none

abbrev later_or : Option FillState → Option FillState → Option FillState
later_or (some s) o = some s
later_or none o = o

-- The state that the panel was last put in.
unfoldable pub last_state : List PanelCall → Option FillState
last_state [] = none
last_state (c ∷ cs) = later_or (last_state cs) (state_of c)

pub last_state-append :
    (cs : List PanelCall) (c : PanelCall)
    → last_state (cs ++ c ∷ []) ≡ later_or (state_of c) (last_state cs)
unfolding last_state
last_state-append [] (state s) = refl
last_state-append [] (filled fs) = refl
last_state-append [] (tab t) = refl
last_state-append (b ∷ cs) (state s) = rw (last_state-append cs (state s)) refl
last_state-append (b ∷ cs) (filled fs) = rw (last_state-append cs (filled fs)) refl
last_state-append (b ∷ cs) (tab t) = rw (last_state-append cs (tab t)) refl

-- The panel shows the number of fields that were applied, or an error.
pub data IsSettled {W : Type 0} (t : TabState W) : Type 0 where
  finished : last_state t.calls ≡ some (done (length t.last_applied)) → IsSettled t
  failed : (message : Text) → last_state t.calls ≡ some (error message) → IsSettled t

abbrev pub Settles : {W : Type 0} → TabState W × End → Type 0
Settles (t, returns) = IsSettled t
Settles (t, raises e) = Unit

module _ {Blob : Type 0} (d : Dom) (a : Actions d Blob) (document : d.Root) (depth : ℕ)
    (fold : ℕ → ℕ) (take_snapshot : d.World → d.World × Reply (List SnapshotEl))
    (context : Reply ContextReply) (fill_page : List SnapshotEl → Reply FillReply) where
  abbrev S : Type 0
  S = St d a document depth fold take_snapshot context fill_page

  error-IsSettled : (t : S) (m : Text) → IsSettled (call (state (error m)) t)
  error-IsSettled t m = failed m (last_state-append t.calls (state (error m)))

  finish-Settles :
      (t : S) → Settles (finish d a document depth fold take_snapshot context fill_page t)
  unfolding finish
  finish-Settles t = finished (last_state-append t.calls (state (done (length t.last_applied))))

  and_then-Settles :
      (r : S × End) (next : S → S × End)
      → ((t : S) → Settles (next t))
      → Settles (and_then d a document depth fold take_snapshot context fill_page r next)
  and_then-Settles (t, returns) next h = h t
  and_then-Settles (t, raises e) next h = tt

  after_fill-Settles :
      (els : List SnapshotEl) (r : Reply FillReply) (t : S)
      → Settles (after_fill d a document depth fold take_snapshot context fill_page els r t)
  unfolding after_fill
  after_fill-Settles els (throws e) t = tt
  after_fill-Settles els (answer resp) t =
      elim (Bool-cases (is_empty (failure_text resp.failure))) [
        | inl good ↦ rw good (
            and_then-Settles
              (apply_with d a document depth fold take_snapshot context fill_page
                (λ fs. t.last_applied ++ fs) (merge_frame_fields resp.frames 0) els t)
              (finish d a document depth fold take_snapshot context fill_page) finish-Settles)
        | inr bad ↦ rw bad tt
      ]

  ask_rest-Settles :
      (els rest : List SnapshotEl) (t : S)
      → Settles (ask_rest d a document depth fold take_snapshot context fill_page els rest t)
  unfolding ask_rest
  ask_rest-Settles els [] t = finish-Settles t
  ask_rest-Settles els (r ∷ rs) t = after_fill-Settles els (fill_page (r ∷ rs)) t

  after_context-Settles :
      (els : List SnapshotEl) (r : Reply ContextReply) (t : S)
      → Settles (after_context d a document depth fold take_snapshot context fill_page els r t)
  unfolding after_context
  after_context-Settles els (throws e) t = tt
  after_context-Settles els (answer ctx) t =
      elim (Bool-cases (is_empty (failure_text ctx.failure))) [
        | inl good ↦ rw good (
            let quick =
              deterministic_fields fold (map to_form els) (or_else ctx.facts []) ctx.resume in
            and_then-Settles
              (quick_fill d a document depth fold take_snapshot context fill_page els quick t)
              (ask_rest d a document depth fold take_snapshot context fill_page els
                (remaining_of quick els))
              (ask_rest-Settles els (remaining_of quick els)))
        | inr bad ↦ rw bad tt
      ]

  after_snapshot-Settles :
      (r : Reply (List SnapshotEl)) (t : S)
      → Settles (after_snapshot d a document depth fold take_snapshot context fill_page r t)
  unfolding after_snapshot
  after_snapshot-Settles (throws e) t = tt
  after_snapshot-Settles (answer []) t = error-IsSettled t _
  after_snapshot-Settles (answer (el ∷ els)) t = after_context-Settles (el ∷ els) context t

  caught-IsSettled :
      (r : S × End)
      → Settles r
      → IsSettled (caught d a document depth fold take_snapshot context fill_page r)
  unfolding caught
  caught-IsSettled (t, returns) h = h
  caught-IsSettled (t, raises e) h = elim (Bool-cases (includes e (codes "unauthorized"))) [
    | inl signed_out ↦ rw signed_out (
        failed _ (
          last_state-append (call (state (error (codes "Войдите в аккаунт Otclick."))) t).calls
            (tab settings)
          ∙ last_state-append t.calls (state (error (codes "Войдите в аккаунт Otclick.")))))
    | inr other ↦ rw other (error-IsSettled t _)
  ]

  -- Whatever the snapshot and the background answer, and also where they throw, a run of the
  -- autofill ends with the panel showing the number of fields in `lastApplied`, or an error: it
  -- never stays in its working state.
  pub run_fill-IsSettled :
      (t : S) → IsSettled (run_fill d a document depth fold take_snapshot context fill_page t)
  unfolding run_fill
  run_fill-IsSettled t =
      let begun = call (state working) t in
      let (w, els) = take_snapshot begun.world in
      let start : S = record begun { world = w } in
      caught-IsSettled
        (after_snapshot d a document depth fold take_snapshot context fill_page els start)
        (after_snapshot-Settles els start)
