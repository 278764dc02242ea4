-- ===== src/Ext/Content.antt =====
-- ext/entrypoints/content.ts: one run of the autofill, and the saving of the user's corrections.
pub mod Settles
use otclick_hh.Common.{
  List, Option, String, Text, [], any, codes, if◌then◌else◌, includes, is_empty, join, keep, length,
  map, none, not, or_else, some, text_eq, trim, ℕ, ◌++◌, ◌∷◌,
}
use otclick_hh.Ext.Api.{FilledField, Frame, LabelledField, merge_frame_fields, with_labels}
use otclick_hh.Ext.DeterministicFill.{FormEl, Resume, deterministic_fields}
use otclick_hh.Ext.Edits.{Current, QaItem, collect_edits}
use otclick_hh.Ext.Dom.{Dom}
use otclick_hh.Ext.Snapshot.Observe.{SnapshotEl}
use otclick_hh.Ext.Filler.Actions.{Actions}
use otclick_hh.Ext.Filler.Apply.{apply}
use otclick_hh.Ext.Panel.{FillState, Tab, done, error, saved, settings, working}

-- What an awaited call gives: a value, or an error `e` with the text `String(e)`.
pub data Reply {ℓ} (A : Type ℓ) : Type ℓ where
  answer : A → Reply A
  throws : Text → Reply A

-- A call of the panel's controller.
pub data PanelCall : Type 0 where
  state : FillState → PanelCall
  filled : List LabelledField → PanelCall
  tab : Tab → PanelCall

pub record ContextReply : Type 0 where
  pub facts : Option (List (String × Text))
  pub resume : Option Resume
  pub failure : Option Text

pub record FillReply : Type 0 where
  pub frames : List Frame
  pub failure : Option Text

-- `throw new Error(message)` shows as "Error: message".
abbrev pub raised : Text → Text
raised message = codes "Error: " ++ message

-- `if (resp?.error) throw new Error(resp.error)`
abbrev pub failure_text : Option Text → Text
failure_text o = or_else o []

abbrev pub to_form : SnapshotEl → FormEl
to_form s = record {
  ref = s.ref;
  selector = s.selector;
  field_type = s.field_type;
  label = some s.label;
  required = some s.required;
}

abbrev pub label_pair : SnapshotEl → Text × Option Text
label_pair s = (s.ref, some s.label)

-- `lastApplied`, the page, and the calls of the panel so far
pub record TabState (W : Type 0) : Type 0 where
  pub world : W
  pub last_applied : List LabelledField
  pub calls : List PanelCall

abbrev pub call : {W : Type 0} → PanelCall → TabState W → TabState W
call c t = record t { calls = t.calls ++ c ∷ [] }

-- `els.filter((el) => !quick.some((q) => q.ref === el.ref))`
unfoldable pub remaining_of : List FilledField → List SnapshotEl → List SnapshotEl
remaining_of quick els = keep (λ el. not (any (λ q. text_eq q.ref el.ref) quick)) els

-- How a run of the body ends: it returns, or it throws.
pub data End : Type 0 where
  returns : End
  raises : Text → End

-- `take_snapshot` is the asynchronous snapshot, `context` and `fill_page` are the background's
-- replies to CONTEXT and to FILL_PAGE, for the elements that are sent.
module _ {Blob : Type 0} (d : Dom) (a : Actions d Blob) (document : d.Root) (depth : ℕ)
    (fold : ℕ → ℕ) (take_snapshot : d.World → d.World × Reply (List SnapshotEl))
    (context : Reply ContextReply) (fill_page : List SnapshotEl → Reply FillReply) where
  abbrev pub St : Type 0
  St = TabState d.World

  -- `applyFill`, then `withLabels`, from the state `t`
  abbrev show_applied :
      (List LabelledField → List LabelledField)
      → List SnapshotEl
      → St
      → d.World × Option (List FilledField)
      → St × End
  show_applied join els t (w, none) = (record t { world = w }, raises a.selector_error)
  show_applied join els t (w, some applied) =
      let now = join (with_labels applied (map label_pair els)) in
      (record t { world = w; last_applied = now; calls = t.calls ++ filled now ∷ [] }, returns)

  abbrev pub apply_with :
      (List LabelledField → List LabelledField) → List FilledField → List SnapshotEl → St → St × End
  apply_with join fields els t = show_applied join els t (apply d a document depth t.world fields)

  -- what follows, unless there was an exception
  abbrev pub and_then : St × End → (St → St × End) → St × End
  and_then (t, returns) next = next t
  and_then (t, raises e) next = (t, raises e)

  finish : St → St × End
  finish t = (call (state (done (length t.last_applied))) t, returns)

  -- the reply to FILL_PAGE and what follows it
  after_fill : List SnapshotEl → Reply FillReply → St → St × End
  unfolding finish
  after_fill els (throws e) t = (t, raises e)
  after_fill els (answer resp) t =
      if is_empty (failure_text resp.failure)
      then and_then
          (apply_with (λ fs. t.last_applied ++ fs) (merge_frame_fields resp.frames 0) els t) finish
      else (t, raises (raised (failure_text resp.failure)))

  -- the part for the elements that are left
  ask_rest : List SnapshotEl → List SnapshotEl → St → St × End
  unfolding finish after_fill
  ask_rest els [] t = finish t
  ask_rest els (r ∷ rs) t = after_fill els (fill_page (r ∷ rs)) t

  quick_fill : List SnapshotEl → List FilledField → St → St × End
  quick_fill els [] t = (record t { last_applied = [] }, returns)
  quick_fill els (q ∷ qs) t = apply_with (λ fs. fs) (q ∷ qs) els (record t { last_applied = [] })

  -- the reply to CONTEXT and what follows it
  after_context : List SnapshotEl → Reply ContextReply → St → St × End
  unfolding ask_rest quick_fill
  after_context els (throws e) t = (t, raises e)
  after_context els (answer ctx) t =
      if is_empty (failure_text ctx.failure)
      then (let quick =
            deterministic_fields fold (map to_form els) (or_else ctx.facts []) ctx.resume in
          and_then (quick_fill els quick t) (ask_rest els (remaining_of quick els)))
      else (t, raises (raised (failure_text ctx.failure)))

  after_snapshot : Reply (List SnapshotEl) → St → St × End
  unfolding after_context
  after_snapshot (throws e) t = (t, raises e)
  after_snapshot (answer []) t =
      (call (state (error (codes "Полей на странице не найдено."))) t, returns)
  after_snapshot (answer (el ∷ els)) t = after_context (el ∷ els) context t

  -- the `catch`
  caught : St × End → St
  caught (t, returns) = t
  caught (t, raises e) =
      if includes e (codes "unauthorized")
      then call (tab settings) (call (state (error (codes "Войдите в аккаунт Otclick."))) t)
      else call (state (error (codes "Не удалось заполнить. Попробуйте ещё раз."))) t

  pub run_fill : St → St
  unfolding after_snapshot caught
  run_fill t =
      let begun = call (state working) t in
      let (w, els) = take_snapshot begun.world in
      caught (after_snapshot els (record begun { world = w }))

  -- `saveEdits`: `read` is `findEl` and `readFieldValue` on the page, `save_qa` the reply to SAVE_QA
  abbrev current_of : (LabelledField → Option Text) → LabelledField → Current
  current_of read f = record { ref = f.ref; label = f.label; value = trim (or_else (read f) []) }

  after_save : Reply (Option ℕ × Option Text) → St → St × End
  after_save (throws e) t = (t, raises e)
  after_save (answer (n, failure)) t =
      if is_empty (failure_text failure)
      then (call (state (saved (or_else n 0))) t, returns)
      else (t, raises (raised (failure_text failure)))

  save_items : (List QaItem → Reply (Option ℕ × Option Text)) → List QaItem → St → St × End
  unfolding after_save
  save_items save_qa [] t = (call (state (saved 0)) t, returns)
  save_items save_qa (i ∷ is) t = after_save (save_qa (i ∷ is)) t

  save_caught : St × End → St
  save_caught (t, returns) = t
  save_caught (t, raises e) = call (state (error (codes "Не удалось сохранить правки."))) t

  pub save_edits :
      (LabelledField → Option Text) → (List QaItem → Reply (Option ℕ × Option Text)) → St → St
  unfolding save_items save_caught
  save_edits read save_qa t =
      save_caught
        (save_items save_qa (collect_edits t.last_applied (map (current_of read) t.last_applied)) t)
