-- ===== src/Ext/Dropdowns.antt =====
-- ext/lib/snapshot.ts, `PageObserver.observeWithOptions`: the choices of a dropdown that renders them
-- only when it is open, within a time budget and with a cache for the page's lifetime.
pub mod Budget
pub mod Cache
use otclick_hh.Common.{
  Bool, List, Option, Text, [], any, codes, head, if◌then◌else◌, is_empty, keep, ltb, map, none,
  not, or_else, or_text, some, trim, ℕ, ◌&&◌, ◌++◌, ◌+◌, ◌==◌, ◌∷◌,
}
use otclick_hh.Ext.Api.{map_get}
use otclick_hh.Ext.Dom.{Dom, collect_roots, find_el}
use otclick_hh.Ext.Filler.Actions.{wait_for_dom}
use otclick_hh.Ext.Snapshot.Elements.{attr_or, is_visible}
use otclick_hh.Ext.Snapshot.Options.{collect_opts, is_placeholder}
use otclick_hh.Ext.Snapshot.Picks.{candidates, no_groups, picks, ref_of}
use otclick_hh.Ext.Snapshot.Observe.{SnapshotEl, observe}

-- What opening a dropdown does to the page.
pub record Opening (d : Dom) : Type 0 where
  -- `setAttribute("data-otc-ref", ref)`
  pub set_ref : d.World → d.El → Text → d.World
  -- `focus({ preventScroll: true })`, `_realClick`, `pressEscape`
  pub focus : d.World → d.El → d.World
  pub real_click : d.World → d.El → d.World
  pub press_escape : d.World → d.World
  -- `if (!document.hidden) await _sleep(FORCE_OPEN_SETTLE_MS)`
  pub settle : d.World → d.World
  -- the page at each mutation within so many milliseconds, and last when the time is up
  pub mutations : ℕ → d.World → List d.World
  -- `Date.now()`
  pub now : d.World → ℕ

abbrev pub force_open_timeout : ℕ
force_open_timeout = 350

abbrev pub force_open_retry_timeout : ℕ
force_open_retry_timeout = 400

abbrev pub page_budget : ℕ
page_budget = 4000

-- `_optionsCache`, and the page
pub record Opened (W : Type 0) : Type 0 where
  pub world : W
  pub cache : List (Text × List Text)

-- `_optionsCacheKey`
unfoldable pub cache_key : SnapshotEl → Text
cache_key el = el.selector ++ codes " " ++ el.label

-- the choices cached under a key, none where the entry is missing or empty
unfoldable pub cached_options : List (Text × List Text) → Text → List Text
cached_options cache key = or_else (map_get key cache) []

abbrev pub with_options : List Text → SnapshotEl → SnapshotEl
with_options [] el = el
with_options (o ∷ os) el = record el { options = o ∷ os }

-- `_optionsCache.set` after a choice was found
abbrev pub remember : Text → List Text → List (Text × List Text) → List (Text × List Text)
remember key [] cache = cache
remember key (o ∷ os) cache = cache ++ (key, o ∷ os) ∷ []

-- a field that the loop does not pass over
abbrev pub is_blind : SnapshotEl → Bool
is_blind el = el.field_type == "select" && is_empty el.options

-- `schema` is `schemaOptions` of each page; `document` and `depth` are as for the filler.
module _ (d : Dom) (o : Opening d) (schema : d.World → d.El → List Text) (document : d.Root)
    (depth : ℕ) where
  open d use {
    World, El, Root, same_el, query_all, within, closest, ancestors, root_of, text_content,
    select_options, escape, to_lower,
  }
  open o use {set_ref, focus, real_click, press_escape, settle, mutations, now}

  abbrev pub roots_at : World → List Root
  roots_at w = collect_roots d w depth document

  abbrev role_option : Text
  role_option = codes "[role=\"option\"]"

  abbrev pub owned_id : World → El → Text
  owned_id w el = or_text (attr_or d w el "aria-controls") (attr_or d w el "aria-owns")

  -- `_optionScope`: the element that the trigger owns, `none` for its root
  unfoldable pub option_scope : World → El → Option El
  option_scope w el =
      if is_empty (owned_id w el)
      then none
      else find_el d w (roots_at w) (codes "#" ++ escape (owned_id w el))

  -- the options that are visible before the click
  unfoldable pub stale_options : World → El → List El
  stale_options w trigger = keep (is_visible d w) (query_all w (root_of w trigger) role_option)

  abbrev pub scoped : World → El → List El → Option El → List El
  scoped w trigger stale (some scope) = within w scope role_option
  scoped w trigger stale none =
      keep (λ e. not (any (same_el e) stale)) (query_all w (root_of w trigger) role_option)

  abbrev pub full_list : List Text → Option (List Text)
  full_list [] = none
  full_list (x ∷ xs) = some (x ∷ xs)

  -- `check`
  unfoldable pub open_check : El → List El → World → Option (List Text)
  unfolding option_scope
  open_check trigger stale w =
      full_list (collect_opts d w (schema w) (scoped w trigger stale (option_scope w trigger)))

  -- the second click, on the control around the trigger
  abbrev pub click_control : El → Option El → World → World
  click_control trigger none w = w
  click_control trigger (some control) w =
      if same_el control trigger then w else real_click w control

  -- `_forceOpenOptions`
  unfoldable pub force_open : World → El → World × List Text
  unfolding stale_options open_check
  force_open w trigger =
      let check = open_check trigger (stale_options w trigger) in
      let w1 = real_click (focus w trigger) trigger in
      let (first, w2) = wait_for_dom check w1 (mutations force_open_timeout w1) in
      elim first [
        | some opts ↦ (w2, opts)
        | none ↦
            let control = closest w2 trigger (codes "[class*=\"control\"], [role=\"combobox\"]") in
            let w3 = click_control trigger control w2 in
            let (second, w4) = wait_for_dom check w3 (mutations force_open_retry_timeout w3) in
            (w4, or_else second [])
      ]

  abbrev pub hidden_choice : Text × Text → Text
  hidden_choice (value, text) = or_text (trim text) value

  -- the options of a hidden `<select>` beside the trigger
  unfoldable pub hidden_options : World → El → List Text
  hidden_options w trigger = elim (head (ancestors w trigger)) [
    | none ↦ []
    | some parent ↦ elim (head (within w parent (codes "select:not([data-otc-ref])"))) [
      | none ↦ []
      | some sel ↦
          keep (λ v. not (is_placeholder to_lower v)) (map hidden_choice (select_options w sel))
    ]
  ]

  -- the end of a round that opened the dropdown
  abbrev pub harvested :
      SnapshotEl → World × List Text → List (Text × List Text) → SnapshotEl × Opened World
  harvested el (w, opts) cache = (
    with_options opts el,
    record { world = settle (press_escape w); cache = remember (cache_key el) opts cache },
  )

  -- from the budget test on
  abbrev pub open_trigger : ℕ → SnapshotEl → El → Opened World → SnapshotEl × Opened World
  open_trigger deadline el trigger s =
      if ltb deadline (now s.world)
      then (el, s)
      else harvested el (force_open s.world trigger) s.cache

  abbrev pub try_hidden : ℕ → SnapshotEl → El → List Text → Opened World → SnapshotEl × Opened World
  try_hidden deadline el trigger [] s = open_trigger deadline el trigger s
  try_hidden deadline el trigger (x ∷ xs) s = (record el { options = x ∷ xs }, s)

  abbrev pub locate : ℕ → SnapshotEl → Option El → Opened World → SnapshotEl × Opened World
  locate deadline el none s = (el, s)
  locate deadline el (some trigger) s =
      try_hidden deadline el trigger (hidden_options s.world trigger) s

  abbrev pub try_cache : ℕ → SnapshotEl → List Text → Opened World → SnapshotEl × Opened World
  try_cache deadline el [] s =
      locate deadline el (find_el d s.world (roots_at s.world) el.selector) s
  try_cache deadline el (x ∷ xs) s = (record el { options = x ∷ xs }, s)

  -- the body of the loop
  unfoldable pub open_one : ℕ → SnapshotEl → Opened World → SnapshotEl × Opened World
  unfolding force_open hidden_options
  open_one deadline el s =
      if is_blind el
      then try_cache deadline el (cached_options s.cache (cache_key el)) s
      else (el, s)

  unfoldable pub open_all : ℕ → List SnapshotEl → Opened World → List SnapshotEl × Opened World
  open_all deadline [] s = ([], s)
  open_all deadline (el ∷ els) s =
      let (el', s1) = open_one deadline el s in
      let (els', s2) = open_all deadline els s1 in (el' ∷ els', s2)

  -- the tags that `build` leaves on the controls
  unfoldable pub tag_all : List (ℕ × El) → World → World
  tag_all [] w = w
  tag_all ((i, el) ∷ ps) w = tag_all ps (set_ref w el (ref_of i))

  -- `observeWithOptions`
  unfoldable pub observe_with_options : Opened World → List SnapshotEl × Opened World
  unfolding open_all tag_all
  observe_with_options s =
      let w = s.world in
      let base = observe d w (schema w) (roots_at w) in
      let tagged = tag_all (picks d w (no_groups d w) 0 (candidates d w (roots_at w))) w in
      let w1 = settle (press_escape tagged) in
      open_all (now w1 + page_budget) base (record s { world = w1 })
