-- ===== src/Ext/Dropdowns/Cache.antt =====
-- ext/lib/snapshot.ts, `_optionsCache`: what is cached stays for the page's lifetime.
use otclick_hh.Common.{
  Bool-cases, List, Option, Text, [], false, inl, inr, ltb, none, refl, some, text_eq, text_eq→eq,
  true, ℕ, ◌++◌, ◌∙◌, ◌∷◌, ◌≡◌,
}
use otclick_hh.Ext.Api.{map_get}
use otclick_hh.Ext.Dom.{Dom, find_el}
use otclick_hh.Ext.Snapshot.Observe.{SnapshotEl}
use otclick_hh.Ext.Dropdowns.{
  Opened, Opening, cache_key, cached_options, force_open, harvested, hidden_options, is_blind,
  locate, open_all, open_one, open_trigger, remember, roots_at, try_cache, try_hidden,
}

map_get_other :
    (k j : Text) (v : List Text) (m : List (Text × List Text))
    → text_eq j k ≡ false
    → map_get k (m ++ (j, v) ∷ []) ≡ map_get k m
unfolding map_get
map_get_other k j v [] h = rw h refl
map_get_other k j v ((i, u) ∷ m) h = rw (map_get_other k j v m h) refl

remember_other :
    (k j : Text) (opts : List Text) (m : List (Text × List Text))
    → text_eq j k ≡ false
    → map_get k (remember j opts m) ≡ map_get k m
remember_other k j [] m h = refl
remember_other k j (x ∷ xs) m h = map_get_other k j (x ∷ xs) m h

module _ (d : Dom) (o : Opening d) (schema : d.World → d.El → List Text) (document : d.Root)
    (depth : ℕ) where
  open d use {World, El}

  abbrev Same : Text → Opened World → Opened World → Type 0
  Same k s s' = map_get k s'.cache ≡ map_get k s.cache

  harvested-Same :
      (k : Text) (el : SnapshotEl) (r : World × List Text) (cache : List (Text × List Text))
      → text_eq (cache_key el) k ≡ false
      → map_get k (harvested d o schema document depth el r cache).1.cache ≡ map_get k cache
  harvested-Same k el (w, opts) cache h = remember_other k (cache_key el) opts cache h

  open_trigger-Same :
      (k : Text) (deadline : ℕ) (el : SnapshotEl) (t : El) (s : Opened World)
      → text_eq (cache_key el) k ≡ false
      → Same k s (open_trigger d o schema document depth deadline el t s).1
  open_trigger-Same k deadline el t s h = elim (Bool-cases (ltb deadline (o.now s.world))) [
    | inl e ↦ rw e refl
    | inr e ↦ rw e (harvested-Same k el (force_open d o schema document depth s.world t) s.cache h)
  ]

  try_hidden-Same :
      (k : Text) (deadline : ℕ) (el : SnapshotEl) (t : El) (xs : List Text) (s : Opened World)
      → text_eq (cache_key el) k ≡ false
      → Same k s (try_hidden d o schema document depth deadline el t xs s).1
  try_hidden-Same k deadline el t [] s h = open_trigger-Same k deadline el t s h
  try_hidden-Same k deadline el t (x ∷ xs) s h = refl

  locate-Same :
      (k : Text) (deadline : ℕ) (el : SnapshotEl) (t : Option El) (s : Opened World)
      → text_eq (cache_key el) k ≡ false
      → Same k s (locate d o schema document depth deadline el t s).1
  locate-Same k deadline el none s h = refl
  locate-Same k deadline el (some t) s h =
      try_hidden-Same k deadline el t (hidden_options d o schema document depth s.world t) s h

  try_cache-Same :
      (k : Text) (deadline : ℕ) (el : SnapshotEl) (xs : List Text) (s : Opened World)
      → text_eq (cache_key el) k ≡ false
      → Same k s (try_cache d o schema document depth deadline el xs s).1
  try_cache-Same k deadline el [] s h =
      locate-Same k deadline el
        (find_el d s.world (roots_at d o schema document depth s.world) el.selector) s h
  try_cache-Same k deadline el (x ∷ xs) s h = refl

  -- a field with cached options takes them, and nothing is clicked
  pub open_one_cached :
      (deadline : ℕ) (el : SnapshotEl) (x : Text) (xs : List Text) (s : Opened World)
      → is_blind el ≡ true
      → map_get (cache_key el) s.cache ≡ some (x ∷ xs)
      → open_one d o schema document depth deadline el s ≡ (record el { options = x ∷ xs }, s)
  unfolding open_one cached_options
  open_one_cached deadline el x xs s b h = rw b (rw h refl)

  open_one_keeps :
      (k : Text) (x : Text) (xs : List Text) (deadline : ℕ) (el : SnapshotEl) (s : Opened World)
      → map_get k s.cache ≡ some (x ∷ xs)
      → map_get k (open_one d o schema document depth deadline el s).1.cache ≡ some (x ∷ xs)
  unfolding open_one
  open_one_keeps k x xs deadline el s h = elim (Bool-cases (is_blind el)) [
    | inl b ↦ elim (Bool-cases (text_eq (cache_key el) k)) [
      | inl e ↦
          let same = text_eq→eq (cache_key el) k e in
          rw (open_one_cached deadline el x xs s b (rw same h)) h
      | inr e ↦ rw b (try_cache-Same k deadline el (cached_options s.cache (cache_key el)) s e ∙ h)
    ]
    | inr b ↦ rw b h
  ]

  pub open_all_keeps :
      (k : Text) (x : Text) (xs : List Text) (deadline : ℕ) (els : List SnapshotEl)
      (s : Opened World)
      → map_get k s.cache ≡ some (x ∷ xs)
      → map_get k (open_all d o schema document depth deadline els s).1.cache ≡ some (x ∷ xs)
  unfolding open_all
  open_all_keeps k x xs deadline [] s h = h
  open_all_keeps k x xs deadline (el ∷ els) s h =
      open_all_keeps k x xs deadline els (open_one d o schema document depth deadline el s).1
        (open_one_keeps k x xs deadline el s h)

  -- Options once cached for a select serve it in every later round: whatever dropdowns were opened
  -- in between, a select without options then gets them, and nothing is clicked for it.
  pub cached_for_good :
      (between : List SnapshotEl) (first second : ℕ) (el : SnapshotEl) (x : Text) (xs : List Text)
      (s : Opened World)
      → is_blind el ≡ true
      → map_get (cache_key el) s.cache ≡ some (x ∷ xs)
      → open_one d o schema document depth second el
          (open_all d o schema document depth first between s).1
        ≡ (record el { options = x ∷ xs }, (open_all d o schema document depth first between s).1)
  cached_for_good between first second el x xs s b h =
      open_one_cached second el x xs (open_all d o schema document depth first between s).1 b
        (open_all_keeps (cache_key el) x xs first between s h)
