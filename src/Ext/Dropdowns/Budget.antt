-- ===== src/Ext/Dropdowns/Budget.antt =====
-- ext/lib/snapshot.ts, `observeWithOptions`: what opening the dropdowns changes, and when it stops.
use otclick_hh.Common.{
  Bool-cases, List, Option, Text, [], arith, inl, inr, ltb, none, refl, some, true, ℕ, ◌<◌, ◌∷◌,
  ◌≡◌, ◌⊎◌,
}
use otclick_hh.Ext.Dom.{Dom, find_el}
use otclick_hh.Ext.Snapshot.Observe.{SnapshotEl}
use otclick_hh.Ext.Dropdowns.{
  Opened, Opening, cache_key, cached_options, force_open, harvested, hidden_options, is_blind,
  locate, open_all, open_one, open_trigger, roots_at, try_cache, try_hidden, with_options,
}

-- `after` is `before` with other options, which only a blind field gets.
abbrev pub Opens : SnapshotEl → SnapshotEl → Type 0
Opens before after =
    ((opts : List Text) × (after ≡ record before { options = opts }))
    × ((is_blind before ≡ true) ⊎ (after ≡ before))

abbrev pub OpensAll : List SnapshotEl → List SnapshotEl → Type 0
OpensAll [] [] = Unit
OpensAll [] (y ∷ ys) = ⊥
OpensAll (x ∷ xs) [] = ⊥
OpensAll (x ∷ xs) (y ∷ ys) = Opens x y × OpensAll xs ys

module _ (d : Dom) (o : Opening d) (schema : d.World → d.El → List Text) (document : d.Root)
    (depth : ℕ) where
  open d use {World, El}

  with_options_lem :
      (opts : List Text) (el : SnapshotEl)
      → (os : List Text) × (with_options opts el ≡ record el { options = os })
  with_options_lem [] el = (el.options, refl)
  with_options_lem (x ∷ xs) el = (x ∷ xs, refl)

  harvested_lem :
      (el : SnapshotEl) (r : World × List Text) (cache : List (Text × List Text))
      → (os : List Text) × ((harvested d o schema document depth el r cache).0
          ≡ record el { options = os })
  harvested_lem el (w, opts) cache = with_options_lem opts el

  open_trigger_lem :
      (deadline : ℕ) (el : SnapshotEl) (t : El) (s : Opened World)
      → (os : List Text) × ((open_trigger d o schema document depth deadline el t s).0
          ≡ record el { options = os })
  open_trigger_lem deadline el t s = elim (Bool-cases (ltb deadline (o.now s.world))) [
    | inl e ↦ rw e (el.options, refl)
    | inr e ↦ rw e (harvested_lem el (force_open d o schema document depth s.world t) s.cache)
  ]

  locate_lem :
      (deadline : ℕ) (el : SnapshotEl) (t : Option El) (s : Opened World)
      → (os : List Text) × ((locate d o schema document depth deadline el t s).0
          ≡ record el { options = os })
  locate_lem deadline el none s = (el.options, refl)
  locate_lem deadline el (some t) s =
      try_hidden_lem (hidden_options d o schema document depth s.world t)
    where
      try_hidden_lem :
          (xs : List Text)
          → (os : List Text) × ((try_hidden d o schema document depth deadline el t xs s).0
              ≡ record el { options = os })
      try_hidden_lem [] = open_trigger_lem deadline el t s
      try_hidden_lem (x ∷ xs) = (x ∷ xs, refl)

  try_cache_lem :
      (deadline : ℕ) (el : SnapshotEl) (xs : List Text) (s : Opened World)
      → (os : List Text) × ((try_cache d o schema document depth deadline el xs s).0
          ≡ record el { options = os })
  try_cache_lem deadline el [] s =
      locate_lem deadline el
        (find_el d s.world (roots_at d o schema document depth s.world) el.selector) s
  try_cache_lem deadline el (x ∷ xs) s = (x ∷ xs, refl)

  open_one-Opens :
      (deadline : ℕ) (el : SnapshotEl) (s : Opened World)
      → Opens el (open_one d o schema document depth deadline el s).0
  unfolding open_one
  open_one-Opens deadline el s = elim (Bool-cases (is_blind el)) [
    | inl e ↦ rw e (try_cache_lem deadline el (cached_options s.cache (cache_key el)) s, inl refl)
    | inr e ↦ rw e ((el.options, refl), inr refl)
  ]

  -- Opening the dropdowns keeps the fields of the snapshot in their order and changes nothing of
  -- them but the options, and these only where a select had none.
  pub open_all-OpensAll :
      (deadline : ℕ) (els : List SnapshotEl) (s : Opened World)
      → OpensAll els (open_all d o schema document depth deadline els s).0
  unfolding open_all
  open_all-OpensAll deadline [] s = tt
  open_all-OpensAll deadline (el ∷ els) s = (
    open_one-Opens deadline el s,
    open_all-OpensAll deadline els (open_one d o schema document depth deadline el s).1,
  )

  open_trigger_spent :
      (deadline : ℕ) (el : SnapshotEl) (t : El) (s : Opened World)
      → ltb deadline (o.now s.world) ≡ true
      → (open_trigger d o schema document depth deadline el t s).1 ≡ s
  open_trigger_spent deadline el t s h = rw h refl

  locate_spent :
      (deadline : ℕ) (el : SnapshotEl) (t : Option El) (s : Opened World)
      → ltb deadline (o.now s.world) ≡ true
      → (locate d o schema document depth deadline el t s).1 ≡ s
  locate_spent deadline el none s h = refl
  locate_spent deadline el (some t) s h =
      try_hidden_spent (hidden_options d o schema document depth s.world t)
    where
      try_hidden_spent :
          (xs : List Text) → (try_hidden d o schema document depth deadline el t xs s).1 ≡ s
      try_hidden_spent [] = open_trigger_spent deadline el t s h
      try_hidden_spent (x ∷ xs) = refl

  open_one_spent :
      (deadline : ℕ) (el : SnapshotEl) (s : Opened World)
      → ltb deadline (o.now s.world) ≡ true
      → (open_one d o schema document depth deadline el s).1 ≡ s
  unfolding open_one
  open_one_spent deadline el s h = elim (Bool-cases (is_blind el)) [
    | inl e ↦ rw e (from_cache (cached_options s.cache (cache_key el)))
    | inr e ↦ rw e refl
  ]
    where
      from_cache : (xs : List Text) → (try_cache d o schema document depth deadline el xs s).1 ≡ s
      from_cache [] =
          locate_spent deadline el
            (find_el d s.world (roots_at d o schema document depth s.world) el.selector) s h
      from_cache (x ∷ xs) = refl

  -- Once the time budget of the page is spent, the rest of the loop clicks nothing: the page and
  -- the cache stay as they are.
  pub open_all_spent :
      (deadline : ℕ) (els : List SnapshotEl) (s : Opened World)
      → deadline < o.now s.world
      → (open_all d o schema document depth deadline els s).1 ≡ s
  unfolding open_all
  open_all_spent deadline [] s h = refl
  open_all_spent deadline (el ∷ els) s h =
      let e = open_one_spent deadline el s (ground arith) in rw e (open_all_spent deadline els s h)
