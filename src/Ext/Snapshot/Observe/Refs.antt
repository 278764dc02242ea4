-- ===== src/Ext/Snapshot/Observe/Refs.antt =====
-- ext/lib/snapshot.ts: the refs of a snapshot.
use otclick_hh.Common.{
  List, Text, [], ap, codes, length, map, refl, show_nat, suc, zero, ℕ, ◌++◌, ◌∷◌, ◌≡◌,
}
use otclick_hh.Ext.Dom.{Dom}
use otclick_hh.Ext.Snapshot.Picks.{candidates, no_groups, picks, ref_of}
use otclick_hh.Ext.Snapshot.Picks.Shown.{Counts, picks-Counts}
use otclick_hh.Ext.Snapshot.Observe.{SnapshotEl, build, observe}

-- "e0", "e1", … from `i` on, `n` of them
abbrev pub refs_from : ℕ → ℕ → List Text
refs_from i zero = []
refs_from i (suc n) = (codes "e" ++ show_nat i) ∷ refs_from (suc i) n

module _ (d : Dom) (w : d.World) (schema : d.El → List Text) where
  open d use {El, Root}

  abbrev ref_in : SnapshotEl → Text
  ref_in s = s.ref

  abbrev built : ℕ × El → SnapshotEl
  built p = build d w schema p.1 (ref_of p.0)

  refs_of_count :
      (i : ℕ) (ps : List (ℕ × El))
      → Counts i ps
      → map ref_in (map built ps) ≡ refs_from i (length (map built ps))
  unfolding build
  refs_of_count i [] h = refl
  refs_of_count i ((j, el) ∷ ps) (e, h) =
      rw e (ap (λ rs. ref_of i ∷ rs) (refs_of_count (suc i) ps h))

  -- The refs of a snapshot are e0, e1, e2 and so on, in the order of the snapshot.
  pub refs-observe :
      (roots : List Root)
      → map ref_in (observe d w schema roots) ≡ refs_from 0 (length (observe d w schema roots))
  unfolding observe
  refs-observe roots =
      refs_of_count 0 (picks d w (no_groups d w) 0 (candidates d w roots))
        (picks-Counts d w (no_groups d w) 0 (candidates d w roots))
