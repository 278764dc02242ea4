-- ===== src/Ext/Examples/Snapshots.antt =====
-- Examples for ext/lib/snapshot.ts: the walk over the roots, and the snapshot of a page.
use otclick_hh.Common.{
  All, List, Memᴰ, Text, [], arith, codes, false, suc, zero, ℕ, ◌<◌, ◌↔◌, ◌∷◌, ◌≡◌,
}
use otclick_hh.Ext.Dom.{below, collect_roots, roots_below}
use otclick_hh.Ext.Dom.Roots.{Below, Opens-roots_below, Reach, collect_roots_iff}
use otclick_hh.Ext.Snapshot.Picks.{is_ignored, no_groups, picks}
use otclick_hh.Ext.Snapshot.Picks.Shown.{Shows, picks-shown}
use otclick_hh.Ext.Snapshot.Picks.Groups.{OnePerGroup, picks-OnePerGroup}
use otclick_hh.Ext.Examples.{page, start_page}

abbrev no_schema : ℕ → List Text
no_schema el = []

abbrev height_of : ℕ → ℕ
height_of zero = 1
height_of (suc r) = 0

listed_falls :
    (child r : ℕ)
    → Memᴰ child (roots_below page start_page (page.query_all start_page r (codes "*")))
    → height_of child < height_of r
unfolding roots_below below
listed_falls child zero (Memᴰ.head e) = rw e (omega arith)
listed_falls child zero (Memᴰ.tail m) = elim m [ ]
listed_falls child (suc r) m = elim m [ ]

page_falls : (child r : ℕ) → Below page start_page child r → height_of child < height_of r
page_falls child r (el, at, o) =
    listed_falls child r
      (Opens-roots_below page start_page child el (page.query_all start_page r (codes "*")) at o)

collect_roots_iff_example : Memᴰ 1 (collect_roots page start_page 1 0) ↔ Reach page start_page 0 1
collect_roots_iff_example =
    collect_roots_iff page start_page height_of page_falls 1 0 1 (omega arith)

picks-OnePerGroup_example :
    OnePerGroup page start_page
      (picks page start_page (no_groups page start_page) 0 ((0, 0) ∷ (0, 1) ∷ (0, 2) ∷ []))
picks-OnePerGroup_example =
    picks-OnePerGroup page start_page (no_groups page start_page) 0 ((0, 0) ∷ (0, 1) ∷ (0, 2) ∷ [])

picks-shown_example :
    All
      (λ p.
        (r : ℕ) × Memᴰ {A = ℕ × ℕ} (r, p.1) ((0, 0) ∷ (0, 2) ∷ [])
        × (is_ignored page start_page r p.1 ≡ false)
        × Shows page start_page p.1)
      (picks page start_page (no_groups page start_page) 0 ((0, 0) ∷ (0, 2) ∷ []))
picks-shown_example =
    picks-shown page start_page (no_groups page start_page) 0 ((0, 0) ∷ (0, 2) ∷ [])
