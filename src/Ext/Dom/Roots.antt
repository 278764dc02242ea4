-- ===== src/Ext/Dom/Roots.antt =====
-- ext/lib/snapshot.ts: what the walk over the roots collects, and the searches over it.
use otclick_hh.Common.{
  Bool-cases, List, Memᴰ, Memᴰ-append_left, Memᴰ-append_right, Memᴰ-concat_map, Memᴰ-of_append,
  Memᴰ-of_concat_map, Option, Text, [], ap, arith, codes, head, inl, inr, is_word, none, refl, some,
  suc, sym, text_eq→eq, true, zero, ℕ, ◌++◌, ◌<◌, ◌↔◌, ◌∷◌, ◌≡◌, ◌≤◌, ◌⊎◌,
}
use otclick_hh.Ext.Dom.{
  Dom, below, collect_roots, deep_query_all, find_el, is_frame, opt_list, roots_below,
}

module _ (d : Dom) (w : d.World) where
  open d use {El, Root, query_all, shadow_root, content_document, tag_name}

  -- `child` is the open shadow root of an element, or the document of a frame that gives access.
  abbrev pub Opens : El → Root → Type 0
  Opens el child =
      (shadow_root w el ≡ some child)
      ⊎ ((tag_name el ≡ codes "IFRAME") ⊎ (tag_name el ≡ codes "FRAME"))
        × (content_document w el ≡ some child)

  abbrev pub Below : Root → Root → Type 0
  Below child r = (el : El) × Memᴰ el (query_all w r (codes "*")) × Opens el child

  opt_list-of : (child : Root) (o : Option Root) → Memᴰ child (opt_list d w o) → o ≡ some child
  opt_list-of child none m = elim m [ ]
  opt_list-of child (some r) (Memᴰ.head e) = ap some (sym e)
  opt_list-of child (some r) (Memᴰ.tail m) = elim m [ ]

  is_frame-tag :
      (el : El)
      → is_frame d w el ≡ true
      → (tag_name el ≡ codes "IFRAME") ⊎ (tag_name el ≡ codes "FRAME")
  is_frame-tag el h = elim (Bool-cases (is_word (tag_name el) "IFRAME")) [
    | inl e ↦ inl (text_eq→eq (tag_name el) (codes "IFRAME") e)
    | inr e ↦ inr (text_eq→eq (tag_name el) (codes "FRAME") (rw e at h))
  ]

  tag-is_frame :
      (el : El)
      → (tag_name el ≡ codes "IFRAME") ⊎ (tag_name el ≡ codes "FRAME")
      → is_frame d w el ≡ true
  tag-is_frame el (inl e) = rw e refl
  tag-is_frame el (inr e) = rw e refl

  below-Opens : (child : Root) (el : El) → Memᴰ child (below d w el) → Opens el child
  unfolding below
  below-Opens child el m = elim (Bool-cases (is_frame d w el)) [
    | inl e ↦
        elim (Memᴰ-of_append child (opt_list d w (shadow_root w el))
          (opt_list d w (content_document w el)) (rw e at m)) [
            | inl k ↦ inl (opt_list-of child (shadow_root w el) k)
            | inr k ↦ inr (is_frame-tag el e, opt_list-of child (content_document w el) k)
          ]
    | inr e ↦ elim (Memᴰ-of_append child (opt_list d w (shadow_root w el)) [] (rw e at m)) [
      | inl k ↦ inl (opt_list-of child (shadow_root w el) k)
      | inr k ↦ elim k [ ]
    ]
  ]

  Opens-below : (child : Root) (el : El) → Opens el child → Memᴰ child (below d w el)
  unfolding below
  Opens-below child el (inl e) = rw e (Memᴰ.head refl)
  Opens-below child el (inr (t, e)) =
      Memᴰ-append_right child (opt_list d w (shadow_root w el)) _
        (rw (tag-is_frame el t, e) (Memᴰ.head refl))

  roots_below-Opens :
      (child : Root) (els : List El)
      → Memᴰ child (roots_below d w els)
      → (el : El) × Memᴰ el els × Opens el child
  unfolding roots_below
  roots_below-Opens child [] m = elim m [ ]
  roots_below-Opens child (el ∷ els) m =
      elim (Memᴰ-of_append child (below d w el) (roots_below d w els) m) [
        | inl k ↦ (el, Memᴰ.head refl, below-Opens child el k)
        | inr k ↦ let (x, at, o) = roots_below-Opens child els k in (x, Memᴰ.tail at, o)
      ]

  pub Opens-roots_below :
      (child : Root) (el : El) (els : List El)
      → Memᴰ el els
      → Opens el child
      → Memᴰ child (roots_below d w els)
  unfolding roots_below
  Opens-roots_below child el [] m o = elim m [ ]
  Opens-roots_below child el (x ∷ els) (Memᴰ.head e) o =
      Memᴰ-append_left child (below d w x) (roots_below d w els) (Opens-below child x (rw e at o))
  Opens-roots_below child el (x ∷ els) (Memᴰ.tail m) o =
      Memᴰ-append_right child (below d w x) (roots_below d w els)
        (Opens-roots_below child el els m o)

  -- `r` is `top` or lies, at any depth, in a shadow root or a same-origin frame below it.
  pub data Reach (top : Root) : Root → Type 0 where
    here : Reach top top
    down : {r child : Root} → Reach top r → Below child r → Reach top child

  Reach-above : {top mid r : Root} → Below mid top → Reach mid r → Reach top r
  Reach-above b here = down here b
  Reach-above b (down h c) = down (Reach-above b h) c

  collect_roots-self : (fuel : ℕ) (r : Root) → Memᴰ r (collect_roots d w fuel r)
  unfolding collect_roots
  collect_roots-self zero r = Memᴰ.head refl
  collect_roots-self (suc n) r = Memᴰ.head refl

  collect_roots_sound :
      (fuel : ℕ) (top r : Root) → Memᴰ r (collect_roots d w fuel top) → Reach top r
  unfolding collect_roots
  collect_roots_sound zero top r (Memᴰ.head e) = rw e here
  collect_roots_sound zero top r (Memᴰ.tail m) = elim m [ ]
  collect_roots_sound (suc n) top r (Memᴰ.head e) = rw e here
  collect_roots_sound (suc n) top r (Memᴰ.tail m) =
      let (mid, b, k) = Memᴰ-of_concat_map (collect_roots d w n) r _ m in
      Reach-above (roots_below-Opens mid (query_all w top (codes "*")) b)
        (collect_roots_sound n mid r k)

  -- Nesting is finite: a root below another has a smaller height.
  module _ (height : Root → ℕ)
      (falls : (child r : Root) → Below child r → height child < height r) where
    collect_roots_step :
        (fuel : ℕ) (top r child : Root)
        → height top ≤ fuel
        → Memᴰ r (collect_roots d w fuel top)
        → Below child r
        → Memᴰ child (collect_roots d w fuel top)
    unfolding collect_roots
    collect_roots_step zero top r child h (Memᴰ.head e) b =
        absurd (omega (arith, falls child top (rw e at b)))
    collect_roots_step zero top r child h (Memᴰ.tail m) b = elim m [ ]
    collect_roots_step (suc n) top r child h (Memᴰ.head e) b = Memᴰ.tail (
        let (el, at, o) : Below child top = rw e at b in
        Memᴰ-concat_map (collect_roots d w n) child child _
          (Opens-roots_below child el (query_all w top (codes "*")) at o)
          (collect_roots-self n child))
    collect_roots_step (suc n) top r child h (Memᴰ.tail m) b =
        let (mid, i, k) = Memᴰ-of_concat_map (collect_roots d w n) r _ m in
        Memᴰ.tail (
          Memᴰ-concat_map (collect_roots d w n) child mid _ i (
            collect_roots_step n mid r child
              (omega (arith, falls mid top (roots_below-Opens mid (query_all w top (codes "*")) i)))
              k b))

    collect_roots_complete :
        (fuel : ℕ) (top r : Root)
        → height top ≤ fuel
        → Reach top r
        → Memᴰ r (collect_roots d w fuel top)
    collect_roots_complete fuel top r h here = collect_roots-self fuel top
    collect_roots_complete fuel top r h (down {r = q} reach b) =
        collect_roots_step fuel top q r h (collect_roots_complete fuel top q h reach) b

    -- Where roots nest finitely deep, and with fuel for the height of the page, the walk collects
    -- exactly the roots that are reachable from where it starts, through open shadow roots and
    -- frames that give access, at any depth.
    pub collect_roots_iff :
        (fuel : ℕ) (top r : Root)
        → height top ≤ fuel
        → Memᴰ r (collect_roots d w fuel top) ↔ Reach top r
    collect_roots_iff fuel top r h =
        (collect_roots_sound fuel top r, collect_roots_complete fuel top r h)

  find_or_next : List d.El → Option d.El → Option d.El
  find_or_next [] next = next
  find_or_next (el ∷ _) next = some el

  head-append : (xs ys : List d.El) → head (xs ++ ys) ≡ find_or_next xs (head ys)
  unfolding find_or_next
  head-append [] ys = refl
  head-append (x ∷ xs) ys = refl

  -- `findEl` finds the first of the elements that `deepQueryAll` lists, and nothing where it lists
  -- none.
  pub find_el-deep_query_all :
      (roots : List Root) (selector : Text)
      → find_el d w roots selector ≡ head (deep_query_all d w roots selector)
  unfolding find_el deep_query_all find_or_next
  find_el-deep_query_all [] selector = refl
  find_el-deep_query_all (r ∷ rs) selector =
      rw head-append (ground (arith, find_el-deep_query_all rs selector))
