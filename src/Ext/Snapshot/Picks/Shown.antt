-- ===== src/Ext/Snapshot/Picks/Shown.antt =====
-- ext/lib/snapshot.ts: which controls are snapshotted, and how they are numbered.
use otclick_hh.Common.{
  All, All-map_pred, Bool-cases, List, Memᴰ, [], any, arith, false, inl, inr, refl, suc, true, ℕ,
  ◌==◌, ◌∷◌, ◌≡◌, ◌⊎◌,
}
use otclick_hh.Ext.Dom.{Dom}
use otclick_hh.Ext.Snapshot.Elements.{
  hidden_ancestor, is_file_input, is_hidden_style, is_tag, is_visible,
}
use otclick_hh.Ext.Snapshot.Picks.{Seen, Step, is_ignored, pick, picks, skip, spend, step}

-- `ps` is numbered by `i`, `i + 1` and so on.
abbrev pub Counts : {A : Type 0} → ℕ → List (ℕ × A) → Type 0
Counts i [] = Unit
Counts i ((j, a) ∷ ps) = (j ≡ i) × Counts (suc i) ps

pub Step-cases :
    {S : Type 0} (s : Step S) → (s ≡ skip) ⊎ (((x : S) × (s ≡ spend x)) ⊎ ((x : S) × (s ≡ pick x)))
Step-cases skip = inl refl
Step-cases (spend x) = inr (inl (x, refl))
Step-cases (pick x) = inr (inr (x, refl))

module _ (d : Dom) (w : d.World) where
  open d use {El, Root}

  module _ (seen : Seen d w) (i : ℕ) (r : Root) (el : El) (cs : List (Root × El)) where
    pub picks-skip :
        step d w seen r el ≡ skip → picks d w seen i ((r, el) ∷ cs) ≡ picks d w seen i cs
    unfolding picks
    picks-skip e = rw (e, picks)

    pub picks-spend :
        (s : Seen d w)
        → step d w seen r el ≡ spend s
        → picks d w seen i ((r, el) ∷ cs) ≡ picks d w s i cs
    unfolding picks
    picks-spend s e = rw (e, picks)

    pub picks-pick :
        (s : Seen d w)
        → step d w seen r el ≡ pick s
        → picks d w seen i ((r, el) ∷ cs) ≡ (i, el) ∷ picks d w s (suc i) cs
    unfolding picks
    picks-pick s e = rw (e, picks)

  pub picks-Counts :
      (seen : Seen d w) (i : ℕ) (cs : List (Root × El)) → Counts i (picks d w seen i cs)
  unfolding picks
  picks-Counts seen i [] = tt
  picks-Counts seen i ((r, el) ∷ cs) = elim (Step-cases (step d w seen r el)) [
    | inl e ↦ rw (picks-skip seen i r el cs e) (picks-Counts seen i cs)
    | inr (inl (s, e)) ↦ rw (picks-spend seen i r el cs s e) (picks-Counts s i cs)
    | inr (inr (s, e)) ↦ rw (picks-pick seen i r el cs s e) (refl, picks-Counts s (suc i) cs)
  ]

  -- The style of an element does not hide it.
  abbrev pub IsStyled : El → Type 0
  IsStyled el = ((d.display w el == "none") ≡ false) × ((d.visibility w el == "hidden") ≡ false)

  -- The page renders an element: its style does not hide it, and it has an offset parent or is the
  -- body.
  abbrev pub IsRendered : El → Type 0
  IsRendered el = IsStyled el × ((d.has_offset_parent w el ≡ true) ⊎ (is_tag d w el "BODY" ≡ true))

  -- A control may be snapshotted if it is rendered, or a file input no ancestor of which is hidden
  -- by its style.
  abbrev pub Shows : El → Type 0
  Shows el = IsRendered el ⊎ ((is_file_input d w el ≡ true) × All IsStyled (d.ancestors w el))

  style-IsStyled : (el : El) → is_hidden_style d w el ≡ false → IsStyled el
  unfolding is_hidden_style
  style-IsStyled el h = ground arith

  is_visible-IsRendered : (el : El) → is_visible d w el ≡ true → IsRendered el
  unfolding is_visible is_hidden_style
  is_visible-IsRendered el h = ground arith

  ancestors-IsStyled : (els : List El) → any (is_hidden_style d w) els ≡ false → All IsStyled els
  ancestors-IsStyled [] h = tt
  ancestors-IsStyled (el ∷ els) h = elim (Bool-cases (is_hidden_style d w el)) [
    | inl e ↦ let no : true ≡ false = rw e at h in ground arith
    | inr e ↦ (style-IsStyled el e, ancestors-IsStyled els (rw e at h))
  ]

  Shows-of :
      (el : El)
      → (is_visible d w el ≡ true)
        ⊎ ((is_file_input d w el ≡ true) × (hidden_ancestor d w el ≡ false))
      → Shows el
  unfolding hidden_ancestor
  Shows-of el (inl v) = inl (is_visible-IsRendered el v)
  Shows-of el (inr (f, h)) = inr (f, ancestors-IsStyled (d.ancestors w el) h)

  step-shown :
      (seen : Seen d w) (r : Root) (el : El) (s : Seen d w)
      → step d w seen r el ≡ pick s
      → (is_ignored d w r el ≡ false)
        × ((is_visible d w el ≡ true)
            ⊎ ((is_file_input d w el ≡ true) × (hidden_ancestor d w el ≡ false)))
  unfolding step
  step-shown seen r el s e = ground arith

  -- Every control that is snapshotted stands among the controls of the page, is no hidden, reset or
  -- image input and no popup of another control, and is rendered, its display not none, its visibility
  -- not hidden and with an offset parent unless it is the body, or is a file input no ancestor of
  -- which has display none or visibility hidden.
  pub picks-shown :
      (seen : Seen d w) (i : ℕ) (cs : List (Root × El))
      → All
          (λ p. (r : Root) × Memᴰ (r, p.1) cs × (is_ignored d w r p.1 ≡ false) × Shows p.1)
          (picks d w seen i cs)
  unfolding picks
  picks-shown seen i [] = tt
  picks-shown seen i ((r, el) ∷ cs) =
      let P = λ (cs' : List (Root × El)) (p : ℕ × El).
        (q : Root) × Memᴰ (q, p.1) cs' × (is_ignored d w q p.1 ≡ false) × Shows p.1 in
      let wider = λ (ps : List (ℕ × El)) (h : All (P cs) ps).
        All-map_pred (P cs) (P ((r, el) ∷ cs)) (λ p k. (k.0, Memᴰ.tail k.1, k.2, k.3)) ps h in
      elim (Step-cases (step d w seen r el)) [
        | inl e ↦ rw (picks-skip seen i r el cs e) (wider _ (picks-shown seen i cs))
        | inr (inl (s, e)) ↦ rw (picks-spend seen i r el cs s e) (wider _ (picks-shown s i cs))
        | inr (inr (s, e)) ↦
            let (used, shown) = step-shown seen r el s e in
            rw (picks-pick seen i r el cs s e)
              ((r, Memᴰ.head refl, used, Shows-of el shown), wider _ (picks-shown s (suc i) cs))
      ]
