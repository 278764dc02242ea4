-- ===== src/Ext/Snapshot/Picks/Groups.antt =====
-- ext/lib/snapshot.ts: which buttons of a group are snapshotted.
use otclick_hh.Common.{
  All, All-map_pred, Bool-cases, List, Text, [], any, arith, codes, false, inl, inr, length, suc,
  text_eq, text_eq_refl, true, ℕ, ◌<◌, ◌∷◌, ◌≡◌, ◌≢◌, ◌⊎◌,
}
use otclick_hh.Ext.Dom.{Dom}
use otclick_hh.Ext.Snapshot.Elements.{attr_or, has_text, lower_attr, quoted, radio_peers}
use otclick_hh.Ext.Snapshot.Picks.{
  Seen, in_named_group, is_ignored, is_shown, name_of, pick, picks, seen_name, skip, spend, step,
}
use otclick_hh.Ext.Snapshot.Picks.Shown.{Step-cases, picks-pick, picks-skip, picks-spend}

module _ (d : Dom) (w : d.World) where
  open d use {El, Root}

  -- The button `el` does not stand for the group named `n`.
  abbrev pub NotOf : Text → El → Type 0
  NotOf n el = (in_named_group d w el ≡ false) ⊎ (name_of d w el ≢ n)

  -- What a step may do to the names that are taken.
  abbrev Took : Seen d w → El → Seen d w → Type 0
  Took seen el s =
      ((in_named_group d w el ≡ false) × (s.names ≡ seen.names))
      ⊎ ((in_named_group d w el ≡ true)
          × (seen_name d w seen (name_of d w el) ≡ false)
          × (s.names ≡ name_of d w el ∷ seen.names))

  step-spend-Took :
      (seen : Seen d w) (r : Root) (el : El) (s : Seen d w)
      → step d w seen r el ≡ spend s
      → Took seen el s
  unfolding step
  step-spend-Took seen r el s e = ground arith

  step-pick-Took :
      (seen : Seen d w) (r : Root) (el : El) (s : Seen d w)
      → step d w seen r el ≡ pick s
      → Took seen el s
  unfolding step
  step-pick-Took seen r el s e = ground arith

  step-skips_seen :
      (n : Text) (seen : Seen d w) (r : Root) (el : El)
      → seen_name d w seen n ≡ true
      → in_named_group d w el ≡ true
      → name_of d w el ≡ n
      → step d w seen r el ≡ skip
  unfolding step
  step-skips_seen n seen r el h g e =
      let taken : seen_name d w seen (name_of d w el) ≡ true = rw e h in ground arith

  seen_name-cons :
      (n m : Text) (ms : List Text) → any (text_eq n) ms ≡ true → any (text_eq n) (m ∷ ms) ≡ true
  seen_name-cons n m ms h = ground arith

  Took-keeps :
      (n : Text) (seen : Seen d w) (el : El) (s : Seen d w)
      → Took seen el s
      → seen_name d w seen n ≡ true
      → seen_name d w s n ≡ true
  Took-keeps n seen el s (inl (g, e)) h = rw e h
  Took-keeps n seen el s (inr (g, new, e)) h = rw e (seen_name-cons n _ _ h)

  by_group : (n : Text) (el : El) → (in_named_group d w el ≡ true → name_of d w el ≢ n) → NotOf n el
  by_group n el h = elim (Bool-cases (in_named_group d w el)) [ inl g ↦ inr (h g) | inr g ↦ inl g ]

  -- A name that is taken gives no further control.
  picks-avoid :
      (n : Text) (seen : Seen d w) (i : ℕ) (cs : List (Root × El))
      → seen_name d w seen n ≡ true
      → All (λ p. NotOf n p.1) (picks d w seen i cs)
  unfolding picks
  picks-avoid n seen i [] h = tt
  picks-avoid n seen i ((r, el) ∷ cs) h = elim (Step-cases (step d w seen r el)) [
    | inl e ↦ rw (picks-skip d w seen i r el cs e) (picks-avoid n seen i cs h)
    | inr (inl (s, e)) ↦
        rw (picks-spend d w seen i r el cs s e)
          (picks-avoid n s i cs (Took-keeps n seen el s (step-spend-Took seen r el s e) h))
    | inr (inr (s, e)) ↦ rw (picks-pick d w seen i r el cs s e) (
      by_group n el (λ g q. cc (step-skips_seen n seen r el h g q)),
      picks-avoid n s (suc i) cs (Took-keeps n seen el s (step-pick-Took seen r el s e) h),
    )
  ]

  -- The pass by its own test of a group.
  abbrev OneByTest : List (ℕ × El) → Type 0
  OneByTest [] = Unit
  OneByTest ((i, el) ∷ ps) =
      ((in_named_group d w el ≡ false) ⊎ All (λ q. NotOf (name_of d w el) q.1) ps) × OneByTest ps

  first_of_group :
      (el : El) (ps : List (ℕ × El))
      → (in_named_group d w el ≡ true → All (λ q. NotOf (name_of d w el) q.1) ps)
      → (in_named_group d w el ≡ false) ⊎ All (λ q. NotOf (name_of d w el) q.1) ps
  first_of_group el ps h = elim (Bool-cases (in_named_group d w el)) [
    | inl g ↦ inr (h g)
    | inr g ↦ inl g
  ]

  taken :
      (seen : Seen d w) (el : El) (s : Seen d w)
      → Took seen el s
      → in_named_group d w el ≡ true
      → seen_name d w s (name_of d w el) ≡ true
  taken seen el s (inl (no_group, e)) g = cc
  taken seen el s (inr (_, new, e)) g = rw e (rw (text_eq_refl (name_of d w el)))

  picks-OneByTest :
      (seen : Seen d w) (i : ℕ) (cs : List (Root × El)) → OneByTest (picks d w seen i cs)
  unfolding picks
  picks-OneByTest seen i [] = tt
  picks-OneByTest seen i ((r, el) ∷ cs) = elim (Step-cases (step d w seen r el)) [
    | inl e ↦ rw (picks-skip d w seen i r el cs e) (picks-OneByTest seen i cs)
    | inr (inl (s, e)) ↦ rw (picks-spend d w seen i r el cs s e) (picks-OneByTest s i cs)
    | inr (inr (s, e)) ↦ rw (picks-pick d w seen i r el cs s e) (
      first_of_group el _ (λ g.
          picks-avoid (name_of d w el) s (suc i) cs
            (taken seen el s (step-pick-Took seen r el s e) g)),
      picks-OneByTest s (suc i) cs,
    )
  ]

  -- A radio button with a name, of which its document has several, searched without its shadow roots.
  abbrev pub HasPeers : El → Type 0
  HasPeers el =
      (lower_attr d w el "type" ≡ codes "radio")
      × (has_text d w el "name" ≡ true)
      × 1
        < length (
            d.query_all w (d.owner_document el)
              (quoted d w "input[type=\"radio\"][name=\"" (d.escape (attr_or d w el "name")) "\"]"))

  -- Of the buttons with one name that have peers at most one is among the controls.
  abbrev pub OnePerGroup : List (ℕ × El) → Type 0
  OnePerGroup [] = Unit
  OnePerGroup ((i, el) ∷ ps) =
      (¬ HasPeers el
        ⊎ All (λ q. ¬ HasPeers q.1 ⊎ (attr_or d w q.1 "name" ≢ attr_or d w el "name")) ps)
      × OnePerGroup ps

  HasPeers-group : (el : El) → HasPeers el → in_named_group d w el ≡ true
  unfolding radio_peers
  HasPeers-group el (t, n, many) = rw (t, n) (ground (arith, many))

  no_peers : (el : El) → in_named_group d w el ≡ false → ¬ HasPeers el
  no_peers el h p = let yes = HasPeers-group el p in ground arith

  NotOf-peers : (n : Text) (el : El) → NotOf n el → ¬ HasPeers el ⊎ (attr_or d w el "name" ≢ n)
  NotOf-peers n el (inl g) = inl (no_peers el g)
  NotOf-peers n el (inr h) = inr h

  OneByTest-OnePerGroup : (ps : List (ℕ × El)) → OneByTest ps → OnePerGroup ps
  OneByTest-OnePerGroup [] h = tt
  OneByTest-OnePerGroup ((i, el) ∷ ps) (inl g, h) =
      (inl (no_peers el g), OneByTest-OnePerGroup ps h)
  OneByTest-OnePerGroup ((i, el) ∷ ps) (inr k, h) = (
    inr (
        All-map_pred (λ q. NotOf (name_of d w el) q.1)
          (λ q. ¬ HasPeers q.1 ⊎ (attr_or d w q.1 "name" ≢ name_of d w el))
          (λ q. NotOf-peers (name_of d w el) q.1) ps k),
    OneByTest-OnePerGroup ps h,
  )

  -- A group of radio buttons with one name is one question: of the buttons with one name whose
  -- document, searched without its shadow roots, has several of that name, at most one is
  -- snapshotted, over all roots of the page. Buttons that this search does not find, as those in a
  -- shadow root, are not meant.
  pub picks-OnePerGroup :
      (seen : Seen d w) (i : ℕ) (cs : List (Root × El)) → OnePerGroup (picks d w seen i cs)
  picks-OnePerGroup seen i cs =
      OneByTest-OnePerGroup (picks d w seen i cs) (picks-OneByTest seen i cs)

  step-spends_hidden :
      (seen : Seen d w) (r : Root) (el : El)
      → is_ignored d w r el ≡ false
      → in_named_group d w el ≡ true
      → is_shown d w el ≡ false
      → seen_name d w seen (name_of d w el) ≡ false
      → (s : Seen d w) × (step d w seen r el ≡ spend s)
  unfolding step
  step-spends_hidden seen r el used g hidden new =
      (record seen { names = name_of d w el ∷ seen.names }, ground arith)

  -- The first button of a named group stands for it even where it is not shown: after a first
  -- button that is no ignored control and is hidden, none of the group's later buttons is snapshotted, shown or not.
  pub picks_after_hidden_first :
      (seen : Seen d w) (i : ℕ) (r : Root) (el : El) (cs : List (Root × El))
      → is_ignored d w r el ≡ false
      → in_named_group d w el ≡ true
      → is_shown d w el ≡ false
      → All (λ p. NotOf (name_of d w el) p.1) (picks d w seen i ((r, el) ∷ cs))
  picks_after_hidden_first seen i r el cs used g hidden =
      elim (Bool-cases (seen_name d w seen (name_of d w el))) [
        | inl old ↦ picks-avoid (name_of d w el) seen i ((r, el) ∷ cs) old
        | inr new ↦
            let (s, e) = step-spends_hidden seen r el used g hidden new in
            rw (picks-spend d w seen i r el cs s e) (
              picks-avoid (name_of d w el) s i cs
                (taken seen el s (step-spend-Took seen r el s e) g))
      ]
