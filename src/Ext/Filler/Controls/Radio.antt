-- ===== src/Ext/Filler/Controls/Radio.antt =====
-- ext/lib/snapshot.ts: groups of radio buttons.
use otclick_hh.Common.{
  Bool, List, Text, [], any, arith, false, find, leb, length, none, refl, text_eq, trim, true, ℕ,
  ◌<◌, ◌||◌, ◌∷◌, ◌≡◌,
}
use otclick_hh.Ext.Dom.{Dom}
use otclick_hh.Ext.Snapshot.Elements.{radio_peers}
use otclick_hh.Ext.Snapshot.Labels.{option_label}
use otclick_hh.Ext.Filler.Actions.{Actions}
use otclick_hh.Ext.Filler.Choices.{best_peer}
use otclick_hh.Ext.Filler.Controls.{set_radio_group}

not_found :
    {A : Type 0} (p q : A → Bool) (xs : List A)
    → any (λ x. p x || q x) xs ≡ false
    → (find p xs ≡ none) × (find q xs ≡ none)
not_found p q [] h = (refl, refl)
not_found p q (x ∷ xs) h = ground (arith, not_found p q xs)

best_peer-none :
    {A : Type 0} (to_lower : Text → Text) (label value : A → Text) (target : Text) (xs : List A)
    → any (λ p. text_eq (to_lower (label p)) target || text_eq (to_lower (value p)) target) xs
      ≡ false
    → best_peer to_lower label value target xs ≡ none
unfolding best_peer
best_peer-none to_lower label value target xs h =
    let (missed, also) =
      not_found (λ p. text_eq (to_lower (label p)) target)
        (λ p. text_eq (to_lower (value p)) target) xs h in
    rw (missed, best_peer) also

module _ {Blob : Type 0} (d : Dom) (a : Actions d Blob) (document : d.Root) (depth : ℕ) where
  open d use {World, El, input_value, is_input, to_lower}

  -- Some button of the group of `el` has the answer as its label or value.
  abbrev pub some_peer : World → El → Text → Bool
  some_peer w el target =
      any
        (λ p.
          text_eq (to_lower (option_label d w p)) target
          || text_eq (to_lower (input_value w p)) target)
        (radio_peers d w el)

  pub set_radio_group-unmatched :
      (w : World) (el : El) (value : Text)
      → is_input el ≡ true
      → 1 < length (radio_peers d w el)
      → some_peer w el (to_lower (trim value)) ≡ false
      → set_radio_group d a document depth w el value ≡ w
  unfolding set_radio_group
  set_radio_group-unmatched w el value native many none_fits =
      let more : leb (length (radio_peers d w el)) 1 ≡ false = ground arith in
      rw
        (
          native,
          more,
          best_peer-none to_lower (option_label d w) (input_value w) (to_lower (trim value))
              (radio_peers d w el) none_fits,
        )
        refl
