-- ===== src/Ext/Filler/Controls/Options.antt =====
-- ext/lib/snapshot.ts: toggles that are no inputs.
use otclick_hh.Common.{Text, arith, not, trim, ℕ, ◌≡◌}
use otclick_hh.Ext.Dom.{Dom}
use otclick_hh.Ext.Filler.Actions.{Actions}
use otclick_hh.Ext.Filler.Choices.{is_truthy}
use otclick_hh.Ext.Filler.Controls.{aria_checked, set_aria_toggle}

module _ {Blob : Type 0} (d : Dom) (a : Actions d Blob) (document : d.Root) (depth : ℕ) where
  open d use {World, El, to_lower}
  open a use {real_click, focus, mutations}

  -- A toggle that is no input is clicked exactly when it is not yet as wanted: if a click on it
  -- turns it over, it stands as wanted afterwards.
  pub set_aria_toggle-checked :
      ((w : World) (el : El)
        → aria_checked d a document depth (real_click w el) el
          ≡ not (aria_checked d a document depth w el))
      → (w : World) (el : El) (value : Text)
      → aria_checked d a document depth (set_aria_toggle d a document depth w el value) el
        ≡ is_truthy (to_lower (trim value))
  unfolding set_aria_toggle
  set_aria_toggle-checked flips w el value = ground (arith, flips w el)
