-- ===== src/Web/Examples/Components.antt =====
-- Examples for the lists, the drawers and the modals of the web application.
use otclick_hh.Common.{
  List, Memᴰ, Text, [], arith, codes, false, head, inr, none, pos, refl, some, true, ◌∷◌, ◌≡◌,
}
use otclick_hh.Web.Collections.{Row}
use otclick_hh.Web.CaptchaModal
use otclick_hh.Web.CaptchaModal.Solved.{IsNotAbout, happen_all-IsNotAbout}
use otclick_hh.Web.CaptchaModal.{CaptchaRequest, closed_modal, inserted, updated}
use otclick_hh.Web.CommandPalette.{
  Palette, PaletteCommand, actions, click_runs_other, close, displayed, enter_key, enter_runs,
  go_to, navigation, on_key_down, press_all, refresh_status, result_at, run_at,
}
use otclick_hh.Web.FormDrafts.{FormAnswer, choice}
use otclick_hh.Web.FormDraftCard.{Card}

abbrev acme : Row Text
acme = record { id = codes "1"; rest = codes "Acme" }

abbrev bolt : Row Text
bolt = record { id = codes "2"; rest = codes "Bolt" }

abbrev asked : CaptchaRequest
asked = record { id = codes "c"; storage_path = some (codes "p"); solved = false }

abbrev next_asked : CaptchaRequest
next_asked = record asked { id = codes "e" }

happen_all-IsNotAbout_example :
    IsNotAbout
      (codes "c")
      (CaptchaModal.happen_all
        (updated (record asked { solved = true }) ∷ inserted next_asked ∷ [])
        (record closed_modal { pending = some asked })).pending
happen_all-IsNotAbout_example =
    happen_all-IsNotAbout (record asked { solved = true }) (inserted next_asked ∷ [])
      (record closed_modal { pending = some asked }) refl (inr refl, tt)

abbrev status_command : PaletteCommand
status_command = record {
  command = record { id = codes "act:refresh"; label = codes "Обновить"; keywords = none };
  group = actions;
  hint = none;
  run = refresh_status;
}

abbrev home_command : PaletteCommand
home_command = record {
  command = record { id = codes "nav:/dashboard"; label = codes "Главная"; keywords = none };
  group = navigation;
  hint = none;
  run = go_to (codes "/dashboard");
}

abbrev open_palette : Palette
open_palette = record { is_open = true; query = codes "об"; cursor = pos 0; recent = [] }

abbrev in_order : List PaletteCommand
in_order = home_command ∷ status_command ∷ []

enter_runs_example :
    (c : PaletteCommand) × (result_at
        (displayed in_order)
        (press_all in_order (true ∷ true ∷ []) open_palette).cursor
      ≡ some c)
    × (on_key_down in_order enter_key (press_all in_order (true ∷ true ∷ []) open_palette)
        ≡ (close (press_all in_order (true ∷ true ∷ []) open_palette), some c.run))
unfolding displayed
enter_runs_example = enter_runs in_order (true ∷ true ∷ []) open_palette (omega arith) refl refl

click_runs_other_example :
    (shown : PaletteCommand) × (head (displayed (status_command ∷ home_command ∷ [])) ≡ some shown)
    × (shown.group ≡ navigation)
    × (run_at (status_command ∷ home_command ∷ []) (pos 0) open_palette
        ≡ (close open_palette, some refresh_status))
click_runs_other_example =
    click_runs_other status_command home_command (home_command ∷ []) open_palette refl
      (Memᴰ.head refl) refl

abbrev visa : FormAnswer
visa = record {
  task_id = codes "7";
  question = codes "Visa?";
  type = choice;
  options = some ((codes "y", codes "Yes") ∷ (codes "n", codes "No") ∷ []);
  answer_id = none;
  answer = [];
}

abbrev card : Card
card = record { answers = visa ∷ []; letter = [] }
