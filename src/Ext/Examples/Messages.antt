-- ===== src/Ext/Examples/Messages.antt =====
-- Examples for the parts of the extension that work on plain data: ext/lib/edits.ts,
-- deterministic-fill.ts, chat-store.ts, panel.ts, auth.ts and the background script.
use otclick_hh.Common.{
  All, List, Memᴰ, Option, String, Text, [], arith, codes, false, if◌then◌else◌, is_space, none,
  refl, some, take_last, text_eq, trim, trim_end, trim_start, ℕ, ◌++◌, ◌∷◌, ◌≡◌,
}
use otclick_hh.Ext.Api.{LabelledField, map_get, profile}
use otclick_hh.Ext.Edits.{Current, QaItem, collect_edits}
use otclick_hh.Ext.Edits.Laws.{FromEdit, IsEdit, collect_edits_complete, collect_edits_sound}
use otclick_hh.Ext.DeterministicFill.{FormEl, Resume, deterministic_fields}
use otclick_hh.Ext.DeterministicFill.Laws.{Justified, deterministic_fields-Justified}
use otclick_hh.Ext.ChatTurn.{send_chat, send_chat-window, turn}
use otclick_hh.Ext.Content.{answer}
use otclick_hh.Ext.ChatStore.{ChatMsg, array, load_history, max_history, user}
use otclick_hh.Ext.Panel.{Panel, mounted}
use otclick_hh.Ext.Auth.{AuthService, StoredAuth, get_valid_jwt, given}
use otclick_hh.Ext.Auth.Tokens.{Agrees, get_valid_jwt-Agrees}
use otclick_hh.Ext.Background.{Background, Msg, Request, Response, handle}
use otclick_hh.Ext.Background.Guards.{AsksWithOwn, SendsOurs, handle-IsOurs}

abbrev city_field : LabelledField
city_field = record {
  field = record {
    frame_id = 0;
    ref = codes "e0";
    selector = codes "#city";
    field_type = "text";
    value = codes "Rome";
    source = profile;
    filename = none;
    required = none;
  };
  label = codes "City";
}

abbrev city_now : Current
city_now = record { ref = codes "e0"; label = codes "City"; value = codes " Oslo " }

abbrev city_item : QaItem
city_item = record { question = codes "City"; answer = codes "Oslo" }

collect_edits_sound_example :
    All
      (FromEdit (city_field ∷ []) (city_now ∷ []))
      (collect_edits (city_field ∷ []) (city_now ∷ []))
collect_edits_sound_example = collect_edits_sound (city_field ∷ []) (city_now ∷ [])

city-IsEdit : IsEdit (city_field ∷ []) city_now city_item
unfolding map_get trim trim_start trim_end is_space
city-IsEdit = record {
  prev = city_field;
  filled = refl;
  question = refl;
  answer = refl;
  asked = λ e. ground arith;
  answered = λ e. ground arith;
  changed = λ e. ground arith;
}

collect_edits_complete_example : Memᴰ city_item (collect_edits (city_field ∷ []) (city_now ∷ []))
collect_edits_complete_example =
    collect_edits_complete (city_field ∷ []) (city_now ∷ []) city_now city_item (Memᴰ.head refl)
      city-IsEdit

abbrev form_el : String → Text → FormEl
form_el type label = record {
  ref = codes "e0";
  selector = codes "#x";
  field_type = type;
  label = some label;
  required = none;
}

abbrev known_facts : List (String × Text)
known_facts = ("email", codes "a@b.io") ∷ []

abbrev resume_file : Resume
resume_file = record { url = codes "/resume"; filename = codes "cv.pdf" }

abbrev mail_form : List FormEl
mail_form = form_el "file" (codes "CV") ∷ form_el "text" (codes "email") ∷ []

deterministic_fields-Justified_example :
    All
      (Justified (λ c. c) known_facts (some resume_file) mail_form)
      (deterministic_fields (λ c. c) mail_form known_facts (some resume_file))
deterministic_fields-Justified_example =
    deterministic_fields-Justified (λ c. c) known_facts (some resume_file) mail_form

abbrev hello : ChatMsg
hello = record { role = user; content = codes "hi" }

abbrev typed_panel : Panel
typed_panel = record mounted { input = codes "hi" }

abbrev service : AuthService
service = record {
  now = 1000000;
  payload = λ jwt. if text_eq jwt (codes "old") then some (some 900) else some (some 5000);
  set_session = λ access refresh.
      given (some (record { access_token = codes "new"; refresh_token = codes "r2" })) (some none);
}

abbrev old_auth : StoredAuth
old_auth = record { jwt = some (codes "old"); refresh_token = some (codes "r"); email = none }

get_valid_jwt-Agrees_example : Agrees service old_auth (get_valid_jwt service old_auth)
get_valid_jwt-Agrees_example = get_valid_jwt-Agrees service old_auth

abbrev backend : Request ℕ → Option (Response ℕ)
backend r = some (record {
  status = 200;
  json = 7;
  context = record { facts = 1; has_resume_file = false; resume_filename = none };
  answer = 8;
  saved = 2;
})

abbrev signed_in : Background ℕ
signed_in = record { stored = old_auth; tabs = []; sent = []; sessions = [] }

abbrev api : Text
api = codes "https://api"

abbrev app : Text
app = codes "https://app"

handle-IsOurs_example :
    SendsOurs service api app backend signed_in
      (handle service api app backend (Msg.chat 3 none) signed_in).0
    × AsksWithOwn service api app backend
        (Msg.chat 3 none)
        signed_in
        (handle service api app backend (Msg.chat 3 none) signed_in).0
handle-IsOurs_example = handle-IsOurs service api app backend (Msg.chat 3 none) signed_in

send_chat-window_example :
    load_history (send_chat (λ h p. answer none) [] (array (hello ∷ [])) (codes "q")).0
    ≡ take_last max_history (
        load_history (array (hello ∷ []))
        ++ turn (codes "q") (send_chat (λ h p. answer none) [] (array (hello ∷ [])) (codes "q")).1)
unfolding load_history
send_chat-window_example =
    send_chat-window (λ h p. answer none) [] (array (hello ∷ [])) (codes "q") (omega arith)
