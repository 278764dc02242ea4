-- ===== src/Ext/Panel.antt =====
-- ext/lib/panel.ts: the state of the in-page panel and the calls of its controller.
pub mod Laws
use otclick_hh.Common.{
  Bool, List, Option, Text, [], codes, concat_map, eqb, false, if◌then◌else◌, is_empty, none, not,
  show_nat, some, trim, true, ℕ, ◌++◌, ◌||◌, ◌∷◌,
}
use otclick_hh.Ext.Api.{LabelledField, Source, ai, profile}
use otclick_hh.Ext.ChatStore.{ChatMsg, assistant, user}

pub data Tab : Type 0 where
  fill chat settings : Tab

-- `FillState`, with the data that each state is given
pub data FillState : Type 0 where
  idle working : FillState
  done : ℕ → FillState
  saved : ℕ → FillState
  error : Text → FillState

-- the characters that `esc` replaces
abbrev pub escaped : ℕ → Text
escaped c =
    if eqb c b'&'
    then codes "&amp;"
    else if eqb c b'<'
    then codes "&lt;"
    else if eqb c b'>'
    then codes "&gt;"
    else if eqb c 34
    then codes "&quot;"
    else if eqb c 39
    then codes "&#39;"
    else c ∷ []

unfoldable pub esc : Text → Text
esc s = concat_map escaped s

abbrev pub source_text : Source → Text
source_text profile = codes "profile"
source_text ai = codes "ai"

-- one item of the list of `renderFilledList`
unfoldable pub render_item : LabelledField → Text
render_item f =
    codes "<li class=\"otc-src-"
    ++ esc (source_text f.source)
    ++ codes "\"><span class=\"otc-k\">"
    ++ esc f.label
    ++ codes "</span><span class=\"otc-v\">"
    ++ esc f.value
    ++ codes "</span></li>"

unfoldable pub render_filled_list : List LabelledField → Text
render_filled_list [] = codes "<p class=\"otc-empty\">Пока ничего не заполнено</p>"
render_filled_list (f ∷ fs) =
    codes "<ul class=\"otc-list\">" ++ concat_map render_item (f ∷ fs) ++ codes "</ul>"

unfoldable pub status_text : FillState → Text
status_text working = codes "Заполняю…"
status_text (done n) =
    codes "Готово: " ++ show_nat n ++ codes " полей. Проверьте и отправьте форму сами."
status_text (saved n) =
    if eqb n 0
    then codes "Правок не найдено — сохранять нечего."
    else codes "Сохранено ответов: " ++ show_nat n ++ codes ". В следующий раз подставим их."
status_text (error e) = e
status_text idle = []

-- What the panel shows: the fields that the controller and the click handlers write.
pub record Panel : Type 0 where
  pub hidden : Bool
  pub selected : Tab
  pub status : Text
  pub save_hidden : Bool
  pub fill_disabled : Bool
  pub filled : Text
  pub email : Text
  pub signin_hidden : Bool
  pub signout_hidden : Bool
  -- the messages of the chat, `[]` standing for the note that the history is empty
  pub messages : List ChatMsg
  pub input : Text
  pub send_disabled : Bool

-- the panel as `mountPanel` builds it
abbrev pub mounted : Panel
mounted = record {
  hidden = true;
  selected = fill;
  status = [];
  save_hidden = true;
  fill_disabled = false;
  filled = [];
  email = [];
  signin_hidden = false;
  signout_hidden = true;
  messages = [];
  input = [];
  send_disabled = false;
}

abbrev pub same_tab : Tab → Tab → Bool
same_tab fill fill = true
same_tab chat chat = true
same_tab settings settings = true
same_tab _ _ = false

-- `setTab` selects one tab and hides the panes and footers of the others.
unfoldable pub set_tab : Tab → Panel → Panel
set_tab t p = record p { selected = t }

unfoldable pub pane_hidden : Panel → Tab → Bool
pane_hidden p t = not (same_tab t p.selected)

unfoldable pub toggle : Panel → Panel
toggle p = record p { hidden = not p.hidden }

unfoldable pub set_auth : Bool → Text → Panel → Panel
set_auth logged_in email p = record p {
  email = if logged_in then email else codes "Вы не вошли";
  signin_hidden = logged_in;
  signout_hidden = not logged_in;
}

abbrev is_done : FillState → Bool
is_done (done n) = true
is_done _ = false

abbrev is_working : FillState → Bool
is_working working = true
is_working _ = false

unfoldable pub set_state : FillState → Panel → Panel
set_state s p = record p {
  status = status_text s;
  save_hidden = not (is_done s);
  fill_disabled = is_working s;
}

unfoldable pub set_filled : List LabelledField → Panel → Panel
set_filled fields p = record p { filled = render_filled_list fields }

unfoldable pub append_chat : ChatMsg → Panel → Panel
append_chat m p = record p { messages = p.messages ++ m ∷ [] }

unfoldable pub clear_chat : Panel → Panel
clear_chat p = record p { messages = [] }

-- `send` up to its `await`: the text to send, if any
unfoldable pub send : Panel → Panel × Option Text
unfolding append_chat
send p =
    let text = trim p.input in
    if is_empty text || p.send_disabled then (p, none) else (
      record (append_chat (record { role = user; content = text }) p) {
        input = [];
        send_disabled = true;
      },
      some text,
    )

abbrev with_answer : Option Text → Panel → Panel
with_answer none p = p
with_answer (some answer) p = append_chat (record { role = assistant; content = answer }) p

-- `send` after its `await`: the answer, or none where `onSend` threw
unfoldable pub answered : Option Text → Panel → Panel
answered answer p = record (with_answer answer p) { send_disabled = false }
