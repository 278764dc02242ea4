-- ===== src/Web/CommandPalette.antt =====
-- frontend/src/components/otclick/command-palette.tsx: the commands of the palette and its cursor.
use otclick_hh.Common.{
  Bool, Bool-cases, List, Memᴰ, Option, Text, [], ap, arith, codes, drop, false, head,
  if◌then◌else◌, inl, inr, keep, length, ltb, map, negsuc, none, or_else, pos, refl, some, suc, sym,
  text_eq, true, zero, ℕ, ℤ, ◌++◌, ◌+◌, ◌-◌, ◌<◌, ◌∙◌, ◌∷◌, ◌≡◌,
}
use otclick_hh.Web.CommandRegistry.{Command}

pub data CommandGroup : Type 0 where
  navigation actions applications : CommandGroup

-- What `run` does: a page, a POST with the title of its toast, one of the drawers, a fresh status of
-- the worker, the sign-out, or a vacancy on hh.ru in a tab of its own.
pub data Run : Type 0 where
  go_to : Text → Run
  post : Text → Text → Run
  open_filters open_notifications refresh_status sign_out : Run
  open_vacancy : Text → Run

pub record PaletteCommand : Type 0 where
  pub command : Command
  pub group : CommandGroup
  pub hint : Option Text
  pub run : Run

-- The columns of an application that the palette asks for.
pub record Application : Type 0 where
  pub id : Text
  pub vacancy_id : Text
  pub employer_id : Option Text
  pub status : Text

abbrev nav : Text × Text × Text → PaletteCommand
nav (href, label, keywords) = record {
  command = record { id = codes "nav:" ++ href; label = label; keywords = some keywords };
  group = navigation;
  hint = none;
  run = go_to href;
}

abbrev action : Text × Text × Text × Run → PaletteCommand
action (id, label, keywords, run) = record {
  command = record { id = id; label = label; keywords = some keywords };
  group = actions;
  hint = none;
  run = run;
}

abbrev app : Application → PaletteCommand
app a = record {
  command = record {
    id = codes "app:" ++ a.id;
    label = codes "vacancy " ++ a.vacancy_id;
    keywords = some (or_else a.employer_id [] ++ codes " " ++ a.status);
  };
  group = applications;
  hint = some (codes "открыть на hh.ru");
  run = open_vacancy a.vacancy_id;
}

unfoldable pub nav_commands : List PaletteCommand
nav_commands = map nav (
    (codes "/dashboard", codes "Главная", codes "дашборд обзор")
    ∷ (codes "/vacancies", codes "Вакансии", codes "воронка скоринг источники правила очередь")
    ∷ (codes "/applications", codes "Отклики", codes "заявки вакансии")
    ∷ (codes "/chats", codes "Чаты", codes "переписка рекрутёр сообщения")
    ∷ (codes "/todo", codes "Задания", codes "задачи черновики анкеты todo")
    ∷ (codes "/account", codes "Аккаунт", codes "настройки профиль hh")
    ∷ [])

unfoldable pub action_commands : List PaletteCommand
action_commands = map action (
    (
      codes "act:start",
      codes "Запустить автоотклик",
      codes "старт worker run",
      post (codes "/api/worker/start") (codes "worker запущен"),
    )
    ∷ (
      codes "act:stop",
      codes "Остановить автоотклик",
      codes "стоп worker pause",
      post (codes "/api/worker/stop") (codes "worker остановлен"),
    )
    ∷ (
      codes "act:agent-start",
      codes "Запустить ИИ-агента",
      codes "агент ai старт",
      post (codes "/api/worker/agent/start") (codes "ИИ-агент запущен"),
    )
    ∷ (
      codes "act:agent-stop",
      codes "Остановить ИИ-агента",
      codes "агент ai стоп",
      post (codes "/api/worker/agent/stop") (codes "ИИ-агент остановлен"),
    )
    ∷ (codes "act:filters", codes "Открыть фильтры", codes "поиск настройки вакансий", open_filters)
    ∷ (
      codes "act:notifications",
      codes "Открыть уведомления",
      codes "события bell",
      open_notifications,
    )
    ∷ (
      codes "act:sync",
      codes "Синхронизировать резюме",
      codes "резюме hh обновить",
      post (codes "/api/resumes/sync") (codes "резюме синхронизированы"),
    )
    ∷ (codes "act:refresh", codes "Обновить статус воркера", codes "refresh статус", refresh_status)
    ∷ (codes "act:signout", codes "Выйти", codes "logout выход", sign_out)
    ∷ [])

-- `commands`
unfoldable pub commands : List Application → List PaletteCommand
unfolding nav_commands action_commands
commands recent = nav_commands ++ action_commands ++ map app recent

-- `open`, `query`, `cursor` and `recent`; `refocused` counts how often the trigger got the focus back
pub record Palette : Type 0 where
  pub is_open : Bool
  pub query : Text
  pub cursor : ℤ
  pub recent : List Application

-- `close`
unfoldable pub close : Palette → Palette
close s = record s { is_open = false; query = []; cursor = pos 0 }

-- the input's `onChange`, and the effect on `query`
unfoldable pub set_query : Text → Palette → Palette
set_query query s = record s {
  query = query;
  cursor = if text_eq query s.query then s.cursor else pos 0;
}

-- `Math.min(results.length - 1, c + 1)`, with `n` results
unfoldable pub arrow_down : ℕ → ℤ → ℤ
arrow_down zero (pos c) = negsuc 0
arrow_down zero (negsuc zero) = negsuc 0
arrow_down zero (negsuc (suc c)) = negsuc c
arrow_down (suc n) (pos c) = if ltb c n then pos (c + 1) else pos n
arrow_down (suc n) (negsuc zero) = pos 0
arrow_down (suc n) (negsuc (suc c)) = negsuc c

-- `Math.max(0, c - 1)`
unfoldable pub arrow_up : ℤ → ℤ
arrow_up (pos c) = pos (c - 1)
arrow_up (negsuc c) = pos 0

-- `results[i]`
unfoldable pub result_at {ℓ} : {A : Type ℓ} → List A → ℤ → Option A
result_at xs (pos i) = head (drop i xs)
result_at xs (negsuc i) = none

-- `runAt`: the palette after it, and the command that is run
unfoldable pub run_at : List PaletteCommand → ℤ → Palette → Palette × Option Run
unfolding close result_at
run_at results i s = elim (result_at results i) [
  | none ↦ (s, none)
  | some c ↦ (close s, some c.run)
]

abbrev pub same_group : CommandGroup → CommandGroup → Bool
same_group navigation navigation = true
same_group actions actions = true
same_group applications applications = true
same_group _ _ = false

abbrev in_group : List PaletteCommand → CommandGroup → List PaletteCommand
in_group results group = keep (λ c. same_group c.group group) results

-- the rows as they are shown, by `GROUP_ORDER`; a click on the `i`th of them calls `runAt(i)`
unfoldable pub displayed : List PaletteCommand → List PaletteCommand
displayed results =
    in_group results navigation ++ (in_group results actions ++ in_group results applications)

pub data Key : Type 0 where
  escape_key down_key up_key enter_key : Key

-- `onKeyDown` on the results of the query, and the command that is run
unfoldable pub on_key_down : List PaletteCommand → Key → Palette → Palette × Option Run
unfolding close arrow_down arrow_up run_at
on_key_down results escape_key s = (close s, none)
on_key_down results down_key s = (record s { cursor = arrow_down (length results) s.cursor }, none)
on_key_down results up_key s = (record s { cursor = arrow_up s.cursor }, none)
on_key_down results enter_key s = run_at results s.cursor s

abbrev pub arrow : Bool → Key
arrow true = down_key
arrow false = up_key

-- arrows pressed one after the other, down where true
unfoldable pub press_all : List PaletteCommand → List Bool → Palette → Palette
unfolding on_key_down
press_all results [] s = s
press_all results (k ∷ ks) s = press_all results ks (on_key_down results (arrow k) s).0

-- The cursor is on a result.
abbrev pub IsOn : ℕ → ℤ → Type 0
IsOn n (pos c) = c < n
IsOn n (negsuc c) = ⊥

arrow_down-IsOn : (n : ℕ) (c : ℤ) → IsOn n c → IsOn n (arrow_down n c)
unfolding arrow_down
arrow_down-IsOn zero (pos c) h = omega arith
arrow_down-IsOn (suc n) (pos c) h = elim (Bool-cases (ltb c n)) [
  | inl e ↦ rw e (ground arith)
  | inr e ↦ rw e (omega arith)
]
arrow_down-IsOn n (negsuc c) h = elim h [ ]

arrow_up-IsOn : (n : ℕ) (c : ℤ) → IsOn n c → IsOn n (arrow_up c)
unfolding arrow_up
arrow_up-IsOn n (pos c) h = omega arith
arrow_up-IsOn n (negsuc c) h = elim h [ ]

press_all-IsOn :
    (results : List PaletteCommand) (ks : List Bool) (s : Palette)
    → IsOn (length results) s.cursor
    → IsOn (length results) (press_all results ks s).cursor
unfolding press_all on_key_down
press_all-IsOn results [] s h = h
press_all-IsOn results (true ∷ ks) s h =
    press_all-IsOn results ks (record s { cursor = arrow_down (length results) s.cursor })
      (arrow_down-IsOn (length results) s.cursor h)
press_all-IsOn results (false ∷ ks) s h =
    press_all-IsOn results ks (record s { cursor = arrow_up s.cursor })
      (arrow_up-IsOn (length results) s.cursor h)

drop-some {ℓ} :
    {A : Type ℓ} (xs : List A) (i : ℕ) → i < length xs → (x : A) × (head (drop i xs) ≡ some x)
drop-some [] i h = let no : ⊥ = omega arith in elim no [ ]
drop-some (x ∷ xs) zero h = (x, refl)
drop-some (x ∷ xs) (suc i) h = drop-some xs i (omega arith)

result_at-some {ℓ} :
    {A : Type ℓ} (xs : List A) (c : ℤ) → IsOn (length xs) c → (x : A) × (result_at xs c ≡ some x)
unfolding result_at
result_at-some xs (pos i) h = drop-some xs i h
result_at-some xs (negsuc i) h = elim h [ ]

-- Where the results stand in the order of the rows that are shown, the arrows keep the cursor on a
-- row, whatever their number and order, and Enter closes the palette and runs the command of the
-- row under the cursor.
pub enter_runs :
    (results : List PaletteCommand) (ks : List Bool) (s : Palette)
    → 0 < length results
    → s.cursor ≡ pos 0
    → displayed results ≡ results
    → (c : PaletteCommand) × (result_at (displayed results) (press_all results ks s).cursor
        ≡ some c)
      × (on_key_down results enter_key (press_all results ks s)
          ≡ (close (press_all results ks s), some c.run))
unfolding on_key_down run_at
enter_runs results ks s h at_start grouped =
    let start : IsOn (length results) s.cursor = rw at_start h in
    let (c, found) =
      result_at-some results (press_all results ks s).cursor (press_all-IsOn results ks s start) in
    (c, rw grouped found, rw (found, run_at) refl)

is_navigation : (group : CommandGroup) → same_group group navigation ≡ true → group ≡ navigation
is_navigation navigation e = refl
is_navigation actions e = ground arith
is_navigation applications e = ground arith

first_of_group :
    (n : PaletteCommand) (results rest : List PaletteCommand)
    → Memᴰ n results
    → n.group ≡ navigation
    → (shown : PaletteCommand) × (head (in_group results navigation ++ rest) ≡ some shown)
      × (shown.group ≡ navigation)
first_of_group n [] rest m g = elim m [ ]
first_of_group n (r ∷ rs) rest (Memᴰ.head same) g =
    let here : r.group ≡ navigation = sym (ap (λ c. c.group) same) ∙ g in
    let e : same_group r.group navigation ≡ true = rw here refl in (r, rw e refl, here)
first_of_group n (r ∷ rs) rest (Memᴰ.tail later) g =
    elim (Bool-cases (same_group r.group navigation)) [
      | inl e ↦ (r, rw e refl, is_navigation r.group e)
      | inr e ↦ rw e (first_of_group n rs rest later g)
    ]

-- A click can run another command than the one clicked: when an action ranks before all other
-- results and a page is among these, the first row shown is a page, and a click on it runs the
-- action.
pub click_runs_other :
    (r n : PaletteCommand) (rs : List PaletteCommand) (s : Palette)
    → r.group ≡ actions
    → Memᴰ n rs
    → n.group ≡ navigation
    → (shown : PaletteCommand) × (head (displayed (r ∷ rs)) ≡ some shown)
      × (shown.group ≡ navigation)
      × (run_at (r ∷ rs) (pos 0) s ≡ (close s, some r.run))
unfolding displayed run_at result_at
click_runs_other r n rs s a m g =
    let (shown, first, nav') =
      first_of_group n (r ∷ rs) (in_group (r ∷ rs) actions ++ in_group (r ∷ rs) applications)
        (Memᴰ.tail m) g in
    (shown, first, nav', refl)
