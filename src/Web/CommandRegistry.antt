-- ===== src/Web/CommandRegistry.antt =====
-- frontend/src/lib/command-registry.ts: which commands the palette shows, and in which order.
pub mod Ranks
use mathlib.Core.Option
use otclick_hh.Common.{
  Bool, List, Option, Text, [], codes, drop, eqb, if◌then◌else◌, index_of, is_empty, leb, ltb, map,
  none, or_else, some, starts_with, suc, trim, ℕ, ◌&&◌, ◌++◌, ◌-◌, ◌||◌, ◌∷◌,
}

pub record Command : Type 0 where
  pub id : Text
  pub label : Text
  pub keywords : Option Text

-- the character before the match, when it is not at the start
abbrev pub score_at : Text → ℕ → ℕ
score_at haystack idx =
    if eqb idx 0 then 3 else if starts_with (drop (idx - 1) haystack) (codes " ") then 2 else 1

-- `lower` is `toLowerCase`.
module _ (lower : Text → Text) where
  unfoldable pub haystack_of : Command → Text
  haystack_of cmd = lower (cmd.label ++ codes " " ++ or_else cmd.keywords [])

  -- `none` is -1, no match.
  unfoldable pub score_command : Text → Command → Option ℕ
  score_command query cmd =
      let q = lower (trim query) in
      if is_empty q
      then some 0
      else Option.map (score_at (haystack_of cmd)) (index_of (haystack_of cmd) q)

-- A command that matches, its place in the registry and its score.
pub record Entry : Type 0 where
  pub cmd : Command
  pub place : ℕ
  pub score : ℕ

abbrev pub entries_with : ℕ → Command → Option ℕ → List Entry → List Entry
entries_with i cmd none rest = rest
entries_with i cmd (some n) rest = record { cmd = cmd; place = i; score = n } ∷ rest

-- the `map` with the index and the `filter`
abbrev pub entries : (Command → Option ℕ) → ℕ → List Command → List Entry
entries score i [] = []
entries score i (cmd ∷ cmds) = entries_with i cmd (score cmd) (entries score (suc i) cmds)

-- the comparator `(b.score - a.score) || (a.i - b.i)` is not positive
unfoldable pub precedes : Entry → Entry → Bool
precedes a b = ltb b.score a.score || (eqb b.score a.score && leb a.place b.place)

-- A stable sort by that comparator, by insertion.
abbrev pub insert : Entry → List Entry → List Entry
insert e [] = e ∷ []
insert e (x ∷ xs) = let rest = insert e xs in if precedes e x then e ∷ x ∷ xs else x ∷ rest

abbrev pub sort : List Entry → List Entry
sort [] = []
sort (e ∷ es) = insert e (sort es)

unfoldable pub match_commands : (Text → Text) → List Command → Text → List Command
match_commands lower commands query =
    map (λ e. e.cmd) (sort (entries (score_command lower query) 0 commands))
