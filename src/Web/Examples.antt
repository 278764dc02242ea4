-- ===== src/Web/Examples.antt =====
-- Examples for the logic of the web application.
mod Chats
mod Lists
mod Pages
mod Components
mod Vacancies
mod Cards
use otclick_hh.Common.{
  Text, [], ap, append-nil, codes, false, is_empty, none, pos, refl, some, suc, zero, ℕ, ◌++◌, ◌∷◌,
  ◌≡◌,
}
use otclick_hh.Web.ApplicationsUrl.{
  ApplicationsView, Params, normal_view, parse_view, serialize_view,
}
use otclick_hh.Web.ApplicationsUrl.RoundTrip.{parse_view-serialize_view}
use otclick_hh.Web.CommandRegistry.{Command, match_commands}
use otclick_hh.Web.CommandRegistry.Ranks.{match_commands-ranked, ranked}
use otclick_hh.Web.NavCounts.{NavCountsInput}
use otclick_hh.Web.Middleware.{destination, follow, follow-destination}
use otclick_hh.Web.Connect.{
  Connect, IsLinked, Reachable, Reachable-IsLinked, Step, Use, captcha_required, first_use, initial,
  running, start, start_done, started,
}

follow-destination_example :
    follow false 2 (codes "/filters") ≡ some (destination false (codes "/filters"))
follow-destination_example = follow-destination false (codes "/filters")

abbrev command : Command
command = record { id = codes "c"; label = codes "chats"; keywords = none }

match_commands-ranked_example :
    match_commands (λ s. s) (command ∷ command ∷ []) (codes "ch")
    ≡ ranked (λ s. s) (codes "ch") (command ∷ command ∷ [])
match_commands-ranked_example = match_commands-ranked (λ s. s) (command ∷ command ∷ []) (codes "ch")

abbrev counts : NavCountsInput
counts = record {
  chats = some (pos 2) ∷ none ∷ [];
  form_drafts = 1;
  recruiter_drafts = 0;
  todos = 3;
  questions = 0;
  unread_notifications = pos 0;
}

abbrev begun_use : Use
begun_use = record first_use { hook = start initial }

abbrev job_use : Use
job_use = record begun_use {
  hook = start_done (started (codes "j") running) (start initial);
  begun = codes "j" ∷ [];
}

Reachable-IsLinked_example : IsLinked job_use
Reachable-IsLinked_example = Reachable-IsLinked (
    Reachable.next (Reachable.next Reachable.first (Step.begin first_use))
      (Step.begun_with begun_use (started (codes "j") running)))

abbrev waiting : Connect
waiting = record initial { job_id = some (codes "j"); phase = captcha_required }

-- A query string of its own: a pair is a 0, its name, a 1 and its value, each character two higher.
abbrev shift : Text → Text → Text
shift [] t = t
shift (c ∷ s) t = suc (suc c) ∷ shift s t

abbrev pub encode_pairs : Params → Text
encode_pairs [] = []
encode_pairs ((k, v) ∷ ps) = 0 ∷ shift k (1 ∷ shift v (encode_pairs ps))

abbrev Parsed : Type 0
Parsed = Text × Text × Params

abbrev parse_code : ℕ → Parsed → Parsed
parse_code zero (s, v, ps) = ([], [], (s, v) ∷ ps)
parse_code (suc zero) (s, v, ps) = ([], s, ps)
parse_code (suc (suc c)) (s, v, ps) = (c ∷ s, v, ps)

abbrev parse_pairs : Text → Parsed
parse_pairs [] = ([], [], [])
parse_pairs (c ∷ s) = parse_code c (parse_pairs s)

abbrev pub decode_pairs : Text → Params
decode_pairs [] = []
decode_pairs (c ∷ s) = (parse_pairs s).2

parse_pairs-shift :
    (s t r v : Text) (ps : Params)
    → parse_pairs t ≡ (r, v, ps)
    → parse_pairs (shift s t) ≡ (s ++ r, v, ps)
parse_pairs-shift [] t r v ps e = e
parse_pairs-shift (c ∷ s) t r v ps e = rw (parse_pairs-shift s t r v ps e) refl

pub parse_pairs-encode_pairs : (ps : Params) → parse_pairs (encode_pairs ps) ≡ ([], [], ps)
parse_pairs-encode_pairs [] = refl
parse_pairs-encode_pairs ((k, v) ∷ ps) =
    let value = parse_pairs-shift v (encode_pairs ps) [] [] ps (parse_pairs-encode_pairs ps) in
    let name =
      parse_pairs-shift k (1 ∷ shift v (encode_pairs ps)) [] v ps (rw (value, append-nil) refl) in
    rw (name, append-nil) refl

pub is_empty-encode_pairs : (ps : Params) → is_empty (encode_pairs ps) ≡ is_empty ps
is_empty-encode_pairs [] = refl
is_empty-encode_pairs ((k, v) ∷ ps) = refl

abbrev second_page : ApplicationsView
second_page = record { status = codes "sent"; q = codes " ts "; page = 1 }

parse_view-serialize_view_example :
    parse_view (decode_pairs (serialize_view encode_pairs second_page)) ≡ normal_view second_page
parse_view-serialize_view_example =
    parse_view-serialize_view encode_pairs decode_pairs
      (λ ps. ap (λ r. r.2) (parse_pairs-encode_pairs ps)) refl is_empty-encode_pairs second_page
