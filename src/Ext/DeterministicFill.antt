-- ===== src/Ext/DeterministicFill.antt =====
-- ext/lib/deterministic-fill.ts: the fields that need no model, filled from the resume's facts.
pub mod Laws
use otclick_hh.Common.{
  Bool, List, Option, String, Text, [], any, codes, eqb, false, find, if◌then◌else◌, map, none,
  or_else, some, true, ℕ, ◌&&◌, ◌++◌, ◌==◌, ◌||◌, ◌∷◌,
}
use otclick_hh.Ext.Api.{FilledField, profile}

-- A pattern: alternatives, each a run of literal and optional code units. `fold` is the engine's
-- case folding under the flag `i`.
pub data Item : Type 0 where
  lit : ℕ → Item
  opt : ℕ → Item

module _ (fold : ℕ → ℕ) where
  pub match_here : List Item → Text → Bool
  match_here [] s = true
  match_here (lit c ∷ r) [] = false
  match_here (lit c ∷ r) (d ∷ s) = eqb (fold c) (fold d) && match_here r s
  match_here (opt c ∷ r) [] = match_here r []
  match_here (opt c ∷ r) (d ∷ s) = eqb (fold c) (fold d) && match_here r s || match_here r (d ∷ s)

  -- `re.test(label)`: some alternative matches at some place
  unfoldable pub re_test : List (List Item) → Text → Bool
  unfolding match_here
  re_test alts [] = any (λ a. match_here a []) alts
  re_test alts (d ∷ s) = any (λ a. match_here a (d ∷ s)) alts || re_test alts s

abbrev pub word : String → List Item
word s = map lit (codes s)

pub record Rule : Type 0 where
  pub key : String
  pub re : List (List Item)

-- `RULES`: the first match wins.
abbrev pub rules : List Rule
rules =
    record {
      key = "email";
      re = (lit b'e' ∷ opt b'-' ∷ word "mail") ∷ word "почт" ∷ word "электрон" ∷ [];
    }
    ∷ record { key = "phone"; re = word "phone" ∷ word "телефон" ∷ word "моб" ∷ [] }
    ∷ record { key = "city"; re = word "город" ∷ word "city" ∷ word "населённый пункт" ∷ [] }
    ∷ record { key = "citizenship"; re = word "гражданств" ∷ word "citizenship" ∷ [] }
    ∷ record {
      key = "full_name";
      re =
          (word "ф" ++ opt b'.' ∷ (word "и" ++ opt b'.' ∷ word "о"))
          ∷ word "имя и фамилия"
          ∷ word "фамилия и имя"
          ∷ word "full name"
          ∷ word "your name"
          ∷ [];
    }
    ∷ record { key = "last_name"; re = word "фамилия" ∷ word "last name" ∷ word "surname" ∷ [] }
    ∷ record { key = "first_name"; re = word "имя" ∷ word "first name" ∷ [] }
    ∷ record {
      key = "title";
      re = word "должность" ∷ word "позици" ∷ word "position" ∷ word "desired role" ∷ [];
    }
    ∷ []

pub record FormEl : Type 0 where
  pub ref : Text
  pub selector : Text
  pub field_type : String
  pub label : Option Text
  pub required : Option Bool

pub record Resume : Type 0 where
  pub url : Text
  pub filename : Text

-- `obj[key]` on a record of own properties
unfoldable pub prop {ℓ} : {V : Type ℓ} → String → List (String × V) → Option V
prop k [] = none
prop k ((j, v) ∷ m) = let rest = prop k m in if j == k then some v else rest

pub file_field : FormEl → Resume → FilledField
file_field el resume = record {
  frame_id = 0;
  ref = el.ref;
  selector = el.selector;
  field_type = "file";
  value = resume.url;
  source = profile;
  filename = some resume.filename;
  required = some (or_else el.required false);
}

pub text_field : FormEl → Text → FilledField
text_field el value = record {
  frame_id = 0;
  ref = el.ref;
  selector = el.selector;
  field_type = "text";
  value = value;
  source = profile;
  filename = none;
  required = some (or_else el.required false);
}

-- `if (!value) continue; out.push(…)`
abbrev pub push_text : FormEl → Option Text → List FilledField → List FilledField
push_text el none out = out
push_text el (some []) out = out
push_text el (some (c ∷ v)) out = text_field el (c ∷ v) ∷ out

abbrev pub push_file : FormEl → Option Resume → List FilledField → List FilledField
push_file el none out = out
push_file el (some r) out = file_field el r ∷ out

module _ (fold : ℕ → ℕ) where
  -- `RULES.find((r) => r.re.test(label))`
  pub rule_for : Text → Option Rule
  unfolding re_test
  rule_for label = find (λ r. re_test fold r.re label) rules

  abbrev pub fact_of : List (String × Text) → Option Rule → Option Text
  fact_of facts none = none
  fact_of facts (some rule) = prop rule.key facts

  -- `rule ? facts[rule.key] : undefined`
  unfoldable pub value_for : List (String × Text) → Option Text → Option Text
  unfolding rule_for prop
  value_for facts label = fact_of facts (rule_for (or_else label []))

  pub deterministic_fields : List FormEl → List (String × Text) → Option Resume → List FilledField
  unfolding value_for
  deterministic_fields [] facts resume = []
  deterministic_fields (el ∷ els) facts resume =
      let rest = deterministic_fields els facts resume in
      if el.field_type == "file"
      then push_file el resume rest
      else if el.field_type == "text"
      then push_text el (value_for facts el.label) rest
      else rest
