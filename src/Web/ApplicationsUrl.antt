-- ===== src/Web/ApplicationsUrl.antt =====
-- frontend/src/lib/applications-url.ts: the filters of the applications page in its URL.
pub mod Search
pub mod RoundTrip
use otclick_hh.Common.{
  Bool, List, Option, Text, [], any, codes, eqb, if◌then◌else◌, is_empty, keep, ltb, negsuc, none,
  not, or_else, parse_int, pos, show_nat, some, text_eq, trim, ℕ, ℤ, ◌++◌, ◌+◌, ◌-◌, ◌||◌, ◌∷◌,
}

pub record ApplicationsView : Type 0 where
  pub status : Text
  pub q : Text
  -- counted from 0
  pub page : ℕ

abbrev pub application_status_ids : List Text
application_status_ids =
    codes "all"
    ∷ codes "sent"
    ∷ codes "form_sent"
    ∷ codes "captcha"
    ∷ codes "failed"
    ∷ codes "skipped"
    ∷ codes "queued"
    ∷ []

abbrev pub default_view : ApplicationsView
default_view = record { status = codes "all"; q = []; page = 0 }

-- The pairs of a `URLSearchParams`, in order.
abbrev pub Params : Type 0
Params = List (Text × Text)

-- `params.get(name)`: the first value under the name
unfoldable pub param : Text → Params → Option Text
param name [] = none
param name ((k, v) ∷ ps) = let rest = param name ps in if text_eq k name then some v else rest

-- `Number.isFinite(rawPage) && rawPage > 0 ? rawPage - 1 : 0`
abbrev pub page_of : Option ℤ → ℕ
page_of none = 0
page_of (some (pos n)) = if ltb 0 n then n - 1 else 0
page_of (some (negsuc n)) = 0

unfoldable pub is_status : Text → Bool
is_status s = any (text_eq s) application_status_ids

unfoldable pub parse_view : Params → ApplicationsView
parse_view params =
    let raw_status = or_else (param (codes "status") params) [] in
    record {
      status = if is_status raw_status then raw_status else default_view.status;
      q = trim (or_else (param (codes "q") params) []);
      page = page_of (parse_int (or_else (param (codes "p") params) []));
    }

abbrev pub is_structural : ℕ → Bool
is_structural c = eqb c b',' || eqb c b'(' || eqb c b')' || eqb c 34 || eqb c 92

unfoldable pub sanitize_search : Text → Text
sanitize_search raw = trim (keep (λ c. not (is_structural c)) raw)

abbrev pub set_if : Bool → Text → Text → Params
set_if b name value = if b then (name, value) ∷ [] else []

-- the pairs that `serializeView` sets, each name once
unfoldable pub view_params : ApplicationsView → Params
view_params view =
    set_if (not (text_eq view.status default_view.status)) (codes "status") view.status
    ++ set_if (not (is_empty (trim view.q))) (codes "q") (trim view.q)
    ++ set_if (ltb 0 view.page) (codes "p") (show_nat (view.page + 1))

-- `encode` is `params.toString()`.
unfoldable pub serialize_view : (Params → Text) → ApplicationsView → Text
unfolding view_params
serialize_view encode view =
    let qs = encode (view_params view) in if is_empty qs then [] else codes "?" ++ qs

-- What a view is read back as: an unknown status becomes "all" and the search is trimmed.
unfoldable pub normal_view : ApplicationsView → ApplicationsView
normal_view view = record {
  status = if is_status view.status then view.status else default_view.status;
  q = trim view.q;
  page = view.page;
}
