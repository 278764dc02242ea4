-- ===== src/Web/ApplicationsUrl/RoundTrip.antt =====
-- frontend/src/lib/applications-url.ts: reading the address that a view is written to.
use otclick_hh.Common.{
  Bool, Bool-cases, Text, [], ap, arith, codes, false, if◌then◌else◌, inl, inr, is_empty,
  is_empty-nil, ltb, none, not, or_else, parse_int, parse_int-show_nat, refl, show_nat, some, sym,
  text_eq, text_eq→eq, trim, trim_idem, true, ℕ, ◌++◌, ◌+◌, ◌∙◌, ◌∷◌, ◌≡◌,
}
use otclick_hh.Web.ApplicationsUrl.{
  ApplicationsView, Params, default_view, is_status, normal_view, page_of, param, parse_view,
  serialize_view, set_if, view_params,
}

-- `params.get` finds a pair just where `serializeView` set it.
param_status :
    (b b' b'' : Bool) (s q p : Text)
    → param
        (codes "status")
        (set_if b (codes "status") s ++ set_if b' (codes "q") q ++ set_if b'' (codes "p") p)
      ≡ (if b then some s else none)
unfolding param
param_status true b' b'' s q p = refl
param_status false true true s q p = refl
param_status false true false s q p = refl
param_status false false true s q p = refl
param_status false false false s q p = refl

param_q :
    (b b' b'' : Bool) (s q p : Text)
    → param
        (codes "q")
        (set_if b (codes "status") s ++ set_if b' (codes "q") q ++ set_if b'' (codes "p") p)
      ≡ (if b' then some q else none)
unfolding param
param_q true true b'' s q p = refl
param_q true false true s q p = refl
param_q true false false s q p = refl
param_q false true b'' s q p = refl
param_q false false true s q p = refl
param_q false false false s q p = refl

param_p :
    (b b' b'' : Bool) (s q p : Text)
    → param
        (codes "p")
        (set_if b (codes "status") s ++ set_if b' (codes "q") q ++ set_if b'' (codes "p") p)
      ≡ (if b'' then some p else none)
unfolding param
param_p true true true s q p = refl
param_p true true false s q p = refl
param_p true false true s q p = refl
param_p true false false s q p = refl
param_p false true true s q p = refl
param_p false true false s q p = refl
param_p false false true s q p = refl
param_p false false false s q p = refl

or_else-set : (s : Text) → or_else (if not (is_empty s) then some s else none) [] ≡ s
or_else-set [] = refl
or_else-set (c ∷ s) = refl

decode-serialize_view :
    (encode : Params → Text) (decode : Text → Params)
    → ((ps : Params) → decode (codes "?" ++ encode ps) ≡ ps)
    → (decode [] ≡ [])
    → ((ps : Params) → is_empty (encode ps) ≡ is_empty ps)
    → (view : ApplicationsView) → decode (serialize_view encode view) ≡ view_params view
unfolding serialize_view
decode-serialize_view encode decode read none_read blank view =
    elim (Bool-cases (is_empty (view_params view))) [
      | inl e ↦
          rw (blank (view_params view), e) (none_read ∙ sym (is_empty-nil (view_params view) e))
      | inr e ↦ rw (blank (view_params view), e) (read (view_params view))
    ]

-- `parseView`'s choice of the status
known_status : Text → Text
known_status raw = if is_status raw then raw else default_view.status

known_status-all : known_status [] ≡ known_status default_view.status
unfolding known_status is_status
known_status-all = refl

known_status-set :
    (s : Text)
    → known_status (or_else (if not (text_eq s default_view.status) then some s else none) [])
      ≡ known_status s
known_status-set s = elim (Bool-cases (text_eq s default_view.status)) [
  | inl e ↦ rw (e, text_eq→eq s default_view.status e) known_status-all
  | inr e ↦ rw e refl
]

trim-set :
    (q : Text)
    → trim (or_else (if not (is_empty (trim q)) then some (trim q) else none) []) ≡ trim q
trim-set q = rw (or_else-set (trim q)) (trim_idem q)

page_of-set :
    (n : ℕ)
    → page_of (parse_int (or_else (if ltb 0 n then some (show_nat (n + 1)) else none) [])) ≡ n
unfolding parse_int
page_of-set n = elim (Bool-cases (ltb 0 n)) [
  | inl e ↦ rw (e, parse_int-show_nat (n + 1)) (ground arith)
  | inr e ↦ rw e (ground arith)
]

-- Reading the pairs of a view gives the view back in its normal form.
parse_view-view_params :
    (view : ApplicationsView) → parse_view (view_params view) ≡ normal_view view
unfolding parse_view view_params normal_view known_status
parse_view-view_params view =
    let b = not (text_eq view.status default_view.status) in
    let b' = not (is_empty (trim view.q)) in
    let b'' = ltb 0 view.page in
    let p = show_nat (view.page + 1) in
    rw
      (
        param_status b b' b'' view.status (trim view.q) p,
        param_q b b' b'' view.status (trim view.q) p,
        param_p b b' b'' view.status (trim view.q) p,
        known_status-set view.status,
        trim-set view.q,
        page_of-set view.page,
      )
      refl

-- The address that a view is written to is read back as the same view, its search trimmed and an
-- unknown status replaced by the one for all applications, when the reader of a query string
-- gives back the pairs it was written from and only the empty list of pairs is written as an
-- empty string.
pub parse_view-serialize_view :
    (encode : Params → Text) (decode : Text → Params)
    → ((ps : Params) → decode (codes "?" ++ encode ps) ≡ ps)
    → (decode [] ≡ [])
    → ((ps : Params) → is_empty (encode ps) ≡ is_empty ps)
    → (view : ApplicationsView)
    → parse_view (decode (serialize_view encode view)) ≡ normal_view view
parse_view-serialize_view encode decode read none_read blank view =
    ap parse_view (decode-serialize_view encode decode read none_read blank view)
    ∙ parse_view-view_params view
