-- ===== src/Web/ApplicationsUrl/Search.antt =====
-- frontend/src/lib/applications-url.ts: the search term of a query.
use otclick_hh.Common.{
  All, All-keep, All-map_pred, Bool-cases, Text, [], arith, false, inl, inr, is_empty, is_space,
  keep, keep-All, not, refl, trim, trim_end, trim_idem, trim_start, true, ℕ, ◌&&◌, ◌∷◌, ◌≡◌,
}
use otclick_hh.Web.ApplicationsUrl.{is_structural, sanitize_search}

-- A search term can hold none of the characters that structure a PostgREST filter.
abbrev pub IsPlain : ℕ → Type 0
IsPlain c = is_structural c ≡ false

All-trim_start : (P : ℕ → Type 0) (s : Text) → All P s → All P (trim_start s)
unfolding trim_start
All-trim_start P [] h = tt
All-trim_start P (c ∷ s) (p, h) = elim (Bool-cases (is_space c)) [
  | inl e ↦ rw e (All-trim_start P s h)
  | inr e ↦ rw e (p, h)
]

All-trim_end : (P : ℕ → Type 0) (s : Text) → All P s → All P (trim_end s)
unfolding trim_end
All-trim_end P [] h = tt
All-trim_end P (c ∷ s) (p, h) = elim (Bool-cases (is_space c && is_empty (trim_end s))) [
  | inl e ↦ rw e tt
  | inr e ↦ rw e (p, All-trim_end P s h)
]

All-trim : (P : ℕ → Type 0) (s : Text) → All P s → All P (trim s)
unfolding trim
All-trim P s h = All-trim_end P (trim_start s) (All-trim_start P s h)

not_structural : (c : ℕ) → not (is_structural c) ≡ true → IsPlain c
not_structural c h = ground arith

-- Whatever the URL holds, the search term that reaches the query has none of the characters
-- that structure the filter, and sanitizing it again changes nothing.
pub sanitize_search-IsPlain :
    (raw : Text)
    → All IsPlain (sanitize_search raw)
      × (sanitize_search (sanitize_search raw) ≡ sanitize_search raw)
unfolding sanitize_search
sanitize_search-IsPlain raw =
    let kept = keep (λ c. not (is_structural c)) raw in
    let plain : All IsPlain (trim kept) =
      All-trim IsPlain kept
        (All-map_pred _ IsPlain not_structural kept (All-keep (λ c. not (is_structural c)) raw)) in
    (
      plain,
      rw
          (keep-All (λ c. not (is_structural c)) (trim kept)
            (All-map_pred IsPlain (λ c. not (is_structural c) ≡ true) (λ c e. rw e refl) (trim kept)
              plain))
          (trim_idem kept),
    )
