-- ===== src/Web/FormDrafts.antt =====
-- frontend/src/hooks/useFormDrafts.ts: the drafts of employers' forms, and what settles one.
use otclick_hh.Common.{
  All, All-keep, All-map_pred, Bool, Bool-cases, List, Memᴰ, Option, Text, [], arith, false, inl,
  inr, keep, not, or_else, refl, some, text_eq, true, ◌∷◌, ◌≡◌,
}
use otclick_hh.Web.Inbox.{without}

pub data AnswerType : Type 0 where
  choice text : AnswerType

pub record FormAnswer : Type 0 where
  -- a number in decimal, or a string
  pub task_id : Text
  pub question : Text
  pub type : AnswerType
  -- the id and the text of each option
  pub options : Option (List (Text × Text))
  pub answer_id : Option Text
  pub answer : Text

pub record FormDraft : Type 0 where
  pub id : Text
  pub vacancy_id : Text
  pub resume_id : Text
  pub vacancy_title : Option Text
  pub employer_name : Option Text
  pub vacancy_url : Option Text
  pub answers : List FormAnswer
  pub letter : Option Text
  pub status : Text
  pub created_at : Text

-- the entry of the cache, `none` before it is loaded
abbrev pub DraftCache : Type 0
DraftCache = Option (List FormDraft)

-- `data ?? EMPTY`
abbrev pub drafts_of : DraftCache → List FormDraft
drafts_of cache = or_else cache []

unfoldable pub drop_draft : Text → DraftCache → DraftCache
drop_draft id cache = some (without (λ d. d.id) id (or_else cache []))

-- `approve` and `discard`, which differ in what they post, when the request went through (`true`)
-- or threw
unfoldable pub settle : Bool → Text → DraftCache → DraftCache
unfolding drop_draft
settle false id cache = cache
settle true id cache = drop_draft id cache

not_id : (id : Text) (d : FormDraft) → not (text_eq d.id id) ≡ true → text_eq d.id id ≡ false
not_id id d h = ground arith

Memᴰ-keep :
    (p : FormDraft → Bool) (d : FormDraft) (ds : List FormDraft)
    → Memᴰ d ds
    → p d ≡ true
    → Memᴰ d (keep p ds)
Memᴰ-keep p d [] m h = elim m [ ]
Memᴰ-keep p d (x ∷ ds) (Memᴰ.head e) h = rw (← e, h) (Memᴰ.head refl)
Memᴰ-keep p d (x ∷ ds) (Memᴰ.tail m) h = elim (Bool-cases (p x)) [
  | inl k ↦ rw k (Memᴰ.tail (Memᴰ-keep p d ds m h))
  | inr k ↦ rw k (Memᴰ-keep p d ds m h)
]

-- A draft that was approved or discarded is no longer listed, and every other draft still is.
pub settle-drafts :
    (id : Text) (cache : DraftCache) (d : FormDraft)
    → Memᴰ d (drafts_of cache)
    → text_eq d.id id ≡ false
    → All (λ x. text_eq x.id id ≡ false) (drafts_of (settle true id cache))
      × Memᴰ d (drafts_of (settle true id cache))
unfolding settle drop_draft
settle-drafts id cache d m other = (
  All-map_pred (λ x. not (text_eq x.id id) ≡ true) (λ x. text_eq x.id id ≡ false) (not_id id) _
      (All-keep (λ x. not (text_eq x.id id)) (drafts_of cache)),
  Memᴰ-keep (λ x. not (text_eq x.id id)) d (drafts_of cache) m (rw other refl),
)
