-- ===== src/Web/NavCounts.antt =====
-- frontend/src/lib/nav-counts.ts: the numbers beside the entries of the navigation.
use otclick_hh.Common.{
  All, List, Option, Text, [], ap, arith, codes, if◌then◌else◌, ltb, negate, negsuc, none, or_else,
  pos, refl, show_nat, show_nat_injective, some, suc, ℕ, ℤ, ◌+◌, ◌-◌, ◌↔◌, ◌∙◌, ◌∷◌, ◌≡◌, ◌≤◌,
}

pub record NavCounts : Type 0 where
  pub chats : ℤ
  pub todo : ℕ
  pub notifications : ℤ

-- Of the chats only `unread` is read, which may be missing; of the other lists only the length.
pub record NavCountsInput : Type 0 where
  pub chats : List (Option ℤ)
  pub form_drafts : ℕ
  pub recruiter_drafts : ℕ
  pub todos : ℕ
  pub questions : ℕ
  pub unread_notifications : ℤ

infixl 20 ◌+ℤ◌
-- Addition of integers.
abbrev pub ◌+ℤ◌ : ℤ → ℤ → ℤ
pos a +ℤ pos b = pos (a + b)
pos a +ℤ negsuc b = if ltb b a then pos (a - suc b) else negate (suc b - a)
negsuc a +ℤ pos b = if ltb a b then pos (b - suc a) else negate (suc a - b)
negsuc a +ℤ negsuc b = negsuc (suc (a + b))

-- `chats.reduce((sum, c) => sum + (c.unread ?? 0), sum)`
unfoldable pub sum_unread : ℤ → List (Option ℤ) → ℤ
sum_unread sum [] = sum
sum_unread sum (c ∷ cs) = sum_unread (sum +ℤ or_else c (pos 0)) cs

unfoldable pub compute_nav_counts : NavCountsInput → NavCounts
unfolding sum_unread
compute_nav_counts input = record {
  chats = sum_unread (pos 0) input.chats;
  todo = input.form_drafts + input.recruiter_drafts + input.todos + input.questions;
  notifications = input.unread_notifications;
}

-- `none` is null, no badge.
unfoldable pub format_badge : ℤ → Option Text
format_badge (negsuc n) = none
format_badge (pos n) = if ltb n 1 then none else some (if ltb 99 n then codes "99+" else show_nat n)

abbrev pub IsNatural : Option ℤ → Type 0
IsNatural none = Unit
IsNatural (some (pos n)) = Unit
IsNatural (some (negsuc n)) = ⊥

abbrev pub natural : Option ℤ → ℕ
natural none = 0
natural (some (pos n)) = n
natural (some (negsuc n)) = 0

abbrev pub total : List (Option ℤ) → ℕ
total [] = 0
total (c ∷ cs) = natural c + total cs

sum_unread-total :
    (n : ℕ) (cs : List (Option ℤ)) → All IsNatural cs → sum_unread (pos n) cs ≡ pos (n + total cs)
unfolding sum_unread
sum_unread-total n [] h = ap pos (omega arith)
sum_unread-total n (none ∷ cs) (p, h) = sum_unread-total (n + 0) cs h ∙ ap pos (omega arith)
sum_unread-total n (some (pos m) ∷ cs) (p, h) = sum_unread-total (n + m) cs h ∙ ap pos (omega arith)
sum_unread-total n (some (negsuc m) ∷ cs) (p, h) = absurd p

badge_of_zero : (n : ℕ) → (format_badge (pos n) ≡ none) ↔ (n ≡ 0)
unfolding format_badge
badge_of_zero n = (λ e. ground arith, λ e. ground arith)

total_of_zero : (cs : List (Option ℤ)) → total cs ≡ 0 → All (λ c. natural c ≡ 0) cs
total_of_zero [] e = tt
total_of_zero (c ∷ cs) e = (omega arith, total_of_zero cs (omega arith))

zero_total : (cs : List (Option ℤ)) → All (λ c. natural c ≡ 0) cs → total cs ≡ 0
zero_total [] h = refl
zero_total (c ∷ cs) (p, h) = omega (arith, zero_total cs h)

-- The chats badge is there just when some chat has unread messages, when no count is negative:
-- otherwise every chat has none, or no count at all.
pub format_badge-chats :
    (input : NavCountsInput)
    → All IsNatural input.chats
    → (format_badge ((compute_nav_counts input).chats) ≡ none)
      ↔ All (λ c. natural c ≡ 0) input.chats
unfolding compute_nav_counts
format_badge-chats input h = rw (sum_unread-total 0 input.chats h) (
  λ e. total_of_zero input.chats (omega (arith, (badge_of_zero (0 + total input.chats)).0 e)),
  λ z. (badge_of_zero (0 + total input.chats)).1 (omega (arith, zero_total input.chats z)),
)

format_badge-small : (n : ℕ) → 1 ≤ n → n ≤ 99 → format_badge (pos n) ≡ some (show_nat n)
unfolding format_badge
format_badge-small n h k = ground arith

-- Two counts from 1 to 99 that have the same badge are the same count.
pub format_badge_injective :
    (m n : ℕ)
    → 1 ≤ m
    → m ≤ 99
    → 1 ≤ n
    → n ≤ 99
    → format_badge (pos m) ≡ format_badge (pos n)
    → m ≡ n
format_badge_injective m n h k h' k' e =
    let a = format_badge-small m h k in
    let b = format_badge-small n h' k' in show_nat_injective m n (ground (arith, a, b))
