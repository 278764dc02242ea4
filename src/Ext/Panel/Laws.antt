-- ===== src/Ext/Panel/Laws.antt =====
-- ext/lib/panel.ts: what the panel shows and sends.
use otclick_hh.Common.{
  All, All-append, Bool, Bool-cases, Text, [], ap, arith, concat_map, eqb, false, inl, inr,
  is_empty, none, refl, some, trim, true, ℕ, ◌||◌, ◌∷◌, ◌≡◌,
}
use otclick_hh.Ext.Panel.{Panel, answered, esc, escaped, send}

-- The characters that could end the text or a quoted attribute.
abbrev pub is_markup : ℕ → Bool
is_markup c = eqb c b'<' || eqb c b'>' || eqb c 34 || eqb c 39

abbrev pub IsSafe : ℕ → Type 0
IsSafe c = is_markup c ≡ false

plain-IsSafe :
    (c : ℕ)
    → eqb c b'<' ≡ false
    → eqb c b'>' ≡ false
    → eqb c 34 ≡ false
    → eqb c 39 ≡ false
    → IsSafe c
plain-IsSafe c l g q a = rw (l, g, q, a) refl

escaped-IsSafe : (c : ℕ) → All IsSafe (escaped c)
escaped-IsSafe c = elim (Bool-cases (eqb c b'&')) [
  | inl e ↦ rw e (refl, (refl, (refl, (refl, (refl, tt)))))
  | inr e0 ↦ elim (Bool-cases (eqb c b'<')) [
    | inl e ↦ rw (e0, e) (refl, (refl, (refl, (refl, tt))))
    | inr e1 ↦ elim (Bool-cases (eqb c b'>')) [
      | inl e ↦ rw (e0, e1, e) (refl, (refl, (refl, (refl, tt))))
      | inr e2 ↦ elim (Bool-cases (eqb c 34)) [
        | inl e ↦ rw (e0, e1, e2, e) (refl, (refl, (refl, (refl, (refl, (refl, tt))))))
        | inr e3 ↦ elim (Bool-cases (eqb c 39)) [
          | inl e ↦ rw (e0, e1, e2, e3, e) (refl, (refl, (refl, (refl, (refl, tt)))))
          | inr e4 ↦ rw (e0, e1, e2, e3, e4) (plain-IsSafe c e1 e2 e3 e4, tt)
        ]
      ]
    ]
  ]
]

-- Escaped text has none of the characters that could end the text or a quoted attribute.
pub esc-IsSafe : (s : Text) → All IsSafe (esc s)
unfolding esc
esc-IsSafe [] = tt
esc-IsSafe (c ∷ s) =
    All-append IsSafe (escaped c) (concat_map escaped s) (escaped-IsSafe c) (esc-IsSafe s)

or_true : (b : Bool) → (b || true) ≡ true
or_true b = ground arith

send-disabled : (p : Panel) → p.send_disabled ≡ true → send p ≡ (p, none)
unfolding send
send-disabled p e = rw (e, or_true (is_empty (trim p.input))) refl

send-sends : (p : Panel) (text : Text) → (send p).1 ≡ some text → (send p).0.send_disabled ≡ true
unfolding send
send-sends p text e = elim (Bool-cases (is_empty (trim p.input) || p.send_disabled)) [
  | inl g ↦ ground arith
  | inr g ↦ rw g refl
]

-- From the moment a message is sent until it is answered no second one is sent, whatever is
-- typed; when the request fails the button is enabled again and the messages stay.
pub send-once :
    (p : Panel) (text typed : Text)
    → (send p).1 ≡ some text
    → ((send (record (send p).0 { input = typed })).1 ≡ none)
      × ((answered none (send p).0).messages ≡ (send p).0.messages)
      × ((answered none (send p).0).send_disabled ≡ false)
unfolding answered
send-once p text typed e = (
  ap (λ r. r.1) (send-disabled (record (send p).0 { input = typed }) (send-sends p text e)),
  refl,
  refl,
)
