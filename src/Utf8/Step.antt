-- ===== src/Utf8/Step.antt =====
-- One step of the codec: a decoded character encodes to the bytes it came from, and the other way
-- round.
use kedis_python.Prelude.{
  ℕ, ◌+◌, ◌/◌, ◌%◌, ◌≤◌, ◌<◌, ◌≡◌, true, false, [], ◌∷◌, ◌++◌, ltb, take, length, Bytes, All, arith,
  Bool-cases, inl, inr,
}
use kedis_python.Utf8.{
  Unit8, char, bad, step, step_two, step_three, step_four, encode_char, is_surrogate, pass_step,
  pass_error,
}

-- What a step may say of the bytes in front of it.
abbrev pub Says : Unit8 → Bytes → Type 0
Says (char c n) bs =
    (encode_char c ≡ take n bs)
    × (is_surrogate c ≡ false)
    × (0 < n)
    × (n ≤ length bs)
    × (c < 0x110000)
Says (bad n) bs = All (λ b. 0x80 ≤ b) (take n bs) × (0 < n) × (n ≤ length bs)

step_two-Says : (a : ℕ) (r : Bytes) → 0xC2 ≤ a → a < 0xE0 → Says (step_two a r) (a ∷ r)
unfolding step_two encode_char
step_two-Says a [] h k = ground arith
step_two-Says a (b ∷ r) h k = ground arith

step_three-Says : (a : ℕ) (r : Bytes) → 0xE0 ≤ a → a < 0xF0 → Says (step_three a r) (a ∷ r)
unfolding step_three encode_char
step_three-Says a [] h k = ground arith
step_three-Says a (b ∷ []) h k = ground arith
step_three-Says a (b ∷ c ∷ r) h k = ground arith

step_four-Says : (a : ℕ) (r : Bytes) → 0xF0 ≤ a → a < 0xF5 → Says (step_four a r) (a ∷ r)
unfolding step_four encode_char
step_four-Says a [] h k = ground arith
step_four-Says a (b ∷ []) h k = ground arith
step_four-Says a (b ∷ c ∷ []) h k = ground arith
step_four-Says a (b ∷ c ∷ d ∷ r) h k = ground arith

pub step-Says : (a : ℕ) (r : Bytes) → Says (step a r) (a ∷ r)
unfolding step
step-Says a r = elim (Bool-cases (ltb a 0x80)) [
  | inl e₁ ↦ rw e₁ (unfold encode_char in ground arith)
  | inr e₁ ↦ elim (Bool-cases (ltb a 0xC2)) [
    | inl e₂ ↦ rw (e₁, e₂) (ground arith)
    | inr e₂ ↦ elim (Bool-cases (ltb a 0xE0)) [
      | inl e₃ ↦ rw (e₁, e₂, e₃) (step_two-Says a r (ground arith) (ground arith))
      | inr e₃ ↦ elim (Bool-cases (ltb a 0xF0)) [
        | inl e₄ ↦ rw (e₁, e₂, e₃, e₄) (step_three-Says a r (ground arith) (ground arith))
        | inr e₄ ↦ elim (Bool-cases (ltb a 0xF5)) [
          | inl e₅ ↦ rw (e₁, e₂, e₃, e₄, e₅) (step_four-Says a r (ground arith) (ground arith))
          | inr e₅ ↦ rw (e₁, e₂, e₃, e₄, e₅) (ground arith)
        ]
      ]
    ]
  ]
]

-- A character that is no surrogate steps back to itself, whatever follows.
pub step-encode_char :
    (c : ℕ) (rest : Bytes)
    → c < 0x110000
    → is_surrogate c ≡ false
    → (a : ℕ) × (r : Bytes) × (encode_char c ++ rest ≡ a ∷ r)
      × (step a r ≡ char c (length (encode_char c)))
unfolding encode_char step step_two step_three step_four
step-encode_char c rest h k = elim (Bool-cases (ltb c 0x80)) [
  | inl e₁ ↦ (c, rest, ground arith, ground arith)
  | inr e₁ ↦ elim (Bool-cases (ltb c 0x800)) [
    | inl e₂ ↦ (0xC0 + c / 64, (0x80 + c % 64) ∷ rest, ground arith, ground arith)
    | inr e₂ ↦ elim (Bool-cases (ltb c 0x10000)) [
      | inl e₃ ↦ (
        0xE0 + c / 4096,
        (0x80 + c / 64 % 64) ∷ (0x80 + c % 64) ∷ rest,
        ground arith,
        ground arith,
      )
      | inr e₃ ↦ (
        0xF0 + c / 262144,
        (0x80 + c / 4096 % 64) ∷ (0x80 + c / 64 % 64) ∷ (0x80 + c % 64) ∷ rest,
        ground arith,
        ground arith,
      )
    ]
  ]
]

pass_step-char : (a : ℕ) (r : Bytes) (c n : ℕ) → step a r ≡ char c n → pass_step a r ≡ char c n
unfolding pass_step
pass_step-char a r c n p = ground arith

pass_step-surrogate :
    (c : ℕ) (rest : Bytes)
    → is_surrogate c ≡ true
    → pass_step (0xE0 + c / 4096) ((0x80 + c / 64 % 64) ∷ (0x80 + c % 64) ∷ rest) ≡ char c 3
unfolding pass_step pass_error step step_three
pass_step-surrogate c rest h = ground arith

-- With "surrogatepass" every code point steps back to itself.
pub pass_step-encode_char :
    (c : ℕ) (rest : Bytes)
    → c < 0x110000
    → (a : ℕ) × (r : Bytes) × (encode_char c ++ rest ≡ a ∷ r)
      × (pass_step a r ≡ char c (length (encode_char c)))
pass_step-encode_char c rest h = elim (Bool-cases (is_surrogate c)) [
  | inl s ↦ (
    0xE0 + c / 4096,
    (0x80 + c / 64 % 64) ∷ (0x80 + c % 64) ∷ rest,
    unfold encode_char in ground arith,
    (let e : length (encode_char c) ≡ 3 = unfold encode_char in ground arith in
        rw e (pass_step-surrogate c rest s)),
  )
  | inr s ↦
      let (a, r, e, p) = step-encode_char c rest h s in
      (a, r, e, pass_step-char a r c (length (encode_char c)) p)
]
