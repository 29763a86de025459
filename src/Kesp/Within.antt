-- ===== src/Kesp/Within.antt =====
-- How far `KESPDecoder` of parser.py reads for one line, one payload or one charge.
use kedis_python.Prelude.{
  ℕ, zero, suc, ◌+◌, ◌≤◌, ◌<◌, ◌≡◌, refl, ap, ◌∙◌, sym, Option, none, some, [], ◌∷◌, ltb, ◌==◌,
  length, take, drop, arith, Bytes, length-drop, length-take, Bool-cases, Option-cases, inl, inr,
}
use kedis_python.Aof.{split_line, newline}
use kedis_python.Parser.{max_bulk_length}
use kedis_python.Kesp.{Budget}
use kedis_python.Kesp.Decode.{
  Reading, got, incomplete, refused, behind, ◌▹◌, Sigil, read_line, charge, read_end, read_payload,
  read_bulk, carries_text,
}

-- A value lies within the buffer, and its rest is what follows in it; a part that is incomplete asks
-- for more than there is.
unfoldable pub IsWithin {ℓ} : {A : Type ℓ} → Bytes → Reading A → Type 0
IsWithin buf (got a n rest) = (n ≤ length buf) × (drop n buf ≡ rest)
IsWithin buf (incomplete need) = length buf < need
IsWithin buf (refused e) = Unit

drop-drop : (n m : ℕ) (xs : Bytes) → drop m (drop n xs) ≡ drop (n + m) xs
drop-drop zero m xs = let e : 0 + m ≡ m = omega arith in rw e refl
drop-drop (suc n) zero [] = let e : suc n + 0 ≡ suc n = omega arith in rw e refl
drop-drop (suc n) (suc m) [] = let e : suc n + suc m ≡ suc (n + suc m) = omega arith in rw e refl
drop-drop (suc n) m (x ∷ xs) =
    let e : suc n + m ≡ suc (n + m) = omega arith in rw e (drop-drop n m xs)

behind-IsWithin {ℓ} :
    {A : Type ℓ} (buf : Bytes) (n : ℕ) (r : Reading A)
    → n ≤ length buf
    → IsWithin (drop n buf) r
    → IsWithin buf (behind n r)
unfolding behind IsWithin
behind-IsWithin buf n (got a m rest) h k =
    (omega (arith, k.0, length-drop n buf, h), rw (← drop-drop n m buf) k.1)
behind-IsWithin buf n (incomplete need) h k = omega (arith, k, length-drop n buf, h)
behind-IsWithin buf n (refused e) h k = tt

pub ▹-IsWithin {ℓ κ} :
    {A : Type ℓ} {B : Type κ} (buf : Bytes) (r : Reading A) (f : A → Bytes → Reading B)
    → IsWithin buf r
    → ((a : A) (rest : Bytes) → IsWithin rest (f a rest))
    → IsWithin buf (r ▹ f)
unfolding ◌▹◌ IsWithin
▹-IsWithin buf (incomplete need) f h k = h
▹-IsWithin buf (refused e) f h k = tt
▹-IsWithin buf (got a n rest) f h k = behind-IsWithin buf n (f a rest) h.0 (rw h.1 (k a rest))

pub got-IsWithin {ℓ} : {A : Type ℓ} (buf : Bytes) (a : A) → IsWithin buf (got a 0 buf)
unfolding IsWithin
got-IsWithin buf a = (omega arith, refl)

split_line-extent :
    (buf line rest : Bytes)
    → split_line buf ≡ some (line, rest)
    → (length line + 1 ≤ length buf) × (drop (length line + 1) buf ≡ rest)
unfolding split_line
split_line-extent [] line rest h = absurd (ground (arith, h))
split_line-extent (b ∷ r) line rest h = elim (Bool-cases (b == newline)) [
  | inl e ↦
      let q : [] ≡ line = ground (arith, e, h) in
      let q' : r ≡ rest = ground (arith, e, h) in rw (← q) (omega arith, q')
  | inr e ↦ elim (Option-cases (split_line r)) [
    | inl q ↦ absurd (ground (arith, e, q, h))
    | inr (p, q) ↦
        let z : b ∷ p.0 ≡ line = ground (arith, e, q, h) in
        let z' : p.1 ≡ rest = ground (arith, e, q, h) in
        let (le, at) = split_line-extent r p.0 p.1 q in
        let size : suc (length p.0) + 1 ≡ suc (length p.0 + 1) = omega arith in
        rw (← z, size) (omega (arith, le), at ∙ z')
  ]
]

pub read_line-IsWithin : (limit : ℕ) (buf : Bytes) → IsWithin buf (read_line limit buf)
unfolding read_line IsWithin
read_line-IsWithin limit buf = elim (Option-cases (split_line buf)) [
  | inl e ↦ elim (Bool-cases (ltb limit (length buf))) [
    | inl long ↦ rw (e, read_line, long) tt
    | inr short ↦ rw (e, read_line, short) (omega arith)
  ]
  | inr (p, e) ↦ elim (Bool-cases (ltb limit (length p.0))) [
    | inl long ↦ rw (e, read_line, long) tt
    | inr short ↦ rw (e, read_line, short) (split_line-extent buf p.0 p.1 e)
  ]
]

read_end-IsWithin :
    (size : ℕ) (buf tail : Bytes)
    → size < length buf
    → drop size buf ≡ tail
    → IsWithin buf (read_end (take size buf) tail)
unfolding read_end IsWithin
read_end-IsWithin size buf [] h e = tt
read_end-IsWithin size buf (c ∷ rest) h e = elim (Bool-cases (c == b'\n')) [
  | inr other ↦ rw other tt
  | inl line ↦
      let taken : length (take size buf) ≡ size = omega (arith, length-take size buf, h) in
      rw (line, taken) (omega arith, sym (drop-drop size 1 buf) ∙ ap (drop 1) e)
]

read_payload-IsWithin : (size : ℕ) (buf : Bytes) → IsWithin buf (read_payload size buf)
unfolding read_payload
read_payload-IsWithin size buf = elim (Bool-cases (ltb (length buf) (size + 1))) [
  | inl short ↦ rw short (unfold IsWithin in ground (arith, short))
  | inr enough ↦
      rw enough (read_end-IsWithin size buf (drop size buf) (ground (arith, enough)) refl)
]

pub charge-IsWithin :
    (s : Sigil) (line : Bytes) (b : Budget) (buf : Bytes) → IsWithin buf (charge s line b buf)
unfolding charge IsWithin
charge-IsWithin s line b buf = elim (Bool-cases (b.elements == 0)) [
  | inl e ↦ rw e tt
  | inr e ↦ elim (Bool-cases (carries_text s)) [
    | inr plain ↦ rw (e, plain) (omega arith, refl)
    | inl text ↦ elim (Bool-cases (ltb b.payload (length line))) [
      | inl over ↦ rw (e, text, over) tt
      | inr fits ↦ rw (e, text, fits) (omega arith, refl)
    ]
  ]
]

pub read_bulk-IsWithin :
    (size : Option ℕ) (b : Budget) (buf : Bytes) → IsWithin buf (read_bulk size b buf)
unfolding read_bulk
read_bulk-IsWithin none b buf = unfold IsWithin in tt
read_bulk-IsWithin (some size) b buf = elim (Bool-cases (ltb max_bulk_length size)) [
  | inl long ↦ rw long (unfold IsWithin in tt)
  | inr fits ↦ elim (Bool-cases (ltb b.payload size)) [
    | inl over ↦ rw (fits, over) (unfold IsWithin in tt)
    | inr under ↦
        rw (fits, under)
          (▹-IsWithin buf (read_payload size buf) _ (read_payload-IsWithin size buf)
            (λ t rest. got-IsWithin rest _))
  ]
]
