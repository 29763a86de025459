-- ===== src/HyperLogLog/Laws.antt =====
-- A HyperLogLog forgets order and repetition: `merge` is a join, and `add` is the join with one rank.
use kedis_python.Prelude.{
  ℕ, zero, suc, ◌+◌, ◌≤◌, ◌<◌, ◌≡◌, refl, ap, ◌∙◌, true, false, List, [], ◌∷◌, ltb, arith,
  if◌then◌else◌, length, All, Text, Bool-cases, inl, inr,
}
use kedis_python.HyperLogLog.{
  HyperLogLog, register_count, rank_bits, register_at, set_register, index_of, rank_of, add,
  merge_registers, merge, zeros, new_hyperloglog,
}

-- Registers xs a HyperLogLog has them: there are 2 ^ 14, none above 51.
pub record IsValid (h : HyperLogLog) : Type 0 where
  pub sized : length h.registers ≡ register_count
  pub ranked : All (λ r. r ≤ rank_bits + 1) h.registers

pub rank_of-le : (h : ℕ) → rank_of h ≤ rank_bits + 1
unfolding rank_of
rank_of-le h = omega arith

pub length-set_register : (rs : List ℕ) (i rank : ℕ) → length (set_register rs i rank) ≡ length rs
unfolding set_register
length-set_register [] i rank = refl
length-set_register (r ∷ rs) zero rank = refl
length-set_register (r ∷ rs) (suc i) rank = ap suc (length-set_register rs i rank)

pub All-set_register :
    (rs : List ℕ) (i rank bound : ℕ)
    → rank ≤ bound
    → All (λ r. r ≤ bound) rs
    → All (λ r. r ≤ bound) (set_register rs i rank)
unfolding set_register
All-set_register [] i rank bound h k = tt
All-set_register (r ∷ rs) zero rank bound h k = (h, k.1)
All-set_register (r ∷ rs) (suc i) rank bound h k = (k.0, All-set_register rs i rank bound h k.1)

pub length-zeros : (n : ℕ) → length (zeros n) ≡ n
unfolding zeros
length-zeros zero = refl
length-zeros (suc n) = ap suc (length-zeros n)

All-zeros : (n bound : ℕ) → All (λ r. r ≤ bound) (zeros n)
unfolding zeros
All-zeros zero bound = tt
All-zeros (suc n) bound = (omega arith, All-zeros n bound)

pub new_hyperloglog-IsValid : IsValid new_hyperloglog
unfolding new_hyperloglog
new_hyperloglog-IsValid = record {
  sized = length-zeros register_count;
  ranked = All-zeros register_count (rank_bits + 1);
}

-- The register at an index raised to a rank, if it is below it.
unfoldable pub raise : List ℕ → ℕ → ℕ → List ℕ
raise [] i rank = []
raise (r ∷ rs) zero rank = (if ltb r rank then rank else r) ∷ rs
raise (r ∷ rs) (suc i) rank = r ∷ raise rs i rank

pub raise-same :
    (rs : List ℕ) (i rank : ℕ) → ltb (register_at rs i) rank ≡ false → raise rs i rank ≡ rs
unfolding raise register_at
raise-same [] i rank h = refl
raise-same (r ∷ rs) zero rank h = rw h refl
raise-same (r ∷ rs) (suc i) rank h = ap (◌∷◌ r) (raise-same rs i rank h)

pub raise-set :
    (rs : List ℕ) (i rank : ℕ)
    → ltb (register_at rs i) rank ≡ true
    → raise rs i rank ≡ set_register rs i rank
unfolding raise register_at set_register
raise-set [] i rank h = refl
raise-set (r ∷ rs) zero rank h = rw h refl
raise-set (r ∷ rs) (suc i) rank h = ap (◌∷◌ r) (raise-set rs i rank h)

pub raise_comm : (rs : List ℕ) (i j a b : ℕ) → raise (raise rs i a) j b ≡ raise (raise rs j b) i a
unfolding raise
raise_comm [] i j a b = refl
raise_comm (r ∷ rs) zero zero a b = ground arith
raise_comm (r ∷ rs) zero (suc j) a b = refl
raise_comm (r ∷ rs) (suc i) zero a b = refl
raise_comm (r ∷ rs) (suc i) (suc j) a b = ap (◌∷◌ r) (raise_comm rs i j a b)

pub raise_twice : (rs : List ℕ) (i a : ℕ) → raise (raise rs i a) i a ≡ raise rs i a
unfolding raise
raise_twice [] i a = refl
raise_twice (r ∷ rs) zero a = ground arith
raise_twice (r ∷ rs) (suc i) a = ap (◌∷◌ r) (raise_twice rs i a)

pub merge-raise :
    (xs ys : List ℕ) (i a : ℕ)
    → length xs ≡ length ys
    → (merge_registers (raise xs i a) ys).0 ≡ raise (merge_registers xs ys).0 i a
unfolding raise merge_registers
merge-raise [] ys i a h = refl
merge-raise (r ∷ xs) [] i a h = absurd (omega (arith, h))
merge-raise (r ∷ xs) (b ∷ ys) zero a h = ground arith
merge-raise (r ∷ xs) (b ∷ ys) (suc i) a h = ground (arith, merge-raise xs ys i a (omega (arith, h)))

pub merge_comm :
    (xs ys : List ℕ) → length xs ≡ length ys → (merge_registers xs ys).0 ≡ (merge_registers ys xs).0
unfolding merge_registers
merge_comm [] [] h = refl
merge_comm [] (b ∷ ys) h = absurd (omega (arith, h))
merge_comm (a ∷ xs) [] h = absurd (omega (arith, h))
merge_comm (a ∷ xs) (b ∷ ys) h = ground (arith, merge_comm xs ys (omega (arith, h)))

register_at-set_register :
    (rs : List ℕ) (i a : ℕ) → i < length rs → register_at (set_register rs i a) i ≡ a
unfolding register_at set_register
register_at-set_register [] i a h = absurd (omega (arith, h))
register_at-set_register (r ∷ rs) zero a h = refl
register_at-set_register (r ∷ rs) (suc i) a h = register_at-set_register rs i a (omega (arith, h))

length-merge_registers : (xs ys : List ℕ) → length (merge_registers xs ys).0 ≡ length xs
unfolding merge_registers
length-merge_registers [] ys = refl
length-merge_registers (x ∷ xs) [] = refl
length-merge_registers (x ∷ xs) (y ∷ ys) = ground (arith, length-merge_registers xs ys)

All-merge_registers :
    (xs ys : List ℕ) (bound : ℕ)
    → All (λ r. r ≤ bound) xs
    → All (λ r. r ≤ bound) ys
    → All (λ r. r ≤ bound) (merge_registers xs ys).0
unfolding merge_registers
All-merge_registers [] ys bound h k = tt
All-merge_registers (x ∷ xs) [] bound h k = h
All-merge_registers (x ∷ xs) (y ∷ ys) bound h k = elim (Bool-cases (ltb x y)) [
  | inl e ↦ rw e (k.0, All-merge_registers xs ys bound h.1 k.1)
  | inr e ↦ rw e (h.0, All-merge_registers xs ys bound h.1 k.1)
]

-- `merge` answers true exactly where it changed a register.
merge_registers-same :
    (xs ys : List ℕ) → (merge_registers xs ys).1 ≡ false → (merge_registers xs ys).0 ≡ xs
unfolding merge_registers
merge_registers-same [] ys h = refl
merge_registers-same (x ∷ xs) [] h = refl
merge_registers-same (x ∷ xs) (y ∷ ys) h = elim (Bool-cases (ltb x y)) [
  | inl e ↦ absurd (ground (arith, e, h))
  | inr e ↦ rw e (ap (◌∷◌ x) (merge_registers-same xs ys (ground (arith, e, h))))
]

merge_registers-absorbs :
    (xs ys : List ℕ)
    → merge_registers (merge_registers xs ys).0 ys ≡ ((merge_registers xs ys).0, false)
unfolding merge_registers
merge_registers-absorbs [] ys = refl
merge_registers-absorbs (x ∷ xs) [] = refl
merge_registers-absorbs (x ∷ xs) (y ∷ ys) = ground (arith, merge_registers-absorbs xs ys)

-- `merge` keeps the registers of its target valid: 2 ^ 14 of them, none above 51. Where it answers
-- false it changed none of them, and merging the same again changes none and answers false.
pub merge-IsValid :
    (h g : HyperLogLog)
    → IsValid h
    → IsValid g
    → IsValid (merge h g).0
      × ((merge h g).1 ≡ false → (merge h g).0.registers ≡ h.registers)
      × ((merge (merge h g).0 g).1 ≡ false)
      × ((merge (merge h g).0 g).0.registers ≡ (merge h g).0.registers)
unfolding merge
merge-IsValid h g v w =
    let again = merge_registers-absorbs h.registers g.registers in
    (
      record {
        sized = length-merge_registers h.registers g.registers ∙ v.sized;
        ranked = All-merge_registers h.registers g.registers (rank_bits + 1) v.ranked w.ranked;
      },
      λ e. merge_registers-same h.registers g.registers e,
      ap (λ p. p.1) again,
      ap (λ p. p.0) again,
    )

module _ (hash64 : Text → ℕ) where
  -- Whatever the hash is, `add` keeps the registers valid, 2 ^ 14 of them, none above 51; where it
  -- answers false it changed nothing, and adding the element again answers false and changes nothing.
  pub add_once :
      (h : HyperLogLog) (x : Text)
      → IsValid h
      → IsValid (add hash64 h x).0
        × ((add hash64 h x).1 ≡ false → (add hash64 h x).0 ≡ h)
        × (add hash64 (add hash64 h x).0 x ≡ ((add hash64 h x).0, false))
  unfolding add
  add_once h x v =
      let i = index_of (hash64 x) in
      let rank = rank_of (hash64 x) in
      let inside : i < length h.registers = omega (arith, v.sized) in
      let stays : ltb (register_at (set_register h.registers i rank) i) rank ≡ false =
        rw (register_at-set_register h.registers i rank inside) (ground arith) in
      elim (Bool-cases (ltb (register_at h.registers i) rank)) [
        | inl e ↦
            rw (e, stays)
              (
                record {
                  sized = length-set_register h.registers i rank ∙ v.sized;
                  ranked =
                      All-set_register h.registers i rank (rank_bits + 1) (rank_of-le (hash64 x))
                        v.ranked;
                },
                λ c. absurd (ground (arith, c)),
                refl,
              )
        | inr e ↦ rw (e, e) (v, λ c. refl, refl)
      ]
