-- ===== src/HyperLogLog/Union.antt =====
-- What a HyperLogLog has seen: the registers depend on the elements added, not on their order, their
-- number or the counters they went through.
use kedis_python.Prelude.{
  ℕ, zero, suc, ◌≡◌, refl, sym, ap, ◌∙◌, List, [], ◌∷◌, ◌++◌, ltb, arith, length, Text, Bool-cases,
  inl, inr,
}
use kedis_python.HyperLogLog.{
  HyperLogLog, register_count, register_at, index_of, rank_of, add, merge_registers, merge, zeros,
  new_hyperloglog,
}
use kedis_python.HyperLogLog.Laws.{
  length-zeros, raise, raise-same, raise-set, raise_comm, merge-raise,
}

length-raise : (rs : List ℕ) (i a : ℕ) → length (raise rs i a) ≡ length rs
unfolding raise
length-raise [] i a = refl
length-raise (r ∷ rs) zero a = refl
length-raise (r ∷ rs) (suc i) a = ap suc (length-raise rs i a)

merge-zeros : (ws : List ℕ) → (merge_registers (zeros (length ws)) ws).0 ≡ ws
unfolding merge_registers zeros
merge-zeros [] = refl
merge-zeros (b ∷ ws) = ground (arith, merge-zeros ws)

module _ (hash64 : Text → ℕ) where
  add-registers :
      (h : HyperLogLog) (x : Text)
      → (add hash64 h x).0.registers ≡ raise h.registers (index_of (hash64 x)) (rank_of (hash64 x))
  unfolding add
  add-registers h x =
      let i = index_of (hash64 x) in
      let rank = rank_of (hash64 x) in
      elim (Bool-cases (ltb (register_at h.registers i) rank)) [
        | inl e ↦ rw (e, add) (sym (raise-set h.registers i rank e))
        | inr e ↦ rw (e, add) (sym (raise-same h.registers i rank e))
      ]

  -- `for element in elements: hll.add(element)`.
  unfoldable pub add_all : HyperLogLog → List Text → HyperLogLog
  add_all h [] = h
  add_all h (x ∷ xs) = add_all (add hash64 h x).0 xs

  raise_all : List ℕ → List Text → List ℕ
  raise_all rs [] = rs
  raise_all rs (x ∷ xs) = raise_all (raise rs (index_of (hash64 x)) (rank_of (hash64 x))) xs

  add_all-registers :
      (h : HyperLogLog) (xs : List Text) → (add_all h xs).registers ≡ raise_all h.registers xs
  unfolding add_all raise_all
  add_all-registers h [] = refl
  add_all-registers h (x ∷ xs) =
      add_all-registers (add hash64 h x).0 xs ∙ ap (λ rs. raise_all rs xs) (add-registers h x)

  length-raise_all : (rs : List ℕ) (xs : List Text) → length (raise_all rs xs) ≡ length rs
  unfolding raise_all
  length-raise_all rs [] = refl
  length-raise_all rs (x ∷ xs) =
      length-raise_all (raise rs (index_of (hash64 x)) (rank_of (hash64 x))) xs
      ∙ length-raise rs (index_of (hash64 x)) (rank_of (hash64 x))

  raise-raise_all :
      (rs : List ℕ) (xs : List Text) (i a : ℕ)
      → raise (raise_all rs xs) i a ≡ raise_all (raise rs i a) xs
  unfolding raise_all
  raise-raise_all rs [] i a = refl
  raise-raise_all rs (x ∷ xs) i a =
      raise-raise_all (raise rs (index_of (hash64 x)) (rank_of (hash64 x))) xs i a
      ∙ ap (λ r. raise_all r xs) (raise_comm rs (index_of (hash64 x)) i (rank_of (hash64 x)) a)

  raise_all-append :
      (rs : List ℕ) (xs ys : List Text) → raise_all rs (xs ++ ys) ≡ raise_all (raise_all rs ys) xs
  unfolding raise_all
  raise_all-append rs [] ys = refl
  raise_all-append rs (x ∷ xs) ys =
      raise_all-append (raise rs (index_of (hash64 x)) (rank_of (hash64 x))) xs ys
      ∙ ap (λ r. raise_all r xs)
          (sym (raise-raise_all rs ys (index_of (hash64 x)) (rank_of (hash64 x))))

  merge-raise_all :
      (zs ws : List ℕ) (xs : List Text)
      → length zs ≡ length ws
      → (merge_registers (raise_all zs xs) ws).0 ≡ raise_all (merge_registers zs ws).0 xs
  unfolding raise_all
  merge-raise_all zs ws [] h = refl
  merge-raise_all zs ws (x ∷ xs) h =
      merge-raise_all (raise zs (index_of (hash64 x)) (rank_of (hash64 x))) ws xs
        (length-raise zs (index_of (hash64 x)) (rank_of (hash64 x)) ∙ h)
      ∙ ap (λ r. raise_all r xs) (merge-raise zs ws (index_of (hash64 x)) (rank_of (hash64 x)) h)

  -- Whatever the hash is, merging a HyperLogLog that has seen some elements with one that has seen
  -- others leaves the registers of one that has seen them all.
  pub merge-add_all :
      (xs ys : List Text)
      → (merge (add_all new_hyperloglog xs) (add_all new_hyperloglog ys)).0.registers
        ≡ (add_all new_hyperloglog (xs ++ ys)).registers
  unfolding merge new_hyperloglog
  merge-add_all xs ys =
      let base = zeros register_count in
      let other = raise_all base ys in
      let size : length other ≡ register_count =
        length-raise_all base ys ∙ length-zeros register_count in
      let blank : (merge_registers base other).0 ≡ other =
        ap (λ n. (merge_registers (zeros n) other).0) (sym size) ∙ merge-zeros other in
      rw
        (
          add_all-registers new_hyperloglog xs,
          add_all-registers new_hyperloglog ys,
          add_all-registers new_hyperloglog (xs ++ ys),
        )
        (merge-raise_all base other xs (length-zeros register_count ∙ sym size)
          ∙ ap (λ r. raise_all r xs) blank
          ∙ sym (raise_all-append base xs ys))
