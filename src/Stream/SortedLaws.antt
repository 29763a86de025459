-- ===== src/Stream/SortedLaws.antt =====
-- Sorted lists of IDs: what the bisections find, and that inserting and deleting keep the order.
use kedis_python.Prelude.{
  ℕ, zero, suc, true, false, not, ◌||◌, ◌&&◌, List, [], ◌∷◌, ◌++◌, ◌≡◌, refl, All, All-map,
  All-append, drop, arith, Bool-cases, inl, inr,
}
use kedis_python.Stream.Id.{StreamId, id_ltb, id_eq, id_eq_iff}
use kedis_python.Stream.IdLaws.{id_ltb_trans}
use kedis_python.Stream.Group.{delete_at}
use kedis_python.Stream.Sorted.{bisect_left, insort, contains, IsSorted}

-- Appending an ID that is above all.
pub IsSorted-snoc :
    (ids : List StreamId) (x : StreamId)
    → IsSorted ids
    → All (λ y. id_ltb y x ≡ true) ids
    → IsSorted (ids ++ x ∷ [])
IsSorted-snoc [] x h k = (tt, tt)
IsSorted-snoc (y ∷ ids) x h k =
    (All-append (λ z. id_ltb y z ≡ true) ids (x ∷ []) h.0 (k.0, tt), IsSorted-snoc ids x h.1 k.1)

pub IsSorted-drop : (n : ℕ) (ids : List StreamId) → IsSorted ids → IsSorted (drop n ids)
IsSorted-drop zero ids h = h
IsSorted-drop (suc n) [] h = tt
IsSorted-drop (suc n) (y ∷ ids) h = IsSorted-drop n ids h.1

pub All-delete_at {ℓ κ} :
    {A : Type ℓ} (P : A → Type κ) (i : ℕ) (xs : List A) → All P xs → All P (delete_at i xs)
unfolding delete_at
All-delete_at P zero [] h = tt
All-delete_at P (suc i) [] h = tt
All-delete_at P zero (x ∷ xs) h = h.1
All-delete_at P (suc i) (x ∷ xs) h = (h.0, All-delete_at P i xs h.1)

pub IsSorted-delete_at : (i : ℕ) (ids : List StreamId) → IsSorted ids → IsSorted (delete_at i ids)
unfolding delete_at
IsSorted-delete_at zero [] h = tt
IsSorted-delete_at (suc i) [] h = tt
IsSorted-delete_at zero (y ∷ ids) h = h.1
IsSorted-delete_at (suc i) (y ∷ ids) h =
    (All-delete_at (λ z. id_ltb y z ≡ true) i ids h.0, IsSorted-delete_at i ids h.1)

above_trans :
    (x y : StreamId) (ids : List StreamId)
    → id_ltb x y ≡ true
    → All (λ z. id_ltb y z ≡ true) ids
    → All (λ z. id_ltb x z ≡ true) ids
above_trans x y ids h k =
    All-map (λ z. id_ltb y z ≡ true) (λ z. id_ltb x z ≡ true) ids (λ z. id_ltb_trans x y z h) k

insort-above :
    (y : StreamId) (ids : List StreamId) (x : StreamId)
    → id_ltb y x ≡ true
    → All (λ z. id_ltb y z ≡ true) ids
    → All (λ z. id_ltb y z ≡ true) (insort ids x)
unfolding insort
insort-above y [] x h k = (h, tt)
insort-above y (w ∷ ids) x h k = elim (Bool-cases (id_ltb x w)) [
  | inl e ↦ rw e (h, k)
  | inr e ↦ rw e (k.0, insort-above y ids x h k.1)
]

-- Inserting an ID that is not there keeps the order.
pub IsSorted-insort :
    (ids : List StreamId) (x : StreamId)
    → contains ids x ≡ false
    → IsSorted ids
    → IsSorted (insort ids x)
unfolding insort contains
IsSorted-insort [] x h k = (tt, tt)
IsSorted-insort (y ∷ ids) x h k = elim (Bool-cases (id_ltb x y)) [
  | inl e ↦ rw e ((e, above_trans x y ids e k.0), k)
  | inr e ↦ rw e (insort-above y ids x (ground arith) k.0, IsSorted-insort ids x (ground arith) k.1)
]

pub contains-insort :
    (ids : List StreamId) (x z : StreamId)
    → contains (insort ids x) z ≡ (id_eq x z || contains ids z)
unfolding insort contains
contains-insort [] x z = ground arith
contains-insort (y ∷ ids) x z = ground (arith, contains-insort ids x z)

not-contains-above :
    (x : StreamId) (ids : List StreamId) → All (λ z. id_ltb x z ≡ true) ids → contains ids x ≡ false
unfolding contains
not-contains-above x [] h = refl
not-contains-above x (y ∷ ids) h = ground (arith, not-contains-above x ids h.1, h.0)

above-of-contains :
    (y x : StreamId) (ids : List StreamId)
    → All (λ z. id_ltb y z ≡ true) ids
    → contains ids x ≡ true
    → id_ltb y x ≡ true
unfolding contains
above-of-contains y x [] h k = absurd (ground arith)
above-of-contains y x (w ∷ ids) h k = elim (Bool-cases (id_eq w x)) [
  | inl e ↦ let same = (id_eq_iff w x).0 e in rw same at h.0
  | inr e ↦ above-of-contains y x ids h.1 (ground arith)
]

head_of_contains :
    (y x : StreamId) (ids : List StreamId)
    → All (λ z. id_ltb y z ≡ true) ids
    → contains (y ∷ ids) x ≡ true
    → id_ltb y x ≡ false
    → y ≡ x
unfolding contains
head_of_contains y x ids h k e = elim (Bool-cases (id_eq y x)) [
  | inl same ↦ (id_eq_iff y x).0 same
  | inr other ↦ let below = above-of-contains y x ids h (ground arith) in absurd (ground arith)
]

contains-tail :
    (y z : StreamId) (ids : List StreamId)
    → All (λ w. id_ltb y w ≡ true) ids
    → contains ids z ≡ (not (id_eq y z) && contains (y ∷ ids) z)
unfolding contains
contains-tail y z ids h = elim (Bool-cases (id_eq y z)) [
  | inl e ↦ let same = (id_eq_iff y z).0 e in rw e (rw same at (not-contains-above y ids h))
  | inr e ↦ rw e refl
]

-- Deleting at the bisection takes out exactly that ID.
pub contains-delete_at :
    (ids : List StreamId) (x z : StreamId)
    → IsSorted ids
    → contains ids x ≡ true
    → contains (delete_at (bisect_left ids x) ids) z ≡ (not (id_eq x z) && contains ids z)
contains-delete_at [] x z h k = absurd (unfold contains in ground arith)
contains-delete_at (y ∷ ids) x z h k = at_head (contains-delete_at ids x z h.1)
  where
    at_head :
        (contains ids x ≡ true
          → contains (delete_at (bisect_left ids x) ids) z ≡ (not (id_eq x z) && contains ids z))
        → contains (delete_at (bisect_left (y ∷ ids) x) (y ∷ ids)) z
          ≡ (not (id_eq x z) && contains (y ∷ ids) z)
    at_head ih = elim (Bool-cases (id_ltb y x)) [
      | inl e ↦
          let there : contains ids x ≡ true = unfold contains in ground arith in
          unfold bisect_left delete_at contains in rw e (ground (arith, ih there))
      | inr e ↦
          let same = head_of_contains y x ids h.0 k e in
          unfold bisect_left delete_at in rw (e, ← same) (contains-tail y z ids h.0)
    ]
