-- ===== src/Stream/Sorted.antt =====
-- Sorted lists of IDs and Python's `bisect` on them. On a sorted list, which is all that the code
-- gives it, a bisection finds the position that these walks find.
use kedis_python.Prelude.{ℕ, suc, Bool, true, false, ◌||◌, List, [], ◌∷◌, ◌≡◌, if◌then◌else◌, All}
use kedis_python.Stream.Id.{StreamId, id_ltb, id_eq}

-- `bisect.bisect_left(ids, x)`.
unfoldable pub bisect_left : List StreamId → StreamId → ℕ
bisect_left [] x = 0
bisect_left (y ∷ ids) x = if id_ltb y x then suc (bisect_left ids x) else 0

-- `bisect.bisect_right(ids, x)`.
unfoldable pub bisect_right : List StreamId → StreamId → ℕ
bisect_right [] x = 0
bisect_right (y ∷ ids) x = if id_ltb x y then 0 else suc (bisect_right ids x)

-- `bisect.insort(ids, x)`.
unfoldable pub insort : List StreamId → StreamId → List StreamId
insort [] x = x ∷ []
insort (y ∷ ids) x = if id_ltb x y then x ∷ y ∷ ids else y ∷ insort ids x

-- `x in ids`.
unfoldable pub contains : List StreamId → StreamId → Bool
contains [] x = false
contains (y ∷ ids) x = id_eq y x || contains ids x

-- Strictly ascending.
abbrev pub IsSorted : List StreamId → Type 0
IsSorted [] = Unit
IsSorted (x ∷ ids) = All (λ y. id_ltb x y ≡ true) ids × IsSorted ids
