-- ===== src/Stream/Window.antt =====
-- Range reads by bisection are a filter over the entries.
use mathlib.Core.List.{reverse}
use kedis_python.Prelude.{
  zero, suc, ◌-◌, Bool, true, false, ◌&&◌, Option, none, some, List, [], ◌∷◌, map, ◌≡◌, refl, ap,
  ◌∙◌, sym, All, All-map, length, take, drop, arith, Bool-cases, inl, inr, Text, ℤ, pos, negsuc,
  filter_by,
}
use kedis_python.Stream.Id.{StreamId, id_ltb, id_leb, max_id, next_of, format_id}
use kedis_python.Stream.IdLaws.{IsU64, id_ltb_trans, id_leb-next_of}
use kedis_python.Stream.Sorted.{bisect_left, bisect_right, IsSorted}
use kedis_python.Stream.Entries.{
  Stream, Entry, entries_of, slice, range, revrange, read_after, limit_to,
}
use kedis_python.Stream.Valid.{IsValid}

-- The entries of a stream with their IDs: the two parallel lists read together.
unfoldable pub pair_up : List StreamId → List (List Text) → List (StreamId × List Text)
pair_up (sid ∷ ids) (f ∷ fields) = (sid, f) ∷ pair_up ids fields
pair_up _ _ = []

-- An entry as a read returns it.
abbrev pub render : StreamId × List Text → Entry
render e = (format_id e.0, e.1)

entries_of-pair_up :
    (ids : List StreamId) (fields : List (List Text))
    → entries_of ids fields ≡ map render (pair_up ids fields)
unfolding entries_of pair_up
entries_of-pair_up (sid ∷ ids) (f ∷ fields) =
    ap (◌∷◌ (format_id sid, f)) (entries_of-pair_up ids fields)
entries_of-pair_up [] fields = refl
entries_of-pair_up (sid ∷ ids) [] = refl

abbrev pub in_range : StreamId → StreamId → StreamId × List Text → Bool
in_range lo hi e = id_leb lo e.0 && id_leb e.0 hi

-- The part that two bisections cut out of both lists.
abbrev window : List StreamId → List (List Text) → StreamId → StreamId → List (StreamId × List Text)
window ids fields lo hi =
    let i = bisect_left ids lo in
    let j = bisect_right ids hi in
    pair_up (take (j - i) (drop i ids)) (take (j - i) (drop i fields))

pub bisect_left-above :
    (ids : List StreamId) (lo : StreamId)
    → All (λ x. id_leb lo x ≡ true) ids
    → bisect_left ids lo ≡ 0
unfolding bisect_left
bisect_left-above [] lo h = refl
bisect_left-above (x ∷ ids) lo h = ground (arith, h.0)

outside :
    (lo hi : StreamId) (ids : List StreamId) (fields : List (List Text))
    → All (λ x. id_ltb hi x ≡ true) ids
    → filter_by (in_range lo hi) (pair_up ids fields) ≡ []
unfolding filter_by pair_up
outside lo hi [] fields h = refl
outside lo hi (x ∷ ids) [] h = refl
outside lo hi (x ∷ ids) (f ∷ fields) h =
    let out : in_range lo hi (x, f) ≡ false = ground (arith, h.0) in
    rw out (outside lo hi ids fields h.1)

All-above :
    (x y : StreamId) (ids : List StreamId)
    → id_ltb x y ≡ true
    → All (λ z. id_ltb y z ≡ true) ids
    → All (λ z. id_ltb x z ≡ true) ids
All-above x y ids h k =
    All-map (λ z. id_ltb y z ≡ true) (λ z. id_ltb x z ≡ true) ids (λ z. id_ltb_trans x y z h) k

pub All-from :
    (lo x : StreamId) (ids : List StreamId)
    → id_ltb x lo ≡ false
    → All (λ z. id_ltb x z ≡ true) ids
    → All (λ z. id_leb lo z ≡ true) ids
All-from lo x ids h k =
    All-map (λ z. id_ltb x z ≡ true) (λ z. id_leb lo z ≡ true) ids (λ z e. ground arith) k

window-beyond :
    (x : StreamId) (ids : List StreamId) (fs : List (List Text)) (lo hi : StreamId)
    → id_ltb hi x ≡ true
    → window (x ∷ ids) fs lo hi ≡ []
unfolding bisect_right pair_up
window-beyond x ids fs lo hi e =
    let none_left : 0 - bisect_left (x ∷ ids) lo ≡ 0 = omega arith in rw (e, none_left) refl

window-before :
    (x : StreamId) (ids : List StreamId) (f : List Text) (fields : List (List Text))
    (lo hi : StreamId)
    → id_ltb hi x ≡ false
    → id_ltb x lo ≡ true
    → window (x ∷ ids) (f ∷ fields) lo hi ≡ window ids fields lo hi
unfolding bisect_right bisect_left
window-before x ids f fields lo hi e₁ e₂ =
    let step : suc (bisect_right ids hi) - suc (bisect_left ids lo)
        ≡ bisect_right ids hi - bisect_left ids lo =
      omega arith in
    rw (e₁, e₂, step) refl

window-within :
    (x : StreamId) (ids : List StreamId) (f : List Text) (fields : List (List Text))
    (lo hi : StreamId)
    → id_ltb hi x ≡ false
    → id_ltb x lo ≡ false
    → bisect_left ids lo ≡ 0
    → window (x ∷ ids) (f ∷ fields) lo hi ≡ (x, f) ∷ window ids fields lo hi
unfolding bisect_right bisect_left pair_up
window-within x ids f fields lo hi e₁ e₂ e₃ =
    let all : suc (bisect_right ids hi) - 0 ≡ suc (bisect_right ids hi) = omega arith in
    let rest : bisect_right ids hi - 0 ≡ bisect_right ids hi = omega arith in
    rw (e₁, e₂, e₃, all, rest) refl

pub window-filter_by :
    (ids : List StreamId) (fields : List (List Text)) (lo hi : StreamId)
    → length ids ≡ length fields
    → IsSorted ids
    → window ids fields lo hi ≡ filter_by (in_range lo hi) (pair_up ids fields)
window-filter_by [] fields lo hi h k = unfold bisect_left bisect_right pair_up filter_by in refl
window-filter_by (x ∷ ids) [] lo hi h k = absurd (omega arith)
window-filter_by (x ∷ ids) (f ∷ fields) lo hi h k =
    by_place (window-filter_by ids fields lo hi (omega arith) k.1)
  where
    by_place :
        window ids fields lo hi ≡ filter_by (in_range lo hi) (pair_up ids fields)
        → window (x ∷ ids) (f ∷ fields) lo hi
          ≡ filter_by (in_range lo hi) (pair_up (x ∷ ids) (f ∷ fields))
    by_place ih = elim (Bool-cases (id_ltb hi x)) [
      | inl e ↦
          window-beyond x ids (f ∷ fields) lo hi e
          ∙ sym (outside lo hi (x ∷ ids) (f ∷ fields) (e, All-above hi x ids e k.0))
      | inr e ↦ elim (Bool-cases (id_ltb x lo)) [
        | inl e' ↦
            let out : in_range lo hi (x, f) ≡ false = ground arith in
            window-before x ids f fields lo hi e e' ∙ ih ∙ (unfold filter_by pair_up in rw out refl)
        | inr e' ↦
            let inside : in_range lo hi (x, f) ≡ true = ground arith in
            window-within x ids f fields lo hi e e'
              (bisect_left-above ids lo (All-from lo x ids e' k.0))
            ∙ ap (◌∷◌ (x, f)) ih
            ∙ (unfold filter_by pair_up in rw inside refl)
      ]
    ]

-- XRANGE and XREVRANGE: on a valid stream the bisected slice is the list of all entries whose ID
-- lies between the bounds, both included, in ID order, or in the reverse order, cut off behind
-- `count` entries where a count is given.
pub slice-filter_by :
    (s : Stream) (lo hi : StreamId) (count : Option ℤ)
    → IsValid s
    → let found = map render (filter_by (in_range lo hi) (pair_up s.ids s.fields)) in
      (range s lo hi count ≡ limit_to count found)
      × (revrange s hi lo count ≡ limit_to count (reverse found))
unfolding range revrange slice
slice-filter_by s lo hi count v =
    let same = window-filter_by s.ids s.fields lo hi v.parallel v.sorted in
    (rw (entries_of-pair_up _ _, same) refl, rw (entries_of-pair_up _ _, same) refl)

abbrev pub above : StreamId → StreamId × List Text → Bool
above sid e = id_ltb sid e.0

above-in_range :
    (sid : StreamId) (ids : List StreamId) (fields : List (List Text))
    → IsU64 sid
    → All IsU64 ids
    → filter_by (in_range (next_of sid) max_id) (pair_up ids fields)
      ≡ filter_by (above sid) (pair_up ids fields)
unfolding filter_by pair_up
above-in_range sid [] fields h k = refl
above-in_range sid (x ∷ ids) [] h k = refl
above-in_range sid (x ∷ ids) (f ∷ fields) h k =
    let top : id_leb x max_id ≡ true = ground (arith, k.0) in
    let same = id_leb-next_of sid x h k.0 in
    rw (same, top, above-in_range sid ids fields h k.1) (ground arith)

above_top :
    (sid : StreamId) (ids : List StreamId) (fields : List (List Text))
    → id_leb max_id sid ≡ true
    → All IsU64 ids
    → filter_by (above sid) (pair_up ids fields) ≡ []
unfolding filter_by pair_up
above_top sid [] fields h k = refl
above_top sid (x ∷ ids) [] h k = refl
above_top sid (x ∷ ids) (f ∷ fields) h k =
    let none_above : id_ltb sid x ≡ false = ground (arith, k.0) in
    rw none_above (above_top sid ids fields h k.1)

limit_to-nil : (count : Option ℤ) → limit_to count [] ≡ []
limit_to-nil none = refl
limit_to-nil (some (pos zero)) = refl
limit_to-nil (some (pos (suc n))) = refl
limit_to-nil (some (negsuc n)) = refl

-- XREAD: on a valid stream, what is read after an ID that fits 64 bits is the list of exactly the
-- entries whose ID is strictly greater, in ID order, cut off behind `count` entries where a count is
-- given.
pub read_after-filter_by :
    (s : Stream) (sid : StreamId) (count : Option ℤ)
    → IsValid s
    → IsU64 sid
    → read_after s sid count
      ≡ limit_to count (map render (filter_by (above sid) (pair_up s.ids s.fields)))
read_after-filter_by s sid count v h = elim (Bool-cases (id_leb max_id sid)) [
  | inl e ↦
      unfold read_after in rw (e, above_top sid s.ids s.fields e v.fits) (sym (limit_to-nil count))
  | inr e ↦
      let part = (slice-filter_by s (next_of sid) max_id count v).0 in
      unfold read_after range in rw (e, ← above-in_range sid s.ids s.fields h v.fits) part
]
