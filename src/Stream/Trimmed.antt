-- ===== src/Stream/Trimmed.antt =====
-- XTRIM and the trim of XADD (`Stream.trim` of stream.py) by what they keep: the newest entries up to a
-- number, and of them those from an ID on.
use kedis_python.Prelude.{
  ℕ, zero, suc, ◌-◌, ◌≤◌, ◌≡◌, refl, ap, sym, ◌∙◌, true, false, Option, none, some, List, [], ◌∷◌,
  ◌++◌, All, leb, if◌then◌else◌, ◌==◌, length, drop, max, arith, Bool-cases, inl, inr, Text, ℤ, pos,
  negsuc, filter_by, filter_by-All,
}
use kedis_python.Stream.Id.{StreamId, ok, >>=-eq-ok, id_ltb, id_leb}
use kedis_python.Stream.Sorted.{bisect_left, IsSorted}
use kedis_python.Stream.Entries.{Stream, cut_front, trim, length_cut, id_cut}
use kedis_python.Stream.Valid.{IsValid}
use kedis_python.Stream.Window.{pair_up, bisect_left-above, All-from}

-- The last `n` elements of a list, or all where there are not so many.
unfoldable pub last_of {ℓ} : {A : Type ℓ} → ℕ → List A → List A
last_of n [] = []
last_of n (x ∷ xs) = if leb (length (x ∷ xs)) n then x ∷ xs else last_of n xs

abbrev pub newest {ℓ} : {A : Type ℓ} → Option ℤ → List A → List A
newest none es = es
newest (some (pos n)) es = last_of n es
newest (some (negsuc n)) es = es

abbrev pub from_id : Option StreamId → List (StreamId × List Text) → List (StreamId × List Text)
from_id none es = es
from_id (some least) es = filter_by (λ e. id_leb least e.0) es

-- What a trim keeps.
abbrev pub kept :
    Option ℤ → Option StreamId → List (StreamId × List Text) → List (StreamId × List Text)
kept maxlen minid es = from_id minid (newest maxlen es)

abbrev pub entries : Stream → List (StreamId × List Text)
entries s = pair_up s.ids s.fields

drop-nil {ℓ} : {A : Type ℓ} (k : ℕ) → ◌≡◌ {A = List A} (drop k []) []
drop-nil zero = refl
drop-nil (suc k) = refl

drop-last_of {ℓ} : {A : Type ℓ} (n : ℕ) (xs : List A) → drop (length xs - n) xs ≡ last_of n xs
unfolding last_of
drop-last_of n [] = drop-nil (0 - n)
drop-last_of n (x ∷ xs) = elim (Bool-cases (leb (length (x ∷ xs)) n)) [
  | inl e ↦ let q : length (x ∷ xs) - n ≡ 0 = ground (arith, e) in rw (e, q) refl
  | inr e ↦
      let q : length (x ∷ xs) - n ≡ suc (length xs - n) = ground (arith, e) in
      rw (e, q) (drop-last_of n xs)
]

length-pair_up :
    (ids : List StreamId) (fields : List (List Text))
    → length ids ≡ length fields
    → length (pair_up ids fields) ≡ length ids
unfolding pair_up
length-pair_up [] [] h = refl
length-pair_up (x ∷ ids) (f ∷ fields) h = ap suc (length-pair_up ids fields (omega (arith, h)))
length-pair_up [] (f ∷ fields) h = absurd (omega (arith, h))
length-pair_up (x ∷ ids) [] h = absurd (omega (arith, h))

drop-pair_up :
    (k : ℕ) (ids : List StreamId) (fields : List (List Text))
    → pair_up (drop k ids) (drop k fields) ≡ drop k (pair_up ids fields)
unfolding pair_up
drop-pair_up zero ids fields = refl
drop-pair_up (suc k) [] fields = refl
drop-pair_up (suc k) (x ∷ ids) (f ∷ fields) = drop-pair_up k ids fields
drop-pair_up (suc k) (x ∷ ids) [] = elim (drop k ids) as (λ l. pair_up l [] ≡ []) [
  | [] ↦ refl
  | ◌∷◌ y ys ↦ refl
]

pub pair_up-snoc :
    (ids : List StreamId) (fields : List (List Text)) (sid : StreamId) (f : List Text)
    → length ids ≡ length fields
    → pair_up (ids ++ sid ∷ []) (fields ++ f ∷ []) ≡ pair_up ids fields ++ (sid, f) ∷ []
unfolding pair_up
pair_up-snoc [] [] sid f h = refl
pair_up-snoc (x ∷ ids) (g ∷ fields) sid f h =
    ap (◌∷◌ (x, g)) (pair_up-snoc ids fields sid f (omega (arith, h)))
pair_up-snoc [] (g ∷ fields) sid f h = absurd (omega (arith, h))
pair_up-snoc (x ∷ ids) [] sid f h = absurd (omega (arith, h))

All-pair_up :
    (least : StreamId) (ids : List StreamId) (fields : List (List Text))
    → All (λ x. id_leb least x ≡ true) ids
    → All (λ e. id_leb least e.0 ≡ true) (pair_up ids fields)
unfolding pair_up
All-pair_up least [] fields h = tt
All-pair_up least (x ∷ ids) [] h = tt
All-pair_up least (x ∷ ids) (f ∷ fields) h = (h.0, All-pair_up least ids fields h.1)

drop-from_id :
    (least : StreamId) (ids : List StreamId) (fields : List (List Text))
    → IsSorted ids
    → drop (bisect_left ids least) (pair_up ids fields)
      ≡ filter_by (λ e. id_leb least e.0) (pair_up ids fields)
unfolding bisect_left pair_up filter_by
drop-from_id least [] fields h = refl
drop-from_id least (x ∷ ids) [] h = drop-nil (bisect_left (x ∷ ids) least)
drop-from_id least (x ∷ ids) (f ∷ fields) h = elim (Bool-cases (id_ltb x least)) [
  | inl e ↦
      let q : id_leb least x ≡ false = ground (arith, e) in
      rw (e, q) (drop-from_id least ids fields h.1)
  | inr e ↦
      let q : id_leb least x ≡ true = ground (arith, e) in
      rw (e, q)
        (ap (◌∷◌ (x, f)) (
          sym (
            filter_by-All (λ e. id_leb least e.0) (pair_up ids fields)
              (All-pair_up least ids fields (All-from least x ids e h.0)))))
]

drop-both :
    (n : ℕ) (least : StreamId) (ids : List StreamId) (fields : List (List Text))
    → IsSorted ids
    → length ids ≡ length fields
    → drop (max (length ids - n) (bisect_left ids least)) (pair_up ids fields)
      ≡ filter_by (λ e. id_leb least e.0) (last_of n (pair_up ids fields))
unfolding bisect_left pair_up filter_by last_of
drop-both n least [] fields h p = drop-nil (max (0 - n) 0)
drop-both n least (x ∷ ids) [] h p = absurd (omega (arith, p))
drop-both n least (x ∷ ids) (f ∷ fields) h p =
    let len : length (pair_up ids fields) ≡ length ids =
      length-pair_up ids fields (omega (arith, p)) in
    elim (Bool-cases (leb (length (pair_up (x ∷ ids) (f ∷ fields))) n)) [
      | inl e ↦
          let q : max (length (x ∷ ids) - n) (bisect_left (x ∷ ids) least)
              ≡ bisect_left (x ∷ ids) least =
            ground (arith, e, len) in
          rw (e, q) (drop-from_id least (x ∷ ids) (f ∷ fields) h)
      | inr e ↦ rw e (
          drop_more n least x ids f fields h (omega (arith, p)) (ground (arith, e, len))
            (drop-both n least ids fields h.1 (omega (arith, p))))
    ]
  where
    drop_more :
        (n : ℕ) (least x : StreamId) (ids : List StreamId) (f : List Text)
        (fields : List (List Text))
        → IsSorted (x ∷ ids)
        → length ids ≡ length fields
        → n ≤ length ids
        → drop (max (length ids - n) (bisect_left ids least)) (pair_up ids fields)
          ≡ filter_by (λ e. id_leb least e.0) (last_of n (pair_up ids fields))
        → drop
            (max (length (x ∷ ids) - n) (bisect_left (x ∷ ids) least))
            (pair_up (x ∷ ids) (f ∷ fields))
          ≡ filter_by (λ e. id_leb least e.0) (last_of n (pair_up ids fields))
    drop_more n least x ids f fields h p few ih = elim (Bool-cases (id_ltb x least)) [
      | inl e ↦
          let q : max (length (x ∷ ids) - n) (suc (bisect_left ids least))
              ≡ suc (max (length ids - n) (bisect_left ids least)) =
            ground (arith, few) in
          rw (e, q) ih
      | inr e ↦
          let none_below : bisect_left ids least ≡ 0 =
            bisect_left-above ids least (All-from least x ids e h.0) in
          let q : max (length (x ∷ ids) - n) 0
              ≡ suc (max (length ids - n) (bisect_left ids least)) =
            ground (arith, few, none_below) in
          rw (e, q) ih
    ]

entries-cut_front : (s : Stream) (cut : ℕ) → entries (cut_front s cut).0 ≡ drop cut (entries s)
unfolding cut_front
entries-cut_front s cut = elim (Bool-cases (cut == 0)) [
  | inl e ↦ let q : cut ≡ 0 = ground (arith, e) in rw (q, cut_front) refl
  | inr e ↦ rw e (drop-pair_up cut s.ids s.fields)
]

drop-id_cut :
    (s : Stream) (maxlen : Option ℤ) (minid : Option StreamId) (cut : ℕ)
    → IsValid s
    → length_cut (length s.ids) maxlen ≡ ok cut
    → drop (id_cut s.ids cut minid) (entries s) ≡ kept maxlen minid (entries s)
drop-id_cut s none none cut v h = let q : cut ≡ 0 = ground (arith, h) in rw q refl
drop-id_cut s none (some least) cut v h =
    let q : max cut (bisect_left s.ids least) ≡ bisect_left s.ids least = ground (arith, h) in
    rw q (drop-from_id least s.ids s.fields v.sorted)
drop-id_cut s (some (pos n)) none cut v h =
    let q : cut ≡ length (entries s) - n =
      ground (arith, h, length-pair_up s.ids s.fields v.parallel) in
    rw q (drop-last_of n (entries s))
drop-id_cut s (some (pos n)) (some least) cut v h =
    let q : length s.ids - n ≡ cut = ground (arith, h) in
    rw (← q) (drop-both n least s.ids s.fields v.sorted v.parallel)
drop-id_cut s (some (negsuc n)) minid cut v h = absurd (ground (arith, h))

cut_front-same :
    (s : Stream) (cut : ℕ)
    → ((cut_front s cut).0.last_id ≡ s.last_id)
      × ((cut_front s cut).0.entries_added ≡ s.entries_added)
      × ((cut_front s cut).0.groups ≡ s.groups)
unfolding cut_front
cut_front-same s cut = elim (Bool-cases (cut == 0)) [
  | inl e ↦ rw e (refl, refl, refl)
  | inr e ↦ rw e (refl, refl, refl)
]

-- A trim of a valid stream keeps exactly the newest entries up to the number, of them those from the
-- least ID on, in order, and nothing else of the stream changes.
pub trim-kept :
    (s s' : Stream) (maxlen : Option ℤ) (minid : Option StreamId) (n : ℕ)
    → IsValid s
    → trim s maxlen minid ≡ ok (s', n)
    → (entries s' ≡ kept maxlen minid (entries s))
      × (s'.last_id ≡ s.last_id)
      × (s'.entries_added ≡ s.entries_added)
      × (s'.groups ≡ s.groups)
unfolding trim
trim-kept s s' maxlen minid n v h =
    let (cut, p, q) = >>=-eq-ok (length_cut (length s.ids) maxlen) _ h in
    let e : (cut_front s (id_cut s.ids cut minid)).0 ≡ s' = ground arith in
    let same = cut_front-same s (id_cut s.ids cut minid) in
    rw (← e) (
      entries-cut_front s (id_cut s.ids cut minid) ∙ drop-id_cut s maxlen minid cut v p,
      same.0,
      same.1,
      same.2,
    )
