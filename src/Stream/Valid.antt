-- ===== src/Stream/Valid.antt =====
-- The invariant of a stream's entries, and that every write keeps it.
use kedis_python.Prelude.{
  ℕ, zero, suc, ◌+◌, ◌≤◌, Bool, true, false, not, Option, none, some, List, [], ◌∷◌, ◌++◌, ◌≡◌,
  refl, if◌then◌else◌, ◌==◌, All, All-map, All-append, All-drop, length, length-append, length-drop,
  drop, arith, Bool-cases, inl, inr, Text, text_eq, codes, ℤ,
}
use kedis_python.Stream.Id.{
  >>=-eq-ok, StreamId, ok, ◌>>=◌, raise_if, id_ltb, id_leb, u64_max, to_u64, parse_id, format_id,
  bad_arity,
}
use kedis_python.Stream.IdLaws.{IsU64, parse_id_or-IsU64, to_u64-le}
use kedis_python.Stream.Group.{delete_at}
use kedis_python.Stream.Sorted.{bisect_left, IsSorted}
use kedis_python.Stream.SortedLaws.{IsSorted-snoc, IsSorted-drop, IsSorted-delete_at, All-delete_at}
use kedis_python.Stream.Entries.{
  Stream, new_stream, auto_id, auto_seq, explicit_id, next_id, appended, add, is_pairs,
  before_auto_seq, delete_one, delete, found_at, cut_front, trim, length_cut, id_cut,
}

-- The two lists are parallel, the IDs ascend strictly, none is above the top ID, and all fit 64
-- bits.
pub record IsValid (s : Stream) : Type 0 where
  pub parallel : length s.ids ≡ length s.fields
  pub sorted : IsSorted s.ids
  pub below_top : All (λ x. id_leb x s.last_id ≡ true) s.ids
  pub fits : All IsU64 s.ids
  pub top_fits : IsU64 s.last_id

pub IsValid-new_stream : IsValid new_stream
IsValid-new_stream = record {
  parallel = refl;
  sorted = tt;
  below_top = tt;
  fits = tt;
  top_fits = record { ms = omega arith; seq = omega arith };
}

-- The new ID lies above the top ID and fits 64 bits.
abbrev pub IsNext : StreamId → StreamId → Type 0
IsNext last sid = (id_ltb last sid ≡ true) × IsU64 sid

auto_id-IsNext :
    (last : StreamId) (now : ℕ) (sid : StreamId)
    → IsU64 last
    → now ≤ u64_max
    → auto_id last now ≡ ok sid
    → IsNext last sid
unfolding auto_id
auto_id-IsNext last now sid h k e = (ground arith, record { ms = ground arith; seq = ground arith })

auto_seq-IsNext :
    (last : StreamId) (ms : ℕ) (sid : StreamId)
    → IsU64 last
    → ms ≤ u64_max
    → auto_seq last ms ≡ ok sid
    → IsNext last sid
unfolding auto_seq
auto_seq-IsNext last ms sid h k e = (ground arith, record { ms = ground arith; seq = ground arith })

explicit_id-IsNext :
    (last given sid : StreamId) → IsU64 given → explicit_id last given ≡ ok sid → IsNext last sid
unfolding explicit_id
explicit_id-IsNext last given sid h e =
    (ground arith, record { ms = ground arith; seq = ground arith })

parse_id-IsU64 : (text : Text) (sid : StreamId) → parse_id text ≡ ok sid → IsU64 sid
unfolding parse_id
parse_id-IsU64 text sid h = parse_id_or-IsU64 0 text sid (omega arith) h

pub next_id-IsNext :
    (last : StreamId) (spec : Text) (now : ℕ) (sid : StreamId)
    → IsU64 last
    → now ≤ u64_max
    → next_id last spec now ≡ ok sid
    → IsNext last sid
unfolding next_id
next_id-IsNext last spec now sid h k e = by_spec (text_eq spec (codes "*")) (before_auto_seq spec) e
  where
    by_spec :
        (star : Bool) (auto : Option Text)
        → (if star then auto_id last now else elim auto [
          | some ms_text ↦ do ms ← to_u64 ms_text; auto_seq last ms
          | none ↦ do given ← parse_id spec; explicit_id last given
        ])
          ≡ ok sid
        → IsNext last sid
    by_spec true auto e = auto_id-IsNext last now sid h k e
    by_spec false (some ms_text) e =
        let (ms, p, q) = >>=-eq-ok (to_u64 ms_text) _ e in
        auto_seq-IsNext last ms sid h (to_u64-le ms_text ms p) q
    by_spec false none e =
        let (given, p, q) = >>=-eq-ok (parse_id spec) _ e in
        explicit_id-IsNext last given sid (parse_id-IsU64 spec given p) q

length-delete_at {ℓ κ} :
    {A : Type ℓ} {B : Type κ} (i : ℕ) (xs : List A) (ys : List B)
    → length xs ≡ length ys
    → length (delete_at i xs) ≡ length (delete_at i ys)
unfolding delete_at
length-delete_at i [] [] h = refl
length-delete_at zero (x ∷ xs) (y ∷ ys) h = omega arith
length-delete_at (suc i) (x ∷ xs) (y ∷ ys) h = omega (arith, length-delete_at i xs ys (omega arith))
length-delete_at i [] (y ∷ ys) h = absurd (omega arith)
length-delete_at i (x ∷ xs) [] h = absurd (omega arith)

-- What a successful `add` has done.
pub add-ok :
    (s s' : Stream) (fields : List Text) (spec text : Text) (now : ℕ)
    → add s fields spec now ≡ ok (s', text)
    → (sid : StreamId) × (next_id s.last_id spec now ≡ ok sid)
      × (is_pairs fields ≡ true)
      × (text ≡ format_id sid)
      × (s' ≡ appended s sid fields)
unfolding add
add-ok s s' fields spec text now h =
    let (_, p, h₁) = >>=-eq-ok (raise_if (not (is_pairs fields)) bad_arity) _ h in
    let (sid, q, h₂) = >>=-eq-ok (next_id s.last_id spec now) _ h₁ in
    (sid, q, ground arith, ground arith, ground arith)

below_next :
    (last sid : StreamId) (ids : List StreamId)
    → id_ltb last sid ≡ true
    → All (λ x. id_leb x last ≡ true) ids
    → All (λ x. id_ltb x sid ≡ true) ids
below_next last sid ids h k =
    All-map (λ x. id_leb x last ≡ true) (λ x. id_ltb x sid ≡ true) ids (λ x e. ground arith) k

appended-IsValid :
    (s : Stream) (sid : StreamId) (fields : List Text)
    → IsValid s
    → IsNext s.last_id sid
    → IsValid (appended s sid fields)
unfolding appended
appended-IsValid s sid fields v (above, fits) =
    let below = below_next s.last_id sid s.ids above v.below_top in
    record {
      parallel =
          omega (
            arith,
            length-append s.ids (sid ∷ []),
            length-append s.fields (fields ∷ []),
            v.parallel,
          );
      sorted = IsSorted-snoc s.ids sid v.sorted below;
      below_top =
          All-append (λ x. id_leb x sid ≡ true) s.ids (sid ∷ [])
            (All-map (λ x. id_ltb x sid ≡ true) (λ x. id_leb x sid ≡ true) s.ids
              (λ x e. ground arith) below)
            (ground arith, tt);
      fits = All-append IsU64 s.ids (sid ∷ []) v.fits (fits, tt);
      top_fits = fits;
    }

-- XADD on a valid stream, with a clock that fits 64 bits: if it returns an ID, the stream stays
-- valid, the ID is strictly above every ID ever used in it and is its new top ID, its text is what
-- is returned, the entry stands last with the given fields, and the lifetime count is one more.
pub add-IsValid :
    (s s' : Stream) (fields : List Text) (spec text : Text) (now : ℕ)
    → IsValid s
    → now ≤ u64_max
    → add s fields spec now ≡ ok (s', text)
    → IsValid s'
      × (id_ltb s.last_id s'.last_id ≡ true)
      × (text ≡ format_id s'.last_id)
      × (s'.ids ≡ s.ids ++ s'.last_id ∷ [])
      × (s'.fields ≡ s.fields ++ fields ∷ [])
      × (s'.entries_added ≡ s.entries_added + 1)
add-IsValid s s' fields spec text now v small h =
    let (sid, q, pairs, t, e) = add-ok s s' fields spec text now h in
    let next = next_id-IsNext s.last_id spec now sid v.top_fits small q in
    rw e (
      appended-IsValid s sid fields v next,
      (unfold appended in next.0),
      (unfold appended in t),
      (unfold appended in refl),
      (unfold appended in refl),
      (unfold appended in refl),
    )

delete_one-IsValid : (s : Stream) (sid : StreamId) → IsValid s → IsValid (delete_one s sid).0
unfolding delete_one
delete_one-IsValid s sid v = elim (Bool-cases (found_at s.ids (bisect_left s.ids sid) sid)) [
  | inr e ↦ rw e v
  | inl e ↦
      let i = bisect_left s.ids sid in
      rw e (record {
        parallel = length-delete_at i s.ids s.fields v.parallel;
        sorted = IsSorted-delete_at i s.ids v.sorted;
        below_top = All-delete_at (λ x. id_leb x s.last_id ≡ true) i s.ids v.below_top;
        fits = All-delete_at IsU64 i s.ids v.fits;
        top_fits = v.top_fits;
      })
]

pub delete-IsValid : (s : Stream) (ids : List StreamId) → IsValid s → IsValid (delete s ids).0
unfolding delete
delete-IsValid s [] v = v
delete-IsValid s (sid ∷ ids) v =
    delete-IsValid (delete_one s sid).0 ids (delete_one-IsValid s sid v)

dropped-IsValid :
    (s : Stream) (n : ℕ)
    → IsValid s
    → IsValid (record s { ids = drop n s.ids; fields = drop n s.fields })
dropped-IsValid s n v = record {
  parallel = omega (arith, length-drop n s.ids, length-drop n s.fields, v.parallel);
  sorted = IsSorted-drop n s.ids v.sorted;
  below_top = All-drop (λ x. id_leb x s.last_id ≡ true) n s.ids v.below_top;
  fits = All-drop IsU64 n s.ids v.fits;
  top_fits = v.top_fits;
}

cut_front-IsValid : (s : Stream) (cut : ℕ) → IsValid s → IsValid (cut_front s cut).0
unfolding cut_front
cut_front-IsValid s cut v = elim (Bool-cases (cut == 0)) [
  | inl e ↦ rw e v
  | inr e ↦ rw e (dropped-IsValid s cut v)
]

pub trim-IsValid :
    (s s' : Stream) (maxlen : Option ℤ) (minid : Option StreamId) (n : ℕ)
    → IsValid s
    → trim s maxlen minid ≡ ok (s', n)
    → IsValid s'
unfolding trim
trim-IsValid s s' maxlen minid n v h =
    let (cut, p, q) = >>=-eq-ok (length_cut (length s.ids) maxlen) _ h in
    let e : (cut_front s (id_cut s.ids cut minid)).0 ≡ s' = ground arith in
    rw e at (cut_front-IsValid s (id_cut s.ids cut minid) v)
