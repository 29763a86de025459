-- ===== src/Stream/Entries.antt =====
-- The entries of a stream (stream.py, `Stream`): adding, deleting, trimming and reading.
use mathlib.Core.List.{reverse}
use kedis_python.Prelude.{
  ℕ, zero, suc, ◌+◌, ◌-◌, ◌%◌, Bool, true, false, not, ◌&&◌, Option, none, some, List, [], ◌∷◌,
  ◌++◌, if◌then◌else◌, Text, text_eq, ℤ, pos, negsuc, take, drop, ltb, ◌==◌, length, max, codes,
}
use kedis_python.Dict.{Dict}
use kedis_python.Stream.Id.{
  StreamId, Result, ok, err, ◌>>=◌, ◌>>◌, raise_if, min_id, max_id, id_leb, id_eq, u64_max,
  format_id, to_u64, parse_id, next_of, zero_id, small_id, bad_arity, bad_maxlen,
}
use kedis_python.Stream.Sorted.{bisect_left, bisect_right}
use kedis_python.Stream.Group.{Group, delete_at}

pub record Stream : Type 0 where
  pub ids : List StreamId
  pub fields : List (List Text)
  pub last_id : StreamId
  pub entries_added : ℕ
  pub groups : Dict Text Group

-- `Stream()`.
abbrev pub new_stream : Stream
new_stream = record { ids = []; fields = []; last_id = min_id; entries_added = 0; groups = [] }

-- An entry as the reads return it.
abbrev pub Entry : Type 0
Entry = Text × List Text

-- `spec.endswith("-*")`, with what stands in front.
unfoldable pub before_auto_seq : Text → Option Text
before_auto_seq [] = none
before_auto_seq (a ∷ []) = none
before_auto_seq (a ∷ b ∷ []) = if a == b'-' && b == b'*' then some [] else none
before_auto_seq (a ∷ b ∷ c ∷ s) = elim (before_auto_seq (b ∷ c ∷ s)) [
  | none ↦ none
  | some ms ↦ some (a ∷ ms)
]

-- The branch of `_next_id` for "*".
unfoldable pub auto_id : StreamId → ℕ → Result StreamId
auto_id last now_ms =
    let ms = max now_ms last.ms in
    if ms == last.ms
    then (if ltb last.seq u64_max
        then ok (record { ms = ms; seq = last.seq + 1 })
        else if ms == u64_max
        then err small_id
        else ok (record { ms = ms + 1; seq = 0 }))
    else ok (record { ms = ms; seq = 0 })

-- The branch for "ms-*".
unfoldable pub auto_seq : StreamId → ℕ → Result StreamId
auto_seq last ms =
    if ltb ms last.ms
    then err small_id
    else if ms == last.ms
    then (if last.seq == u64_max then err small_id else ok (record { ms = ms; seq = last.seq + 1 }))
    else ok (record { ms = ms; seq = if ms == 0 then 1 else 0 })

-- The branch for an explicit ID.
unfoldable pub explicit_id : StreamId → StreamId → Result StreamId
explicit_id last sid = do
  raise_if (id_eq sid min_id) zero_id
  raise_if (id_leb sid last) small_id
  ok sid

-- `_next_id(spec, now_ms)`.
unfoldable pub next_id : StreamId → Text → ℕ → Result StreamId
next_id last spec now_ms =
    if text_eq spec (codes "*") then auto_id last now_ms else elim (before_auto_seq spec) [
      | some ms_text ↦ do ms ← to_u64 ms_text; auto_seq last ms
      | none ↦ do sid ← parse_id spec; explicit_id last sid
    ]

abbrev pub is_pairs : List Text → Bool
is_pairs [] = false
is_pairs (f ∷ fields) = length (f ∷ fields) % 2 == 0

-- The four writes of `add`.
unfoldable pub appended : Stream → StreamId → List Text → Stream
appended s sid fields = record s {
  ids = s.ids ++ sid ∷ [];
  fields = s.fields ++ fields ∷ [];
  last_id = sid;
  entries_added = s.entries_added + 1;
}

-- `add(fields, id_spec, now_ms)`: the stream with the entry, and the text of its ID.
unfoldable pub add : Stream → List Text → Text → ℕ → Result (Stream × Text)
add s fields id_spec now_ms = do
  raise_if (not (is_pairs fields)) bad_arity
  sid ← next_id s.last_id id_spec now_ms
  ok (appended s sid fields, format_id sid)

-- `i < len(ids) and ids[i] == sid`.
unfoldable pub found_at : List StreamId → ℕ → StreamId → Bool
found_at [] i sid = false
found_at (x ∷ ids) zero sid = id_eq x sid
found_at (x ∷ ids) (suc i) sid = found_at ids i sid

-- One round of `delete`.
unfoldable pub delete_one : Stream → StreamId → Stream × ℕ
delete_one s sid =
    let i = bisect_left s.ids sid in
    if found_at s.ids i sid
    then (record s { ids = delete_at i s.ids; fields = delete_at i s.fields }, 1)
    else (s, 0)

-- `delete(*ids)`: how many existed.
unfoldable pub delete : Stream → List StreamId → Stream × ℕ
unfolding delete_one
delete s [] = (s, 0)
delete s (sid ∷ ids) =
    let (s', n) = delete_one s sid in let (s'', m) = delete s' ids in (s'', n + m)

-- `max(cut, len(self._ids) - maxlen)` from a cut of 0.
abbrev pub length_cut : ℕ → Option ℤ → Result ℕ
length_cut len none = ok 0
length_cut len (some (negsuc n)) = err bad_maxlen
length_cut len (some (pos n)) = ok (len - n)

abbrev pub id_cut : List StreamId → ℕ → Option StreamId → ℕ
id_cut ids cut none = cut
id_cut ids cut (some minid) = max cut (bisect_left ids minid)

-- `del self._ids[:cut]` and the same for the fields, unless there is nothing to cut.
unfoldable pub cut_front : Stream → ℕ → Stream × ℕ
cut_front s cut =
    if cut == 0
    then (s, 0)
    else (record s { ids = drop cut s.ids; fields = drop cut s.fields }, cut)

-- `trim(maxlen, minid)`: how many were removed.
unfoldable pub trim : Stream → Option ℤ → Option StreamId → Result (Stream × ℕ)
trim s maxlen minid = do
  by_length ← length_cut (length s.ids) maxlen
  ok (cut_front s (id_cut s.ids by_length minid))

-- The entries of the two parallel lists, as a read returns them.
unfoldable pub entries_of : List StreamId → List (List Text) → List Entry
entries_of (sid ∷ ids) (f ∷ fields) = (format_id sid, f) ∷ entries_of ids fields
entries_of _ _ = []

-- At most `count` entries: the loop stops once it has that many.
abbrev pub limit_to : Option ℤ → List Entry → List Entry
limit_to none entries = entries
limit_to (some (pos n)) entries = take n entries
limit_to (some (negsuc n)) entries = []

-- `_slice(lo, hi, reverse, count)`.
unfoldable pub slice : Stream → StreamId → StreamId → Bool → Option ℤ → List Entry
unfolding entries_of
slice s lo hi backwards count =
    let i = bisect_left s.ids lo in
    let j = bisect_right s.ids hi in
    let window = entries_of (take (j - i) (drop i s.ids)) (take (j - i) (drop i s.fields)) in
    limit_to count (if backwards then reverse window else window)

-- `range(start, end, count)` and `revrange(end, start, count)`.
unfoldable pub range : Stream → StreamId → StreamId → Option ℤ → List Entry
unfolding slice
range s start end count = slice s start end false count

unfoldable pub revrange : Stream → StreamId → StreamId → Option ℤ → List Entry
unfolding slice
revrange s end start count = slice s start end true count

-- `read_after(sid, count)`.
unfoldable pub read_after : Stream → StreamId → Option ℤ → List Entry
unfolding slice
read_after s sid count = if id_leb max_id sid then [] else slice s (next_of sid) max_id false count

abbrev pub nth_fields : List (List Text) → ℕ → Option (List Text)
nth_fields [] i = none
nth_fields (f ∷ fields) zero = some f
nth_fields (f ∷ fields) (suc i) = nth_fields fields i

-- `entry_fields(sid)`.
unfoldable pub entry_fields : Stream → StreamId → Option (List Text)
entry_fields s sid =
    let i = bisect_left s.ids sid in if found_at s.ids i sid then nth_fields s.fields i else none
