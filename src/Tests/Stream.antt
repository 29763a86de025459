-- ===== src/Tests/Stream.antt =====
-- stream.py at concrete inputs.
use kedis_python.Prelude.{
  ℕ, ◌≡◌, ◌≢◌, refl, ◌+◌, true, false, none, some, List, [], ◌∷◌, ◌++◌, map, codes, Text, arith,
  text_eq, pos, filter_by,
}
use mathlib.Core.List.{reverse}
use kedis_python.Decimal
use kedis_python.Dict
use kedis_python.PyInt.{int_of}
use kedis_python.Stream.Id
use kedis_python.Stream.Id.{
  StreamId, ok, err, bad_id, bad_interval, bad_record, parse_id, format_id, parse_bound,
  parse_id_or, id_ltb, id_leb, max_id, bad_name,
}
use kedis_python.Stream.Snapshot.{to_state, from_state, from_state-to_state}
use kedis_python.Stream.Id.{◌>>=◌}
use kedis_python.Stream.IdLaws.{
  IsU64, parse_id-format_id, parse_bound-exclusive, within_bound, strictly_within,
}
use kedis_python.Stream.Sorted
use kedis_python.Stream.Group
use kedis_python.Stream.Group.{Group}
use kedis_python.Stream.Entries
use kedis_python.Stream.Entries.{Stream, new_stream, add, range, revrange, read_after, limit_to}
use kedis_python.Stream.Valid.{IsValid, IsValid-new_stream, add-IsValid}
use kedis_python.Stream.Window.{
  slice-filter_by, read_after-filter_by, pair_up, render, in_range, above,
}
use kedis_python.Stream.Records
use kedis_python.Stream.Records.{apply_group_record}
use kedis_python.Stream.Applied.{AreCoherent, IsSound, apply_group_record-IsSound}

-- What the runs below compute with.
run : Unit {0}
unfolding Decimal.print Decimal.all_digits Decimal.value_from Id.to_u64 Id.partition Id.parse_id
    Id.format_id Id.parse_bound Id.next_of Id.previous_of Id.exclusive_bound Id.parse_id_or
    Id.check_name text_eq Entries.add Entries.next_id Entries.before_auto_seq Entries.auto_id
    Entries.auto_seq Entries.explicit_id Entries.appended Entries.range Entries.slice
    Entries.entries_of Sorted.bisect_left Sorted.bisect_right Sorted.insort
    Records.apply_group_record Records.kind_of Records.apply_kind Records.create_or_move
    Records.group_of Records.put_group Records.to_int Records.create_consumer Records.deliver
    Records.delete_consumer Records.remove_all Group.pel_set Group.owned_by Dict.get Dict.has
    Dict.put Dict.remove filter_by int_of
run = tt

abbrev sid : ℕ → ℕ → StreamId
sid ms seq = record { ms = ms; seq = seq }

ids_read :
    (parse_id (codes "1700-5") ≡ ok (sid 1700 5))
    × (parse_id (codes "007") ≡ ok (sid 7 0))
    × (parse_id (codes "1-") ≡ err bad_id)
    × (parse_bound true (codes "(5-3") ≡ ok (sid 5 4))
    × (parse_bound false (codes "(5") ≡ ok (sid 5 18446744073709551614))
    × (parse_bound true (codes "(18446744073709551615-18446744073709551615") ≡ err bad_interval)
unfolding run
ids_read = (refl, refl, refl, refl, refl, refl)

parse_id-format_id_example : parse_id (format_id (sid 1700 5)) ≡ ok (sid 1700 5)
parse_id-format_id_example = parse_id-format_id (sid 1700 5) (omega arith)

five_three : parse_id_or 0 (codes "5-3") ≡ ok (sid 5 3)
unfolding run
five_three = refl

parse_bound-exclusive_example :
    ((sid 5 3 ≡ max_id) → parse_bound true (codes "(5-3") ≡ err bad_interval)
    × ((sid 5 3 ≢ max_id)
        → (bound : StreamId) × (parse_bound true (codes "(5-3") ≡ ok bound)
          × ((x : StreamId)
              → IsU64 x
              → within_bound true bound x ≡ strictly_within true (sid 5 3) x))
parse_bound-exclusive_example = parse_bound-exclusive true (codes "5-3") (sid 5 3) five_three

abbrev pair : List Text
pair = codes "item" ∷ codes "book" ∷ []

abbrev one : Stream
one = record new_stream {
  ids = sid 7 0 ∷ [];
  fields = pair ∷ [];
  last_id = sid 7 0;
  entries_added = 1;
}

one_added : add new_stream pair (codes "*") 7 ≡ ok (one, codes "7-0")
unfolding run
one_added = refl

add-IsValid_example :
    IsValid one
    × (id_ltb new_stream.last_id one.last_id ≡ true)
    × (codes "7-0" ≡ format_id one.last_id)
    × (one.ids ≡ new_stream.ids ++ one.last_id ∷ [])
    × (one.fields ≡ new_stream.fields ++ pair ∷ [])
    × (one.entries_added ≡ new_stream.entries_added + 1)
add-IsValid_example =
    add-IsValid new_stream one pair (codes "*") (codes "7-0") 7 IsValid-new_stream (omega arith)
      one_added

one-IsValid : IsValid one
one-IsValid = add-IsValid_example.0

slice-filter_by_example :
    let found =
      map render (filter_by (in_range (sid 1 0) (sid 9 0)) (pair_up one.ids one.fields)) in
    (range one (sid 1 0) (sid 9 0) none ≡ limit_to none found)
    × (revrange one (sid 9 0) (sid 1 0) none ≡ limit_to none (reverse found))
slice-filter_by_example = slice-filter_by one (sid 1 0) (sid 9 0) none one-IsValid

one_read : range one (sid 1 0) (sid 9 0) (some (pos 1)) ≡ (codes "7-0", pair) ∷ []
unfolding run
one_read = refl

read_after-filter_by_example :
    read_after one (sid 6 9) none
    ≡ limit_to none (map render (filter_by (above (sid 6 9)) (pair_up one.ids one.fields)))
read_after-filter_by_example = read_after-filter_by one (sid 6 9) none one-IsValid (omega arith)

-- Creating a group, delivering two entries out of order, and deleting the consumer.
abbrev grouped : Stream
grouped = record one {
  groups =
      (
        codes "g",
        record {
          name = codes "g";
          last_id = sid 0 0;
          consumers =
              (codes "c", record { name = codes "c"; seen_ms = pos 9; active_ms = pos 9 }) ∷ [];
          pel = (sid 7 0, record { consumer = codes "c"; delivery_ms = pos 9; count = pos 1 }) ∷ [];
          pel_ids = sid 7 0 ∷ [];
        },
      )
      ∷ [];
}

delivered :
    apply_group_record
      (record one { groups = (codes "g", Group.new_group (codes "g") (sid 0 0)) ∷ [] })
      (codes "XGPEL")
      (codes "g" ∷ codes "c" ∷ codes "7-0" ∷ codes "9" ∷ codes "1" ∷ [])
    ≡ ok (grouped, 1)
unfolding run
delivered = refl

no_groups : AreCoherent one
unfolding Dict.get
no_groups = record { at = λ name g e. absurd (ground arith) }

apply_group_record-IsSound_example :
    IsSound (apply_group_record one (codes "XGROUP") (codes "g" ∷ codes "0" ∷ []))
apply_group_record-IsSound_example =
    apply_group_record-IsSound one (codes "XGROUP") (codes "g" ∷ codes "0" ∷ []) no_groups

from_state-to_state_example : (to_state one >>= from_state) ≡ ok one
from_state-to_state_example = from_state-to_state one one-IsValid refl
