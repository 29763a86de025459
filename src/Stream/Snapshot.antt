-- ===== src/Stream/Snapshot.antt =====
-- `to_state` and `from_state` of stream.py: a stream as the plain data that a snapshot holds. IDs are
-- texts in it; the numbers stay numbers.
use kedis_python.Prelude.{ℕ, ◌≡◌, refl, none, some, List, [], ◌∷◌, map, Text, ℤ, All, length, arith}
use kedis_python.Dict
use kedis_python.Dict.{Dict, text_key}
use kedis_python.Stream.Id.{
  StreamId, Result, ok, err, key_error, ◌>>=◌, id_key, format_id, parse_id,
}
use kedis_python.Stream.IdLaws.{IsU64, parse_id-format_id}
use kedis_python.Stream.Valid.{IsValid}
use kedis_python.Stream.Group.{Group, Consumer, Pending, new_group, pel_set}
use kedis_python.Stream.Entries.{Stream}

pub record GroupState : Type 0 where
  pub name : Text
  pub last_id : Text
  pub consumers : List (Text × ℤ × ℤ)
  pub pel : List (Text × Text × ℤ × ℤ)

pub record StreamState : Type 0 where
  pub last_id : Text
  pub entries_added : ℕ
  pub entries : List (Text × List Text)
  pub groups : List GroupState

-- `[[format_id(i), list(f)] for i, f in zip(ids, fields)]`.
unfoldable pub zip_entries : List StreamId → List (List Text) → List (Text × List Text)
zip_entries (i ∷ ids) (f ∷ fields) = (format_id i, f) ∷ zip_entries ids fields
zip_entries ids fields = []

-- The pending list of a group in the order of its IDs; a KeyError for an ID that is not in the dict.
unfoldable pub pel_state :
    Dict StreamId Pending → List StreamId → Result (List (Text × Text × ℤ × ℤ))
pel_state pel [] = ok []
pel_state pel (sid ∷ ids) = elim (Dict.get pel sid) [
  | none ↦ err key_error
  | some p ↦
      pel_state pel ids >>= λ rest. ok ((format_id sid, p.consumer, p.delivery_ms, p.count) ∷ rest)
]

unfoldable pub group_state : Group → Result GroupState
group_state g = pel_state g.pel g.pel_ids >>= λ pel. ok (record {
  name = g.name;
  last_id = format_id g.last_id;
  consumers = map (λ c. (c.1.name, c.1.seen_ms, c.1.active_ms)) g.consumers;
  pel = pel;
})

unfoldable pub group_states : Dict Text Group → Result (List GroupState)
group_states [] = ok []
group_states ((k, g) ∷ groups) =
    group_state g >>= λ one. group_states groups >>= λ rest. ok (one ∷ rest)

-- `to_state()`. An empty list stands for groups left out.
unfoldable pub to_state : Stream → Result StreamState
to_state s = group_states s.groups >>= λ groups. ok (record {
  last_id = format_id s.last_id;
  entries_added = s.entries_added;
  entries = zip_entries s.ids s.fields;
  groups = groups;
})

-- The loop over the entries.
unfoldable pub read_entries : List (Text × List Text) → Result (List StreamId × List (List Text))
read_entries [] = ok ([], [])
read_entries ((text, fields) ∷ entries) =
    parse_id text >>= λ sid. read_entries entries >>= λ rest. ok (sid ∷ rest.0, fields ∷ rest.1)

unfoldable pub read_consumers : Dict Text Consumer → List (Text × ℤ × ℤ) → Dict Text Consumer
read_consumers d [] = d
read_consumers d ((name, seen_ms, active_ms) ∷ rest) =
    read_consumers
      (Dict.put d name (record { name = name; seen_ms = seen_ms; active_ms = active_ms })) rest

unfoldable pub read_pel : Group → List (Text × Text × ℤ × ℤ) → Result Group
read_pel g [] = ok g
read_pel g ((text, consumer, delivery_ms, count) ∷ rest) =
    parse_id text >>= λ sid. read_pel (pel_set g sid consumer delivery_ms count) rest

unfoldable pub read_groups : Dict Text Group → List GroupState → Result (Dict Text Group)
read_groups d [] = ok d
read_groups d (gs ∷ rest) = parse_id gs.last_id >>= λ last.
    let g = new_group gs.name last in
    read_pel (record g { consumers = read_consumers [] gs.consumers }) gs.pel >>= λ g.
    read_groups (Dict.put d g.name g) rest

-- `from_state(state)`.
unfoldable pub from_state : StreamState → Result Stream
from_state state = read_entries state.entries >>= λ entries. parse_id state.last_id >>= λ last.
    read_groups [] state.groups >>= λ groups. ok (record {
      ids = entries.0;
      fields = entries.1;
      last_id = last;
      entries_added = state.entries_added;
      groups = groups;
    })

read_entries-zip_entries :
    (ids : List StreamId) (fields : List (List Text))
    → length ids ≡ length fields
    → All IsU64 ids
    → read_entries (zip_entries ids fields) ≡ ok (ids, fields)
unfolding read_entries zip_entries
read_entries-zip_entries [] [] h u = refl
read_entries-zip_entries [] (f ∷ fields) h u = absurd (omega (arith, h))
read_entries-zip_entries (i ∷ ids) [] h u = absurd (omega (arith, h))
read_entries-zip_entries (i ∷ ids) (f ∷ fields) h u =
    rw
      (
        read_entries,
        parse_id-format_id i u.0,
        read_entries-zip_entries ids fields (omega (arith, h)) u.1,
      )
      refl

-- A valid stream without consumer groups comes back from its snapshot exactly: its entries, its top ID
-- and its counter; neither direction raises.
pub from_state-to_state :
    (s : Stream) → IsValid s → s.groups ≡ [] → (to_state s >>= from_state) ≡ ok s
unfolding to_state from_state group_states read_groups
from_state-to_state s v h =
    rw
      (
        h,
        read_entries-zip_entries s.ids s.fields v.parallel v.fits,
        parse_id-format_id s.last_id v.top_fits,
      )
      refl
