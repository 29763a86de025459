-- ===== src/Stream/Group.antt =====
-- Consumer groups of stream.py: the pending entries list, kept as a dict and as a sorted ID list.
use kedis_python.Prelude.{
  ℕ, zero, suc, ◌+◌, ◌-◌, Bool, true, false, Option, none, some, List, [], ◌∷◌, if◌then◌else◌, Text,
  text_eq, ℤ, pos, negsuc, take, drop,
}
use kedis_python.Dict
use kedis_python.Dict.{Dict, text_key}
use kedis_python.Stream.Id.{StreamId, Result, ok, err, key_error, ◌>>=◌, id_key}
use kedis_python.Stream.Sorted.{bisect_left, bisect_right, insort}

-- One entry of the pending list.
pub record Pending : Type 0 where
  pub consumer : Text
  pub delivery_ms : ℤ
  pub count : ℤ

pub record Consumer : Type 0 where
  pub name : Text
  pub seen_ms : ℤ
  pub active_ms : ℤ

pub record Group : Type 0 where
  pub name : Text
  pub last_id : StreamId
  pub consumers : Dict Text Consumer
  pub pel : Dict StreamId Pending
  pub pel_ids : List StreamId

-- `Group(name, last_id)`.
abbrev pub new_group : Text → StreamId → Group
new_group name last_id = record {
  name = name;
  last_id = last_id;
  consumers = [];
  pel = [];
  pel_ids = [];
}

-- `del xs[i]`, for an index in range.
unfoldable pub delete_at {ℓ} : {A : Type ℓ} → ℕ → List A → List A
delete_at i [] = []
delete_at zero (x ∷ xs) = xs
delete_at (suc i) (x ∷ xs) = x ∷ delete_at i xs

-- `pel_set(sid, consumer, delivery_ms, count)`.
unfoldable pub pel_set : Group → StreamId → Text → ℤ → ℤ → Group
pel_set g sid consumer delivery_ms count =
    let entry : Pending = record {
      consumer = consumer;
      delivery_ms = delivery_ms;
      count = count;
    } in
    record g {
      pel = Dict.put g.pel sid entry;
      pel_ids = if Dict.has g.pel sid then g.pel_ids else insort g.pel_ids sid;
    }

-- `pel_remove(sid)`.
unfoldable pub pel_remove : Group → StreamId → Group × Bool
pel_remove g sid =
    if Dict.has g.pel sid
    then (
      record g {
        pel = Dict.remove g.pel sid;
        pel_ids = delete_at (bisect_left g.pel_ids sid) g.pel_ids;
      },
      true,
    )
    else (g, false)

-- `pending_ids(lo, hi)`.
unfoldable pub pending_ids : Group → StreamId → StreamId → List StreamId
pending_ids g lo hi =
    let i = bisect_left g.pel_ids lo in
    let j = bisect_right g.pel_ids hi in take (j - i) (drop i g.pel_ids)

-- `self.pel[pid].consumer`, a KeyError where the ID is not in the dict.
abbrev pub owner : Dict StreamId Pending → StreamId → Result Text
owner pel pid = elim (Dict.get pel pid) [ none ↦ err key_error | some p ↦ ok p.consumer ]

-- The loop of `pending_after`: the IDs of one consumer, at most `room` of them.
unfoldable pub owned_by :
    Dict StreamId Pending → Text → Option ℕ → List StreamId → Result (List StreamId)
owned_by pel consumer room [] = ok []
owned_by pel consumer (some zero) (pid ∷ ids) = ok []
owned_by pel consumer none (pid ∷ ids) = do
  name ← owner pel pid
  rest ← owned_by pel consumer none ids
  ok (if text_eq name consumer then pid ∷ rest else rest)
owned_by pel consumer (some (suc n)) (pid ∷ ids) = do
  name ← owner pel pid
  elim (text_eq name consumer) [
    | true ↦ do rest ← owned_by pel consumer (some n) ids; ok (pid ∷ rest)
    | false ↦ owned_by pel consumer (some (suc n)) ids
  ]

-- `count is not None and count <= 0`, or the room that a count leaves.
abbrev pub positive : ℤ → Option ℕ
positive (pos zero) = none
positive (pos (suc n)) = some (suc n)
positive (negsuc n) = none

-- `pending_after(consumer, sid, count)`.
unfoldable pub pending_after : Group → Text → StreamId → Option ℤ → Result (List StreamId)
unfolding owned_by
pending_after g consumer sid none =
    owned_by g.pel consumer none (drop (bisect_right g.pel_ids sid) g.pel_ids)
pending_after g consumer sid (some count) = elim (positive count) [
  | none ↦ ok []
  | some n ↦ owned_by g.pel consumer (some n) (drop (bisect_right g.pel_ids sid) g.pel_ids)
]

-- `pending_counts()`.
unfoldable pub pending_counts : Dict StreamId Pending → Dict Text ℕ → Dict Text ℕ
pending_counts [] counts = counts
pending_counts ((sid, p) ∷ pel) counts =
    pending_counts pel
      (Dict.put counts p.consumer (elim (Dict.get counts p.consumer) [ none ↦ 1 | some n ↦ n + 1 ]))
