-- ===== src/Store/GroupCommands.antt =====
-- The consumer group commands of store.py as one: whichever runs, the log replays to what it did.
use kedis_python.Prelude.{
  inl, inr, ℕ, Bool, true, false, List, [], ◌∷◌, if◌then◌else◌, Text, text_eq, Option-cases,
}
use kedis_python.Dict
use kedis_python.Dict.{Dict, text_key}
use kedis_python.Stream.Id.{StreamId, format_id, check_name}
use kedis_python.Stream.Group.{Group}
use kedis_python.Stream.Entries.{Stream}
use kedis_python.Stream.Records as Stream_records
use kedis_python.Stream.Records.{parse_ids}
use kedis_python.Store.State.{
  Store, Reply, returns, wrong_type, key_error, value_error, stream_error, ◌then_do◌,
}
use kedis_python.Store.View.{HasRoom}
use kedis_python.Store.Streams.{raising, stream_at, stream_or_none}
use kedis_python.Store.Replay.{Host}
use kedis_python.Store.Recovered.{
  KeepsUpper, IsAwake, evict_if_expired-awake, IsRecovered, then_do-kept,
}
use kedis_python.Store.Groups.{
  apply_group_record, xgapply, existing, stream_for_xgroup, group_in, group_of, cursor, top_of,
  creatable, xgroup_create, xgroup_setid, xgroup_destroy, xgroup_createconsumer, xgroup_delconsumer,
  owned, acked, group_or_none, xack,
}
use kedis_python.Store.GroupsRecovered.{
  apply-IsRecovered, ended-kept, commit-IsRecovered, stream-kept,
}
use kedis_python.Store.GroupKinds.{
  xgroup-IsKind, xgdel-IsKind, xgcons-IsKind, xgcdel-IsKind, xack-IsKind, group-IsKind,
}

-- A command on a consumer group of a key; `apply` is XGAPPLY, with which a leader sends a record.
pub data GroupCommand : Type 0 where
  create : (group id_text : Text) → Bool → GroupCommand
  setid : (group id_text : Text) → GroupCommand
  destroy : (group : Text) → GroupCommand
  createconsumer : (group consumer : Text) (now_ms : ℕ) → GroupCommand
  delconsumer : (group consumer : Text) → GroupCommand
  acknowledge : (group : Text) → List Text → GroupCommand
  apply : (kind arg : Text) → List Text → GroupCommand

-- Runs a command, with the clock readings of its two lookups.
unfoldable pub execute_group : Store → Text → GroupCommand → ℕ → ℕ → Store × Reply ℕ
execute_group s key (create group id_text mkstream) now later =
    xgroup_create s key group id_text mkstream now
execute_group s key (setid group id_text) now later = xgroup_setid s key group id_text now later
execute_group s key (destroy group) now later = xgroup_destroy s key group now
execute_group s key (createconsumer group consumer now_ms) now later =
    xgroup_createconsumer s key group consumer now later now_ms
execute_group s key (delconsumer group consumer) now later =
    xgroup_delconsumer s key group consumer now later
execute_group s key (acknowledge group id_texts) now later = xack s key group id_texts now
execute_group s key (apply kind arg args) now later = xgapply s kind key arg args

choose-kept {ℓ κ} :
    {A : Type ℓ} (P : Store → Type κ) (b : Bool) (x y : Store × A)
    → P x.0
    → P y.0
    → P (if b then x else y).0
choose-kept P true x y h k = h
choose-kept P false x y h k = k

-- A lookup and a check of what it finds.
looked-kept {ℓ κ μ ν} :
    {A : Type ℓ} {B : Type κ} {C : Type μ} (P : Store → Type ν) (s : Store) (p : Reply A)
    (g : A → Reply B) (f : Store → B → Store × Reply C)
    → P s
    → ((b : B) → P (f s b).0)
    → P (((s, p) then_do λ t a. (t, g a)) then_do f).0
looked-kept P s (returns a) g f h k = then_do-kept P s (g a) f h (λ b e. k b)
looked-kept P s wrong_type g f h k = h
looked-kept P s key_error g f h k = h
looked-kept P s value_error g f h k = h
looked-kept P s (stream_error m) g f h k = h

module _ (host : Host) (keeps : KeepsUpper host) (start s : Store) (h : IsRecovered host start s)
    (room : HasRoom s) where
  stream_for_xgroup-kept {ℓ} :
      {B : Type ℓ} (key : Text) (now : ℕ) (f : Store → Stream → Store × Reply B)
      → IsAwake s key now
      → ((v : Stream) → IsRecovered host start (f s v).0)
      → IsRecovered host start (stream_for_xgroup s key now then_do f).0
  unfolding stream_for_xgroup stream_or_none
  stream_for_xgroup-kept key now f awake k =
      rw (evict_if_expired-awake s key now awake) (
        looked-kept (IsRecovered host start) s (stream_at (Dict.get s.data_map key)) existing f h k)

  group_of-kept {ℓ} :
      {B : Type ℓ} (key group : Text) (now : ℕ) (f : Store → Stream × Group → Store × Reply B)
      → IsAwake s key now
      → ((v : Stream × Group) → IsRecovered host start (f s v).0)
      → IsRecovered host start (group_of s key group now then_do f).0
  unfolding group_of stream_or_none
  group_of-kept key group now f awake k = rw (evict_if_expired-awake s key now awake) (
      looked-kept (IsRecovered host start) s (stream_at (Dict.get s.data_map key))
        (λ held. group_in held key group) f h k)

  checked-kept {ℓ κ} :
      {A : Type ℓ} {B : Type κ} (p : Reply A) (f : Store → A → Store × Reply B)
      → ((a : A) → IsRecovered host start (f s a).0)
      → IsRecovered host start ((s, p) then_do f).0
  checked-kept p f k = then_do-kept (IsRecovered host start) s p f h (λ a e. k a)

  create-IsRecovered :
      (key group id_text : Text) (mkstream : Bool) (now : ℕ)
      → IsAwake s key now
      → IsRecovered host start (xgroup_create s key group id_text mkstream now).0
  unfolding xgroup_create
  create-IsRecovered key group id_text mkstream now awake =
      checked-kept (raising (check_name group)) _ (λ x.
        stream-kept host keeps start s h key now _ awake (λ held.
          checked-kept (creatable held group mkstream) _ (λ y.
            checked-kept (raising (cursor id_text (top_of held))) _ (λ sid.
              commit-IsRecovered host keeps start s h _ _ key group (format_id sid ∷ [])
                (xgroup-IsKind host keeps) room))))

  setid-IsRecovered :
      (key group id_text : Text) (now later : ℕ)
      → IsAwake s key now
      → IsAwake s key later
      → IsRecovered host start (xgroup_setid s key group id_text now later).0
  unfolding xgroup_setid
  setid-IsRecovered key group id_text now later awake still =
      stream_for_xgroup-kept key now _ awake (λ v. group_of-kept key group later _ still (λ g.
        checked-kept (raising (cursor id_text v.last_id)) _ (λ sid.
          commit-IsRecovered host keeps start s h _ _ key group (format_id sid ∷ [])
            (xgroup-IsKind host keeps) room)))

  destroy-IsRecovered :
      (key group : Text) (now : ℕ)
      → IsAwake s key now
      → IsRecovered host start (xgroup_destroy s key group now).0
  unfolding xgroup_destroy
  destroy-IsRecovered key group now awake = stream_for_xgroup-kept key now _ awake (λ v.
      choose-kept (IsRecovered host start) (Dict.has v.groups group) _ _
        (ended-kept (IsRecovered host start) _ _
          (commit-IsRecovered host keeps start s h _ _ key group [] (xgdel-IsKind host keeps) room)
          (λ t n k. k))
        h)

  createconsumer-IsRecovered :
      (key group consumer : Text) (now later now_ms : ℕ)
      → IsAwake s key now
      → IsAwake s key later
      → IsRecovered host start (xgroup_createconsumer s key group consumer now later now_ms).0
  unfolding xgroup_createconsumer
  createconsumer-IsRecovered key group consumer now later now_ms awake still =
      checked-kept (raising (check_name consumer)) _ (λ x.
        stream_for_xgroup-kept key now _ awake (λ v. group_of-kept key group later _ still (λ g.
          choose-kept (IsRecovered host start) (Dict.has g.1.consumers consumer) _ _ h (
            ended-kept (IsRecovered host start) _ _
              (commit-IsRecovered host keeps start s h _ _ key group _ (xgcons-IsKind host keeps)
                room)
              (λ t n k. k)))))

  delconsumer-IsRecovered :
      (key group consumer : Text) (now later : ℕ)
      → IsAwake s key now
      → IsAwake s key later
      → IsRecovered host start (xgroup_delconsumer s key group consumer now later).0
  unfolding xgroup_delconsumer
  delconsumer-IsRecovered key group consumer now later awake still =
      stream_for_xgroup-kept key now _ awake (λ v. group_of-kept key group later _ still (λ g.
        choose-kept (IsRecovered host start) (Dict.has g.1.consumers consumer) _ _
          (ended-kept (IsRecovered host start) _ _
            (commit-IsRecovered host keeps start s h _ _ key group _ (xgcdel-IsKind host keeps)
              room)
            (λ t n k. k))
          h))

  acked-IsRecovered :
      (key group : Text) (ids : List StreamId) → IsRecovered host start (acked s key group ids).0
  unfolding acked
  acked-IsRecovered key group [] = h
  acked-IsRecovered key group (sid ∷ ids) =
      ended-kept (IsRecovered host start) _ _
        (commit-IsRecovered host keeps start s h _ _ key group _ (xack-IsKind host keeps) room)
        (λ t n k. k)

  acknowledge-IsRecovered :
      (key group : Text) (id_texts : List Text) (now : ℕ)
      → IsAwake s key now
      → IsRecovered host start (xack s key group id_texts now).0
  unfolding xack
  acknowledge-IsRecovered key group id_texts now awake =
      checked-kept (raising (parse_ids id_texts)) _ (λ ids.
        stream-kept host keeps start s h key now _ awake (λ held.
          elim (Option-cases (group_or_none held group)) [
            | inl q ↦ rw q h
            | inr (g, q) ↦ rw q (acked-IsRecovered key group (owned g.pel [] ids))
          ]))

  apply-kept :
      (kind key arg : Text) (args : List Text)
      → IsRecovered host start (xgapply s kind key arg args).0
  unfolding xgapply apply_group_record Stream_records.kind_of text_eq
  apply-kept [] key arg args = h
  apply-kept (c ∷ cs) key arg args =
      apply-IsRecovered host keeps start s h c cs key arg args (group-IsKind host keeps (c ∷ cs))
        room

  pub execute_group-IsRecovered :
      (key : Text) (c : GroupCommand) (now later : ℕ)
      → IsAwake s key now
      → IsAwake s key later
      → IsRecovered host start (execute_group s key c now later).0
  unfolding execute_group
  execute_group-IsRecovered key (create group id_text mkstream) now later a b =
      create-IsRecovered key group id_text mkstream now a
  execute_group-IsRecovered key (setid group id_text) now later a b =
      setid-IsRecovered key group id_text now later a b
  execute_group-IsRecovered key (destroy group) now later a b = destroy-IsRecovered key group now a
  execute_group-IsRecovered key (createconsumer group consumer now_ms) now later a b =
      createconsumer-IsRecovered key group consumer now later now_ms a b
  execute_group-IsRecovered key (delconsumer group consumer) now later a b =
      delconsumer-IsRecovered key group consumer now later a b
  execute_group-IsRecovered key (acknowledge group id_texts) now later a b =
      acknowledge-IsRecovered key group id_texts now a
  execute_group-IsRecovered key (apply kind arg args) now later a b = apply-kept kind key arg args
