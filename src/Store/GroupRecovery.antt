-- ===== src/Store/GroupRecovery.antt =====
-- Recovery from the log of store.py after XADD and consumer group commands.
use kedis_python.Prelude.{Bool, none, some, List, ◌≤◌, ℕ, ◌<◌, ◌≡◌, sym, Text}
use kedis_python.Dict
use kedis_python.Dict.{text_key}
use kedis_python.Stream.Id.{u64_max}
use kedis_python.Stream.Entries.{Stream}
use kedis_python.Stream.Valid.{IsValid}
use kedis_python.Store.State.{Store, stream}
use kedis_python.Store.Streams.{AddOptions, xadd}
use kedis_python.Store.AddRecovered.{xadd-IsRecovered}
use kedis_python.Store.Command.{empty_store}
use kedis_python.Store.View.{HasRoom}
use kedis_python.Store.Replay.{Host, replayed, replay}
use kedis_python.Store.Recovered.{KeepsUpper, IsAwake, IsRecovered}
use kedis_python.Store.Recovery.{Logged, recovering_store, Logged-IsRecovered}
use kedis_python.Store.GroupCommands.{GroupCommand, execute_group, execute_group-IsRecovered}

abbrev pub untrimmed : Text → Bool → AddOptions
untrimmed id_spec nomkstream = record {
  id_spec = id_spec;
  maxlen = none;
  minid = none;
  nomkstream = nomkstream;
}

-- A session of plain commands that goes on with XADD and group commands, whose keys have not expired and which
-- find room for one more key.
pub data LoggedGroups (size : ℕ) : Store → Type 0 where
  began : {t : Store} → Logged (empty_store size) t → LoggedGroups size t
  group_call :
      {t : Store} (key : Text) (c : GroupCommand) (now later : ℕ)
      → HasRoom t
      → IsAwake t key now
      → IsAwake t key later
      → LoggedGroups size t
      → LoggedGroups size (execute_group t key c now later).0
  add_call :
      {t : Store} (key : Text) (fields : List Text) (id_spec : Text) (nomkstream : Bool)
      (now ms : ℕ)
      → HasRoom t
      → IsAwake t key now
      → ((v : Stream) → Dict.get t.data_map key ≡ some (stream v) → IsValid v)
      → ms ≤ u64_max
      → LoggedGroups size t
      → LoggedGroups size (xadd t key fields (untrimmed id_spec nomkstream) now ms).0

LoggedGroups-IsRecovered :
    (host : Host)
    → KeepsUpper host
    → (size : ℕ) → 0 < size
    → {t : Store} → LoggedGroups size t
    → IsRecovered host (recovering_store size) t
LoggedGroups-IsRecovered host keeps size h (began l) = Logged-IsRecovered host keeps size h l
LoggedGroups-IsRecovered host keeps size h (group_call {t} key c now later room a b l) =
    execute_group-IsRecovered host keeps (recovering_store size) t
      (LoggedGroups-IsRecovered host keeps size h l) room key c now later a b
LoggedGroups-IsRecovered host keeps size h
      (add_call {t} key fields id_spec nomkstream now ms room awake valid small l) =
    xadd-IsRecovered host keeps (recovering_store size) t
      (LoggedGroups-IsRecovered host keeps size h l) room key fields id_spec nomkstream now ms awake
      valid small

-- The log of a session of plain commands followed by any number of the commands XADD (without MAXLEN and
-- MINID), XGROUP CREATE, SETID, DESTROY, CREATECONSUMER and DELCONSUMER, XACK and XGAPPLY in any order,
-- refused ones included, replayed at the next start on an empty engine of the same positive bound, does
-- not fail and rebuilds exactly the data, with its streams, groups, consumers and the pending entries
-- that XGAPPLY delivered and XACK and XGROUP took away, and the expiry times that the session left. No
-- command came to a key that had expired; XADD came to a valid stream or to none, by a clock that fits
-- 64 bits; every stream and group command found fewer tracked keys than the bound, and so did every
-- SET, push, pop, SADD, SREM and HSET of the plain commands; pushes and SADD had values, SREM had members
-- and did not come to an empty set, and LPOP, RPOP and SREM did not come to a key with an expiry time.
-- `upper` stands for `str.upper`, which leaves ASCII text without lower-case letters as it is.
pub replay-group_log :
    (host : Host)
    → KeepsUpper host
    → (size : ℕ) → 0 < size
    → {t : Store} → LoggedGroups size t
    → (r : Store) × (replay host (recovering_store size) t.log ≡ replayed r)
      × (r.data_map ≡ t.data_map)
      × (r.expires ≡ t.expires)
replay-group_log host keeps size h l =
    let k = LoggedGroups-IsRecovered host keeps size h l in
    (k.image, k.replays, sym k.alike.same_data, sym k.alike.same_expires)
