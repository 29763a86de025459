-- ===== src/Server/Transaction.antt =====
-- The transaction state of a connection (`AsyncKedisSession` of server.py): where a command goes,
-- MULTI, the queue, WATCH and EXEC. A handler returns the new state and what it does about the command.
use kedis_python.Prelude.{
  ℕ, ◌+◌, ◌*◌, Bool, true, false, not, ◌&&◌, ◌||◌, Option, none, some, List, [], ◌∷◌, ◌++◌, ltb,
  leb, ◌==◌, if◌then◌else◌, length, Bytes, Text, text_eq, codes,
}
use kedis_python.Dict
use kedis_python.Dict.{Dict, text_key}
use kedis_python.TextCodec.{to_bytes}

abbrev pub max_multi_commands : ℕ
max_multi_commands = 10000

abbrev pub max_multi_bytes : ℕ
max_multi_bytes = 64 * 1024 * 1024

-- What a session sees of the rest of the server: its role, the versions of the keys, `str.upper`, and
-- the commands that write.
pub record Server : Type 0 where
  pub is_replica : Bool
  pub versions : Dict Text ℕ
  pub upper : Text → Text
  pub is_write : Text → Bool

-- The fields of a session.
pub record Session : Type 0 where
  pub in_transaction : Bool
  pub tx_queue : List (List Text)
  pub tx_bytes : ℕ
  pub tx_overflowed : Bool
  pub tx_readonly : Bool
  pub watched_keys : Dict Text ℕ

abbrev pub new_session : Session
new_session = record {
  in_transaction = false;
  tx_queue = [];
  tx_bytes = 0;
  tx_overflowed = false;
  tx_readonly = false;
  watched_keys = [];
}

-- What a handler does: it sends bytes, goes on to run a block (behind the barrier of the replication,
-- where other connections may run commands first) or one command, fails on a text that has no bytes,
-- makes the server a leader, has it follow another one (where the port is no number, this ends the connection), or serves a follower's SYNC. The role of the
-- server is in what a session sees of it.
pub data Action : Type 0 where
  sends : Bytes → Action
  runs_block : List (List Text) → Action
  runs : List Text → Action
  fails : Action
  promotes : Action
  follows : (host port : Text) → Action
  dumps : Action

-- `_versions.get(key, 0)`.
unfoldable pub version_of : Dict Text ℕ → Text → ℕ
version_of versions key = elim (Dict.get versions key) [ none ↦ 0 | some v ↦ v ]

-- The loop of `handle_watch`.
unfoldable pub watch_all : Dict Text ℕ → Dict Text ℕ → List Text → Dict Text ℕ
watch_all versions watched [] = watched
watch_all versions watched (key ∷ keys) =
    watch_all versions (Dict.put watched key (version_of versions key)) keys

-- `handle_watch(tokens)`, on the tokens behind the name.
unfoldable pub handle_watch : Server → Session → List Text → Session × Action
handle_watch sv s [] =
    if s.in_transaction
    then (s, sends (codes "-ERR WATCH inside MULTI is not allowed\r\n"))
    else (s, sends (codes "-ERR wrong number of arguments for 'watch'\r\n"))
handle_watch sv s (key ∷ keys) =
    if s.in_transaction then (s, sends (codes "-ERR WATCH inside MULTI is not allowed\r\n")) else (
      record s { watched_keys = watch_all sv.versions s.watched_keys (key ∷ keys) },
      sends (codes "+OK\r\n"),
    )

-- `handle_unwatch(tokens)`.
unfoldable pub handle_unwatch : Session → Session × Action
handle_unwatch s = (record s { watched_keys = [] }, sends (codes "+OK\r\n"))

-- `_reset_queue()`.
unfoldable pub reset_queue : Session → Session
reset_queue s = record s { tx_queue = []; tx_bytes = 0; tx_overflowed = false; tx_readonly = false }

-- `sum(len(to_bytes(t)) for t in tokens)`.
unfoldable pub size_of : List Text → Option ℕ
size_of [] = some 0
size_of (t ∷ tokens) = elim (to_bytes t) [
  | none ↦ none
  | some raw ↦ elim (size_of tokens) [ none ↦ none | some n ↦ some (length raw + n) ]
]

-- `tokens[0].upper() in WRITE_COMMANDS`.
unfoldable pub is_write_call : Server → List Text → Bool
is_write_call sv [] = false
is_write_call sv (name ∷ args) = sv.is_write (sv.upper name)

abbrev pub limit_reply : Action
limit_reply = sends (codes "-ERR MULTI queue limit reached; EXEC will abort the transaction\r\n")

-- `queue_command` within the limits, or past one.
unfoldable pub queue_sized : Session → List Text → ℕ → Session × Action
queue_sized s tokens size =
    if leb max_multi_commands (length s.tx_queue) || ltb max_multi_bytes (s.tx_bytes + size)
    then (record s { tx_queue = []; tx_bytes = 0; tx_overflowed = true }, limit_reply)
    else (
      record s { tx_queue = s.tx_queue ++ tokens ∷ []; tx_bytes = s.tx_bytes + size },
      sends (codes "+OK\n"),
    )

-- `queue_command(tokens)`.
unfoldable pub queue_command : Server → Session → List Text → Session × Action
queue_command sv s tokens =
    if sv.is_replica && is_write_call sv tokens
    then (
      record s { tx_readonly = true },
      sends (codes "-EREADONLY You can't write against a read-only replica.\n"),
    )
    else if s.tx_overflowed
    then (s, limit_reply)
    else (elim (size_of tokens) [ none ↦ (s, fails) | some n ↦ queue_sized s tokens n ])

-- `handle_multi(tokens)`.
unfoldable pub handle_multi : Session → Session × Action
handle_multi s =
    if s.in_transaction
    then (s, sends (codes "-ERR MULTI calls are not nested\r\n"))
    else (reset_queue (record s { in_transaction = true }), sends (codes "+OK\r\n"))

-- `handle_discard(tokens)`.
unfoldable pub handle_discard : Session → Session × Action
handle_discard s =
    if s.in_transaction
    then (
      record (reset_queue (record s { in_transaction = false })) { watched_keys = [] },
      sends (codes "+OK\r\n"),
    )
    else (s, sends (codes "-ERR DISCARD without MULTI\r\n"))

-- Whether a watched key has another version than the one that was recorded.
unfoldable pub is_changed : Dict Text ℕ → Dict Text ℕ → Bool
is_changed versions [] = false
is_changed versions ((key, expected) ∷ watched) =
    not (version_of versions key == expected) || is_changed versions watched

unfoldable pub any_write : Server → List (List Text) → Bool
any_write sv [] = false
any_write sv (tokens ∷ queue) = is_write_call sv tokens || any_write sv queue

-- `handle_exec(tokens)`: its checks, and the state that it leaves. The block runs between the two,
-- behind an `await`, where other connections may write.
unfoldable pub handle_exec : Server → Session → Session × Action
handle_exec sv s =
    if not s.in_transaction
    then (s, sends (codes "-ERR EXEC without MULTI\r\n"))
    else (let aborted = is_changed sv.versions s.watched_keys in
        let t = record s { in_transaction = false; watched_keys = [] } in
        if t.tx_overflowed
        then (
          reset_queue t,
          sends (codes "-EXECABORT Transaction discarded: the MULTI queue limit was exceeded\r\n"),
        )
        else if t.tx_readonly || sv.is_replica && any_write sv t.tx_queue
        then (
          reset_queue t,
          sends (
              codes
                "-EXECABORT Transaction discarded: writes are refused on a read-only replica\r\n"),
        )
        else if aborted
        then (reset_queue t, sends (codes "N\n"))
        else (elim t.tx_queue [
          | [] ↦ (t, sends (codes "A0\n"))
          | tokens ∷ queue ↦ (reset_queue t, runs_block (tokens ∷ queue))
        ]))

-- The interceptors of the replication, the entries of `tx_router`, and the rest.
pub data Route : Type 0 where
  replicaof : (host port : Text) → Route
  sync multi exec discard watch unwatch other : Route

-- `tx_router`.
unfoldable pub router : Text → Route
router cmd =
    if text_eq cmd (codes "MULTI")
    then multi
    else if text_eq cmd (codes "EXEC")
    then exec
    else if text_eq cmd (codes "DISCARD")
    then discard
    else if text_eq cmd (codes "WATCH")
    then watch
    else if text_eq cmd (codes "UNWATCH")
    then unwatch
    else other

-- Where a command goes, by its name in upper case and its arguments. REPLICAOF and SYNC are taken out
-- before the router, in a block too.
unfoldable pub route_of : Text → List Text → Route
route_of cmd (host ∷ port ∷ args) =
    if text_eq cmd (codes "REPLICAOF")
    then replicaof host port
    else if text_eq cmd (codes "SYNC")
    then sync
    else router cmd
route_of cmd args = if text_eq cmd (codes "SYNC") then sync else router cmd

-- REPLICAOF with a host and a port.
unfoldable pub handle_replicaof : Server → Session → Text → Text → Session × Action
handle_replicaof sv s host port =
    if text_eq (sv.upper host) (codes "NO") && text_eq (sv.upper port) (codes "ONE")
    then (s, promotes)
    else (s, follows host port)

unfoldable pub handle_sync : Server → Session → Session × Action
handle_sync sv s =
    if sv.is_replica
    then (s, sends (codes "-ERR I'm a follower, I cannot sync you!!\n"))
    else (s, dumps)

-- A command that is none of the router's: queued in a block, refused on a replica, or run.
unfoldable pub handle_other : Server → Session → List Text → Session × Action
handle_other sv s tokens =
    if s.in_transaction
    then queue_command sv s tokens
    else if sv.is_replica && is_write_call sv tokens
    then (s, sends (codes "-EREADONLY You can't write against a read-only replica.\n"))
    else (s, runs tokens)

unfoldable pub handle_route : Server → Session → Route → Text → List Text → Session × Action
handle_route sv s (replicaof host port) name args = handle_replicaof sv s host port
handle_route sv s sync name args = handle_sync sv s
handle_route sv s multi name args = handle_multi s
handle_route sv s exec name args = handle_exec sv s
handle_route sv s discard name args = handle_discard s
handle_route sv s watch name args = handle_watch sv s args
handle_route sv s unwatch name args = handle_unwatch s
handle_route sv s other name args = handle_other sv s (name ∷ args)

-- One command of a client, by its name and arguments.
unfoldable pub handle : Server → Session → Text → List Text → Session × Action
handle sv s name args = handle_route sv s (route_of (sv.upper name) args) name args
