-- ===== src/Lib.antt =====
-- Kedis-Python (kedis_python/), a Redis-like in-memory store: commands arrive as KESP frames, run
-- one at a time on a store of typed values, and are logged to an append-only file that is replayed
-- at the next start.
--
-- Which file models which part:
--   Prelude, Decimal, Utf8, Words, PyInt, Dict   what the program takes from Python: numbers, lists,
--     `bytes` and `str` (lists of byte values and of code points), decimal numerals, the UTF-8 codec
--     with its error handlers, `str.split()`, `int(text)` and insertion-ordered dicts
--   TextCodec   kedis_python/textcodec.py: `to_text`, `to_bytes`
--   Aof         kedis_python/aof.py: `encode_record`, `scan`. The scan's position in the buffer is
--     carried with the bytes from there on; the generator's yields are the list it returns. A
--     command that has been read is skipped byte by byte, so the scan recurs on the buffer and
--     needs no fuel.
--   Parser      kedis_python/parser.py: the frames of a network buffer (`CommandParser`) and, in
--     Encode, how a command is written (`KESPEncoder.encode_command`); RoundTrip of both. Positions
--     and hints count from the start of the part that is read; `str.upper` is a parameter. Sized
--     and Progress (counts), Stable and Fragments (more input behind the buffer)
--   Kesp        kedis_python/parser.py: the replies. Encode (`KESPEncoder`: `_encode`, `_bulk`,
--     `_error_line`, `encode`) and Decode (`KESPDecoder`), on values as a data type; Lines,
--     RoundTrip, Accepts, ErrorLine and Whole (what is written is read back), Extent (how far the
--     decoder reads); Chunks (`encode_chunks`, and `encode_reply` of kedis_python/server.py) and
--     Pieces
--   Stream      kedis_python/stream.py: Id (IDs and bounds), Entries (`Stream`), Group (`Group`),
--     Records (`apply_group_record`), Snapshot (`to_state`, `from_state`), Valid, Window (what
--     reads return), Trimmed (what a trim keeps), Replayed (an entry added again). A method returns
--     the new object and its result; an exception is a `Result`, and the state is then the one
--     before the call.
--   HyperLogLog   kedis_python/hyperloglog.py: the registers, `add`, `merge` and the byte forms;
--     Laws, Union
--   Store       kedis_python/store.py: State (the maps, the tracker, the log and the internals),
--     Keys and Containers (the public methods), Coherent, Written, Kept and Session (the
--     bookkeeping), View and PushView (the engine as a map of unexpired values), Housekeeping;
--     Streams (the stream commands), StreamErrors, StreamsKept, StreamView, AddView; Groups (the
--     consumer group commands, each by the record that it commits); Replay (`recover_from_aof`),
--     Alike, Recovered, RecoveredKeys, RecoveredLists, RecoveredPops, SetLaws, RecoveredSets,
--     RecoveredRemovals and Recovery (the log of a session rebuilds its data), GroupsRecovered,
--     GroupKinds, GroupCommands, AddRecovered and GroupRecovery (and the log of XADD and group
--     commands). A method returns the new state and a `Reply`; what it changed before it raised
--     stays. Times are whole ticks, and a method takes one clock reading for each that it makes.
--   Server      kedis_python/server.py: Transaction (the state of `AsyncKedisSession`, where `run`
--     sends a command, and the handlers: MULTI, EXEC, DISCARD, WATCH, UNWATCH, the queue), Sent,
--     Faithful and Blocks. A handler returns the session and what it does; the rest of the server
--     is an argument of each command. What REPLICAOF and SYNC do outside the session, and what runs
--     while EXEC waits for its block, is outside the model.
--   Tests       runs at concrete inputs, and the theorems at inputs that meet their conditions
--
-- Bounds: the framing theorems hold for counts and sizes below 10 ^ 31, which is what a header line
-- of 32 bytes can hold; IDs are pairs of numbers below 2 ^ 64. `int()` refuses more than 4300
-- digits. `encode_chunks` runs on fuel, as many steps as there are elements. The clock is an
-- argument. `bisect` is modelled by the position that it finds on a sorted list.
--
-- Not modelled: of the store, sorted sets, bitmaps, XREAD, XREADGROUP, XPENDING and XINFO, the
-- HyperLogLog commands, snapshots and compaction; the command layer; of the server, all but a
-- connection's transaction state and `encode_reply`; sockets, files and fsync, the REPL and its
-- panels, help texts, benchmarks.
mod Prelude
pub mod Decimal
pub mod Utf8
pub mod Words
pub mod TextCodec
pub mod PyInt
pub mod Dict
pub mod Aof
pub mod Stream
pub mod HyperLogLog
pub mod Parser
pub mod Kesp
pub mod Store
pub mod Server
mod Tests
