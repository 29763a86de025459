-- ===== src/Store/Command.antt =====
-- The commands of store.py as one step of the engine: what a command of a session does to its state.
use mathlib.Core.Bool
use kedis_python.Prelude.{ℕ, Option, List, [], Text, ℤ}
use kedis_python.Store.State.{
  Store, Reply, returns, wrong_type, key_error, value_error, stream_error,
}
use kedis_python.Store.Keys
use kedis_python.Store.Containers
use kedis_python.Store.Streams
use kedis_python.Store.Streams.{AddOptions}

-- A call of a method, with the clock readings it makes.
pub data Command : Type 0 where
  set : Text → Text → Command
  get delete exists : Text → ℕ → Command
  set_expire : Text → ℕ → ℕ → ℕ → Command
  ttl : Text → ℕ → ℕ → Command
  flushall : Command
  lpush rpush : Text → List Text → ℕ → Command
  lpop rpop : Text → ℕ → Command
  lrange : Text → ℤ → ℤ → ℕ → Command
  sadd srem : Text → List Text → ℕ → Command
  smembers : Text → ℕ → Command
  hset : Text → Text → Text → ℕ → Command
  hget : Text → Text → ℕ → Command
  hgetall : Text → ℕ → Command
  xadd : Text → List Text → AddOptions → ℕ → ℕ → Command
  xlen : Text → ℕ → Command
  xrange xrevrange : Text → Text → Text → Option ℤ → ℕ → Command
  xdel : Text → List Text → ℕ → Command
  xtrim : Text → Option ℤ → Option Text → ℕ → Command

-- Whether the method returned or what it raised, without the value.
abbrev pub quiet {ℓ} : {A : Type ℓ} → Store × Reply A → Store × Reply (Unit {0})
quiet (s, returns a) = (s, returns tt)
quiet (s, wrong_type) = (s, wrong_type)
quiet (s, key_error) = (s, key_error)
quiet (s, value_error) = (s, value_error)
quiet (s, stream_error m) = (s, stream_error m)

unfoldable pub execute : Store → Command → Store × Reply (Unit {0})
execute s (set key value) = (Keys.set s key value, returns tt)
execute s (get key now) = quiet (Keys.get s key now)
execute s (delete key now) = quiet (Keys.delete s key now)
execute s (exists key now) = quiet (Keys.exists s key now)
execute s (set_expire key seconds now later) = quiet (Keys.set_expire s key seconds now later)
execute s (ttl key now later) = quiet (Keys.ttl s key now later)
execute s flushall = (Keys.flushall s, returns tt)
execute s (lpush key values now) = quiet (Containers.lpush s key values now)
execute s (rpush key values now) = quiet (Containers.rpush s key values now)
execute s (lpop key now) = quiet (Containers.lpop s key now)
execute s (rpop key now) = quiet (Containers.rpop s key now)
execute s (lrange key start stop now) = quiet (Containers.lrange s key start stop now)
execute s (sadd key items now) = quiet (Containers.sadd s key items now)
execute s (srem key items now) = quiet (Containers.srem s key items now)
execute s (smembers key now) = quiet (Containers.smembers s key now)
execute s (hset key field value now) = quiet (Containers.hset s key field value now)
execute s (hget key field now) = quiet (Containers.hget s key field now)
execute s (hgetall key now) = quiet (Containers.hgetall s key now)
execute s (xadd key fields o now ms) = quiet (Streams.xadd s key fields o now ms)
execute s (xlen key now) = quiet (Streams.xlen s key now)
execute s (xrange key a b n now) = quiet (Streams.xrange s key a b n now)
execute s (xrevrange key a b n now) = quiet (Streams.xrevrange s key a b n now)
execute s (xdel key ids now) = quiet (Streams.xdel s key ids now)
execute s (xtrim key maxlen minid now) = quiet (Streams.xtrim s key maxlen minid now)

-- A session: the states that commands reach one after the other, from an engine just started.
pub data Reaches (s : Store) : Store → Type 0 where
  start : Reaches s s
  step : {t : Store} (c : Command) → Reaches s t → Reaches s (execute t c).0

-- The engine that has just started on an empty log.
abbrev pub empty_store : ℕ → Store
empty_store size = record {
  data_map = [];
  expires = [];
  versions = [];
  tracker = [];
  lru_maxsize = size;
  lru_hits = 0;
  lru_misses = 0;
  is_recovering = Bool.false;
  log = [];
  group_outbox = [];
}
