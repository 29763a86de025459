-- ===== src/Store/Session.antt =====
-- Sessions of the engine of store.py: the bookkeeping holds in every state that commands reach.
use kedis_python.Prelude.{◌≡◌, refl, ◌<◌, false, ℕ, arith}
use kedis_python.Dict
use kedis_python.Dict.{text_key}
use kedis_python.Store.State.{
  tracks, Store, Reply, returns, wrong_type, key_error, value_error, stream_error,
}
use kedis_python.Store.Command.{
  Command, set, get, delete, exists, set_expire, ttl, flushall, lpush, rpush, lpop, rpop, lrange,
  sadd, srem, smembers, hset, hget, hgetall, xadd, xlen, xrange, xrevrange, xdel, xtrim, quiet,
  execute, Reaches, start, step, empty_store,
}
use kedis_python.Store.Coherent.{IsCoherent, IsKept, is_key_error}
use kedis_python.Store.Kept
use kedis_python.Store.KeptLists
use kedis_python.Store.KeptSets
use kedis_python.Store.StreamsKept

quiet-IsKept {ℓ} : {A : Type ℓ} (p : Store × Reply A) → IsKept p → IsKept (quiet p)
quiet-IsKept (s, returns a) h = h
quiet-IsKept (s, wrong_type) h = h
quiet-IsKept (s, key_error) h = h
quiet-IsKept (s, value_error) h = h
quiet-IsKept (s, stream_error m) h = h

-- Every command, at any time, takes a coherent engine (a key with an expiry is there; the tracker
-- holds exactly the keys that are there, each once, and no more than its bound, which is positive)
-- to a coherent engine, and raises no KeyError.
pub execute-IsKept : (s : Store) (c : Command) → IsCoherent s → IsKept (execute s c)
unfolding execute
execute-IsKept s (set key value) h = (Kept.set-IsCoherent s key value h, refl)
execute-IsKept s (get key now) h = quiet-IsKept _ (Kept.get-IsKept s key now h)
execute-IsKept s (delete key now) h = quiet-IsKept _ (Kept.delete-IsKept s key now h)
execute-IsKept s (exists key now) h = quiet-IsKept _ (Kept.exists-IsKept s key now h)
execute-IsKept s (set_expire key n now later) h =
    quiet-IsKept _ (Kept.set_expire-IsKept s key n now later h)
execute-IsKept s (ttl key now later) h = quiet-IsKept _ (Kept.ttl-IsKept s key now later h)
execute-IsKept s flushall h = (Kept.flushall-IsCoherent s h, refl)
execute-IsKept s (lpush key vs now) h = quiet-IsKept _ (KeptLists.lpush-IsKept s key vs now h)
execute-IsKept s (rpush key vs now) h = quiet-IsKept _ (KeptLists.rpush-IsKept s key vs now h)
execute-IsKept s (lpop key now) h = quiet-IsKept _ (KeptLists.lpop-IsKept s key now h)
execute-IsKept s (rpop key now) h = quiet-IsKept _ (KeptLists.rpop-IsKept s key now h)
execute-IsKept s (lrange key a b now) h = quiet-IsKept _ (KeptLists.lrange-IsKept s key a b now h)
execute-IsKept s (sadd key items now) h = quiet-IsKept _ (KeptSets.sadd-IsKept s key items now h)
execute-IsKept s (srem key items now) h = quiet-IsKept _ (KeptSets.srem-IsKept s key items now h)
execute-IsKept s (smembers key now) h = quiet-IsKept _ (KeptSets.smembers-IsKept s key now h)
execute-IsKept s (hset key field v now) h =
    quiet-IsKept _ (KeptSets.hset-IsKept s key field v now h)
execute-IsKept s (xadd key fields o now ms) h =
    quiet-IsKept _ (StreamsKept.xadd-IsKept s key fields o now ms h)
execute-IsKept s (xlen key now) h = quiet-IsKept _ (StreamsKept.xlen-IsKept s key now h)
execute-IsKept s (xrange key a b n now) h =
    quiet-IsKept _ (StreamsKept.xrange-IsKept s key a b n now h)
execute-IsKept s (xrevrange key a b n now) h =
    quiet-IsKept _ (StreamsKept.xrevrange-IsKept s key a b n now h)
execute-IsKept s (xdel key ids now) h = quiet-IsKept _ (StreamsKept.xdel-IsKept s key ids now h)
execute-IsKept s (xtrim key maxlen minid now) h =
    quiet-IsKept _ (StreamsKept.xtrim-IsKept s key maxlen minid now h)
execute-IsKept s (hget key field now) h = quiet-IsKept _ (KeptSets.hget-IsKept s key field now h)
execute-IsKept s (hgetall key now) h = quiet-IsKept _ (KeptSets.hgetall-IsKept s key now h)

pub empty_store-IsCoherent : (size : ℕ) → 0 < size → IsCoherent (empty_store size)
unfolding Dict.has tracks
empty_store-IsCoherent size h = record {
  ready = record { expiring = λ k e. e; held = λ k. refl; unique = tt; capacity = h };
  bounded = omega arith;
}

-- In every state that a session reaches from an engine with a positive bound that started empty, a
-- key with an expiry is there, the tracker holds exactly the keys that are there, each once, and no
-- more than the bound, and the next command, whichever it is, raises no KeyError.
pub Reaches-IsCoherent :
    {size : ℕ} {t : Store}
    → 0 < size
    → Reaches (empty_store size) t
    → IsCoherent t × ((c : Command) → is_key_error (execute t c).1 ≡ false)
Reaches-IsCoherent {size} h start =
    let c = empty_store-IsCoherent size h in
    (c, λ next. (execute-IsKept (empty_store size) next c).1)
Reaches-IsCoherent h (step {t} c r) =
    let k = (execute-IsKept t c (Reaches-IsCoherent h r).0).0 in
    (k, λ next. (execute-IsKept (execute t c).0 next k).1)
