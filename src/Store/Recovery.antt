-- ===== src/Store/Recovery.antt =====
-- Recovery from the log of store.py: what a session logged, replayed on a fresh engine, is its data.
use kedis_python.Prelude.{
  ℕ, ◌<◌, ◌≡◌, ◌≢◌, refl, sym, true, false, arith, List, [], ◌∷◌, none, some, Text,
}
use kedis_python.Dict
use kedis_python.Dict.{text_key}
use kedis_python.Store.State.{
  Store, members, Reply, returns, wrong_type, key_error, value_error, stream_error,
}
use kedis_python.Store.Command.{
  Command, set, get, delete, exists, set_expire, ttl, flushall, lpush, rpush, lpop, rpop, lrange,
  sadd, srem, smembers, hset, hget, hgetall, xadd, xlen, xrange, xrevrange, xdel, xtrim, quiet,
  execute, Reaches, start, step, empty_store,
}
use kedis_python.Store.Coherent.{IsCoherent}
use kedis_python.Store.Session.{Reaches-IsCoherent}
use kedis_python.Store.View.{HasRoom}
use kedis_python.Store.Replay.{Host, replayed, replay}
use kedis_python.Store.Recovered.{KeepsUpper, IsAwake, IsRecovered}
use kedis_python.Store.RecoveredKeys
use kedis_python.Store.RecoveredLists
use kedis_python.Store.RecoveredPops
use kedis_python.Store.RecoveredSets
use kedis_python.Store.RecoveredRemovals

-- A pop or an SREM that may leave its key empty: there is room, the key has no time.
abbrev pub IsTimeless : Store → Text → Type 0
IsTimeless s key = HasRoom s × (Dict.get s.expires key ≡ none)

-- The set at a key, if there is one, is not empty.
abbrev pub IsFilled : Store → Text → Type 0
IsFilled s key = (held : List Text) → Dict.get s.data_map key ≡ some (members held) → held ≢ []

-- A command on keys, lists, sets or hashes that finds room for one more key where it writes, does not
-- find its key expired, and has what it is to write.
abbrev pub IsPlain : Store → Command → Type 0
IsPlain s (set key value) = HasRoom s
IsPlain s (get key now) = IsAwake s key now
IsPlain s (delete key now) = IsAwake s key now
IsPlain s (exists key now) = IsAwake s key now
IsPlain s (set_expire key seconds now later) = IsAwake s key now
IsPlain s (ttl key now later) = IsAwake s key now
IsPlain s flushall = Unit
IsPlain s (lpush key values now) = IsAwake s key now × HasRoom s × (values ≢ [])
IsPlain s (rpush key values now) = IsAwake s key now × HasRoom s × (values ≢ [])
IsPlain s (lpop key now) = IsTimeless s key
IsPlain s (rpop key now) = IsTimeless s key
IsPlain s (lrange key a b now) = IsAwake s key now
IsPlain s (sadd key items now) = IsAwake s key now × HasRoom s × (items ≢ [])
IsPlain s (srem key items now) = IsTimeless s key × (items ≢ []) × IsFilled s key
IsPlain s (smembers key now) = IsAwake s key now
IsPlain s (hset key field value now) = IsAwake s key now × HasRoom s
IsPlain s (hget key field now) = IsAwake s key now
IsPlain s (hgetall key now) = IsAwake s key now
IsPlain s c = true ≡ false

-- A session of such commands.
pub data Logged (s : Store) : Store → Type 0 where
  fresh : Logged s s
  call : {t : Store} (c : Command) → IsPlain t c → Logged s t → Logged s (execute t c).0

-- The engine that `recover_from_aof` starts from.
abbrev pub recovering_store : ℕ → Store
recovering_store size = record (empty_store size) { is_recovering = true }

quiet-IsRecovered {ℓ} :
    {A : Type ℓ} (host : Host) (begin : Store) (p : Store × Reply A)
    → IsRecovered host begin p.0
    → IsRecovered host begin (quiet p).0
quiet-IsRecovered host begin (s, returns a) h = h
quiet-IsRecovered host begin (s, wrong_type) h = h
quiet-IsRecovered host begin (s, key_error) h = h
quiet-IsRecovered host begin (s, value_error) h = h
quiet-IsRecovered host begin (s, stream_error m) h = h

module _ (host : Host) (keeps : KeepsUpper host) (begin s : Store) where
  execute-IsRecovered :
      (c : Command)
      → IsCoherent s
      → IsPlain s c
      → IsRecovered host begin s
      → IsRecovered host begin (execute s c).0
  unfolding execute
  execute-IsRecovered (set key value) c p h =
      RecoveredKeys.set-IsRecovered host keeps begin s h key value p
  execute-IsRecovered (get key now) c p h =
      quiet-IsRecovered host begin _ (RecoveredKeys.get-IsRecovered host keeps begin s h key now p)
  execute-IsRecovered (delete key now) c p h =
      quiet-IsRecovered host begin _
        (RecoveredKeys.delete-IsRecovered host keeps begin s h key now p)
  execute-IsRecovered (exists key now) c p h =
      quiet-IsRecovered host begin _
        (RecoveredKeys.exists-IsRecovered host keeps begin s h key now p)
  execute-IsRecovered (set_expire key seconds now later) c p h =
      quiet-IsRecovered host begin _
        (RecoveredKeys.set_expire-IsRecovered host keeps begin s h key seconds now later p)
  execute-IsRecovered (ttl key now later) c p h =
      quiet-IsRecovered host begin _
        (RecoveredKeys.ttl-IsRecovered host keeps begin s h key now later p)
  execute-IsRecovered flushall c p h = RecoveredKeys.flushall-IsRecovered host keeps begin s h
  execute-IsRecovered (lpush key [] now) c p h = absurd (p.2 refl)
  execute-IsRecovered (lpush key (v ∷ vs) now) c p h =
      quiet-IsRecovered host begin _
        (RecoveredLists.lpush-IsRecovered host keeps begin s h key v vs now p.0 p.1)
  execute-IsRecovered (rpush key [] now) c p h = absurd (p.2 refl)
  execute-IsRecovered (rpush key (v ∷ vs) now) c p h =
      quiet-IsRecovered host begin _
        (RecoveredLists.rpush-IsRecovered host keeps begin s h key v vs now p.0 p.1)
  execute-IsRecovered (lpop key now) c p h =
      quiet-IsRecovered host begin _
        (RecoveredPops.lpop-IsRecovered host keeps begin s h key now p.1 p.0)
  execute-IsRecovered (rpop key now) c p h =
      quiet-IsRecovered host begin _
        (RecoveredPops.rpop-IsRecovered host keeps begin s h key now p.1 p.0)
  execute-IsRecovered (lrange key a b now) c p h =
      quiet-IsRecovered host begin _
        (RecoveredLists.lrange-IsRecovered host keeps begin s h key a b now p)
  execute-IsRecovered (sadd key [] now) c p h = absurd (p.2 refl)
  execute-IsRecovered (sadd key (v ∷ vs) now) c p h =
      quiet-IsRecovered host begin _
        (RecoveredSets.sadd-IsRecovered host keeps begin s h key v vs now c p.0 p.1)
  execute-IsRecovered (srem key [] now) c p h = absurd (p.1 refl)
  execute-IsRecovered (srem key (v ∷ vs) now) c p h =
      quiet-IsRecovered host begin _
        (RecoveredRemovals.srem-IsRecovered host keeps begin s h key v vs now p.0.1 p.2 p.0.0)
  execute-IsRecovered (smembers key now) c p h =
      quiet-IsRecovered host begin _
        (RecoveredSets.smembers-IsRecovered host keeps begin s h key now p)
  execute-IsRecovered (hset key field value now) c p h =
      quiet-IsRecovered host begin _
        (RecoveredSets.hset-IsRecovered host keeps begin s h key field value now p.0 p.1)
  execute-IsRecovered (hget key field now) c p h =
      quiet-IsRecovered host begin _
        (RecoveredSets.hget-IsRecovered host keeps begin s h key field now p)
  execute-IsRecovered (hgetall key now) c p h =
      quiet-IsRecovered host begin _
        (RecoveredSets.hgetall-IsRecovered host keeps begin s h key now p)
  execute-IsRecovered (xadd key fields o now ms) c p h = absurd (ground (arith, p))
  execute-IsRecovered (xlen key now) c p h = absurd (ground (arith, p))
  execute-IsRecovered (xrange key a b n now) c p h = absurd (ground (arith, p))
  execute-IsRecovered (xrevrange key a b n now) c p h = absurd (ground (arith, p))
  execute-IsRecovered (xdel key ids now) c p h = absurd (ground (arith, p))
  execute-IsRecovered (xtrim key maxlen minid now) c p h = absurd (ground (arith, p))

reached : {s t : Store} → Logged s t → Reaches s t
reached fresh = start
reached (call c p l) = step c (reached l)

empty-IsRecovered :
    (host : Host) (size : ℕ) → IsRecovered host (recovering_store size) (empty_store size)
unfolding replay
empty-IsRecovered host size = record {
  image = recovering_store size;
  replays = refl;
  alike = record {
    same_data = refl;
    same_expires = refl;
    same_bound = refl;
    same_count = refl;
    same_keys = λ k. refl;
    unique = tt;
    unique' = tt;
  };
  is_live = refl;
}

pub Logged-IsRecovered :
    (host : Host)
    → KeepsUpper host
    → (size : ℕ) → 0 < size
    → {t : Store} → Logged (empty_store size) t
    → IsRecovered host (recovering_store size) t
Logged-IsRecovered host keeps size h fresh = empty-IsRecovered host size
Logged-IsRecovered host keeps size h (call {t} c p l) =
    execute-IsRecovered host keeps (recovering_store size) t c (Reaches-IsCoherent h (reached l)).0
      p (Logged-IsRecovered host keeps size h l)

-- The log of a session, replayed at the next start on an empty engine of the same positive bound, does
-- not fail and rebuilds exactly the data and the expiry times that the session left, where every
-- command is one on keys, lists, sets or hashes, none came to a key that had expired, every SET, push,
-- pop, SADD, SREM and HSET found fewer tracked keys than the bound, pushes and SADD had values, SREM had
-- members and did not come to an empty set, and LPOP, RPOP and SREM did not come to a key with an expiry
-- time. `upper` stands for `str.upper`, which leaves ASCII text without lower-case letters as it is.
pub replay-log :
    (host : Host)
    → KeepsUpper host
    → (size : ℕ) → 0 < size
    → {t : Store} → Logged (empty_store size) t
    → (r : Store) × (replay host (recovering_store size) t.log ≡ replayed r)
      × (r.data_map ≡ t.data_map)
      × (r.expires ≡ t.expires)
replay-log host keeps size h l =
    let k = Logged-IsRecovered host keeps size h l in
    (k.image, k.replays, sym k.alike.same_data, sym k.alike.same_expires)
