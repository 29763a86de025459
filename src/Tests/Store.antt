-- ===== src/Tests/Store.antt =====
-- store.py at concrete inputs.
use kedis_python.Prelude.{
  ◌≡◌, refl, false, none, some, [], ◌∷◌, ◌++◌, codes, Text, arith, text_eq, map, negsuc,
  if◌then◌else◌,
}
use mathlib.Core.List.{reverse}
use kedis_python.Dict
use kedis_python.Dict.{is_some, text_key}
use kedis_python.Store.State
use kedis_python.Store.State.{
  Store, Value, string, deque, members, hash, stream, Reply, returns, wrong_type, key_error, Record,
  command, expire_at,
}
use kedis_python.Store.Keys
use kedis_python.Store.Containers
use kedis_python.Store.Command.{Command, set, rpush, execute, start, step, empty_store}
use kedis_python.Store.Coherent.{IsCoherent, is_key_error}
use kedis_python.Store.Session.{Reaches-IsCoherent}
use kedis_python.Store.Housekeeping.{IsMended, housekeeping-IsMended}
use kedis_python.Store.View.{Answers, HasRoom, view, set-view, get-view, delete-view}
use kedis_python.Store.PushView.{push_map, rpush-view, lpush-view}

-- What the runs below compute with.
run : Unit {0}
unfolding Dict.get Dict.has Dict.put Dict.remove text_eq State.bump_version State.log_record
    State.log_operation State.tracks State.forget State.move_to_end State.kill State.evict_oldest
    State.track State.touch_write State.touch_read State.lru_invalidate State.evict_if_expired
    Keys.set Keys.get Keys.readable Keys.drop_key Keys.delete Keys.exists Keys.set_expire Keys.ttl
    Keys.flushall Keys.past_due Keys.sweep Keys.evict_all_expired Keys.orphans Keys.remove_all
    Keys.ghosts Keys.forget_all Keys.untracked Keys.adopt_all Keys.housekeeping
    Containers.list_or_new Containers.set_or_new Containers.hash_or_new Containers.push_left
    Containers.length_at Containers.pushed Containers.lpush Containers.rpush Containers.popped
    Containers.split_last Containers.lpop Containers.rpop Containers.start_of Containers.end_of
    Containers.lrange Containers.update Containers.difference_update Containers.sadd
    Containers.removed_state Containers.left_state Containers.srem Containers.smembers
    Containers.hset Containers.field_at Containers.hget Containers.hgetall execute view push_map
run = tt

abbrev two_keys : Store
two_keys = Keys.set (Keys.set (empty_store 2) (codes "a") (codes "1")) (codes "b") (codes "2")

-- The read of `a` saves it: the third key evicts `b`, and the log says so behind the write.
evicted :
    map (λ e. e.0) (Keys.set (Keys.get two_keys (codes "a") 0).0 (codes "c") (codes "3")).data_map
    ≡ codes "a" ∷ codes "c" ∷ []
unfolding run
evicted = refl

expired_run :
    (Keys.get (Keys.set_expire two_keys (codes "a") 5 10 10).0 (codes "a") 15).1 ≡ returns none
unfolding run
expired_run = refl

range_run :
    (Containers.lrange
      (Containers.lpush two_keys (codes "l") (codes "x" ∷ codes "y" ∷ codes "z" ∷ []) 0).0
      (codes "l")
      (negsuc 1)
      (negsuc 0)
      0).1
    ≡ returns (codes "y" ∷ codes "x" ∷ [])
unfolding run
range_run = refl

pop_run :
    (Containers.rpop (Containers.rpush two_keys (codes "l") (codes "x" ∷ []) 0).0 (codes "l") 0).1
    ≡ returns (some (codes "x"))
unfolding run
pop_run = refl

srem_run :
    (Containers.srem
      (Containers.sadd two_keys (codes "s") (codes "x" ∷ codes "y" ∷ codes "x" ∷ []) 0).0
      (codes "s")
      (codes "x" ∷ codes "q" ∷ [])
      0).1
    ≡ returns 1
unfolding run
srem_run = refl

wrong_type_run : (Containers.rpush two_keys (codes "a") (codes "x" ∷ []) 0).1 ≡ wrong_type
unfolding run
wrong_type_run = refl

two_keys-IsCoherent : IsCoherent two_keys
unfolding execute
two_keys-IsCoherent =
    (Reaches-IsCoherent (omega arith)
      (step (set (codes "b") (codes "2")) (step (set (codes "a") (codes "1")) start))).0

abbrev roomy : Store
roomy = Keys.set (empty_store 3) (codes "a") (codes "1")

roomy-IsCoherent : IsCoherent roomy
unfolding execute
roomy-IsCoherent = (Reaches-IsCoherent (omega arith) (step (set (codes "a") (codes "1")) start)).0

roomy-HasRoom : HasRoom roomy
unfolding run
roomy-HasRoom = omega arith

Reaches-IsCoherent_example :
    let t =
      (execute
        (execute (empty_store 1) (set (codes "a") (codes "1"))).0
        (rpush (codes "l") (codes "x" ∷ []) 7)).0 in
    IsCoherent t × ((c : Command) → is_key_error (execute t c).1 ≡ false)
Reaches-IsCoherent_example =
    Reaches-IsCoherent (omega arith)
      (step (rpush (codes "l") (codes "x" ∷ []) 7) (step (set (codes "a") (codes "1")) start))

-- A state that has drifted: a time for a key that is gone, and a ghost in the tracker.
abbrev drifted : Store
drifted = record (empty_store 4) {
  data_map = (codes "a", string (codes "1")) ∷ [];
  expires = (codes "gone", 9) ∷ [];
  tracker = codes "ghost" ∷ [];
}

housekeeping-IsMended_example : IsMended (Keys.housekeeping drifted 3).0
unfolding run
housekeeping-IsMended_example = housekeeping-IsMended drifted 3 (refl, tt) (refl, tt)

set-view_example :
    view (Keys.set roomy (codes "a") (codes "2")) 5 (codes "a") ≡ some (string (codes "2"))
unfolding run
set-view_example = set-view roomy (codes "a") (codes "2") 5 (codes "a") (omega arith)

get-view_example :
    Answers (view two_keys 5 (codes "a")) (Keys.get two_keys (codes "a") 5).1
    × ((k : Text) → view (Keys.get two_keys (codes "a") 5).0 5 k ≡ view two_keys 5 k)
get-view_example = get-view two_keys (codes "a") 5 two_keys-IsCoherent

delete-view_example :
    ((Keys.delete two_keys (codes "a") 5).1
      ≡ returns (if is_some (view two_keys 5 (codes "a")) then 1 else 0))
    × ((k : Text)
        → view (Keys.delete two_keys (codes "a") 5).0 5 k
          ≡ (if text_eq (codes "a") k then none else view two_keys 5 k))
delete-view_example = delete-view two_keys (codes "a") 5 two_keys-IsCoherent

rpush-view_example :
    let m = push_map (view roomy 5) (codes "l") (λ items. items ++ codes "x" ∷ []) in
    ((Containers.rpush roomy (codes "l") (codes "x" ∷ []) 5).1 ≡ m.1)
    × ((k : Text) → view (Containers.rpush roomy (codes "l") (codes "x" ∷ []) 5).0 5 k ≡ m.0 k)
rpush-view_example = rpush-view roomy (codes "l") (codes "x" ∷ []) 5 roomy-IsCoherent roomy-HasRoom

lpush-view_example :
    let m = push_map (view roomy 5) (codes "l") (λ items. reverse (codes "x" ∷ []) ++ items) in
    ((Containers.lpush roomy (codes "l") (codes "x" ∷ []) 5).1 ≡ m.1)
    × ((k : Text) → view (Containers.lpush roomy (codes "l") (codes "x" ∷ []) 5).0 5 k ≡ m.0 k)
lpush-view_example = lpush-view roomy (codes "l") (codes "x" ∷ []) 5 roomy-IsCoherent roomy-HasRoom
