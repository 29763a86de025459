-- ===== src/Tests/Recovery.antt =====
-- Recovery from the log of store.py at a concrete session.
use kedis_python.Prelude.{
  ◌-◌, ◌≡◌, refl, ◌&&◌, [], ◌∷◌, leb, arith, if◌then◌else◌, Text, text_eq, codes,
}
use kedis_python.Dict
use kedis_python.Store.State
use kedis_python.Store.State.{Store}
use kedis_python.Store.Keys
use kedis_python.Store.Containers
use kedis_python.Store.Command.{rpush, lpop, execute, empty_store}
use kedis_python.Store.Replay.{Host, replayed, replay}
use kedis_python.Store.Recovered.{KeepsUpper}
use kedis_python.Store.Recovery.{Logged, fresh, call, recovering_store, replay-log}

-- `str.upper` on ASCII text.
abbrev ascii_upper : Text → Text
ascii_upper [] = []
ascii_upper (c ∷ s) = (if leb 97 c && leb c 122 then c - 32 else c) ∷ ascii_upper s

abbrev pub machine : Host
machine = record { upper = ascii_upper; now_ms = 7 }

pub ascii_upper-KeepsUpper : KeepsUpper machine
ascii_upper-KeepsUpper [] h = refl
ascii_upper-KeepsUpper (c ∷ s) h = ground (arith, h.0, ascii_upper-KeepsUpper s h.1)

abbrev pushed_two : Store
pushed_two = (execute (empty_store 8) (rpush (codes "k") (codes "a" ∷ codes "b" ∷ []) 5)).0

abbrev popped_one : Store
popped_one = (execute pushed_two (lpop (codes "k") 6)).0

engine_run : Unit {0}
unfolding execute Containers.rpush Containers.lpop Containers.list_or_new Containers.pushed
    Containers.popped Containers.length_at State.evict_if_expired State.log_operation
    State.log_record State.touch_write State.evict_oldest State.track State.tracks
    State.bump_version State.move_to_end State.forget Dict.get Dict.put Dict.has Dict.remove text_eq
    Keys.drop_key
engine_run = tt

session : Logged (empty_store 8) popped_one
unfolding engine_run
session =
    call (lpop (codes "k") 6) (omega arith, refl)
      (call (rpush (codes "k") (codes "a" ∷ codes "b" ∷ []) 5)
        (refl, omega arith, λ e. ground (arith, e)) fresh)

replay-log_example :
    (r : Store) × (replay machine (recovering_store 8) popped_one.log ≡ replayed r)
    × (r.data_map ≡ popped_one.data_map)
    × (r.expires ≡ popped_one.expires)
replay-log_example = replay-log machine ascii_upper-KeepsUpper 8 (omega arith) session
