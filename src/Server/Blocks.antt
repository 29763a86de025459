-- ===== src/Server/Blocks.antt =====
-- When a connection of server.py runs a block, and which.
use kedis_python.Prelude.{
  inl, inr, ℕ, ◌+◌, ◌≡◌, refl, ap, sym, ◌∙◌, true, false, not, ◌&&◌, ◌||◌, some, List, [], ◌∷◌, ltb,
  leb, length, arith, Text, text_eq, Bool-cases, Option-cases, codes, eq_iff,
}
use kedis_python.Dict
use kedis_python.Dict.{Dict, text_key}
use kedis_python.Server.Transaction.{
  max_multi_commands, max_multi_bytes, Server, Session, new_session, Action, sends, runs_block,
  handle_replicaof, handle_sync, replicaof, sync, version_of, handle_watch, handle_unwatch,
  reset_queue, size_of, is_write_call, queue_sized, queue_command, handle_multi, handle_discard,
  is_changed, any_write, handle_exec, Route, multi, exec, discard, watch, unwatch, other, route_of,
  handle_other, handle_route, handle,
}
use kedis_python.Server.Faithful.{Reaches-IsFaithful}
use kedis_python.Server.Sent.{choose, Reaches}

-- A watched key has the version that was recorded for it.
abbrev pub AreUnchanged : Dict Text ℕ → Dict Text ℕ → Type 0
AreUnchanged versions watched =
    (key : Text) (v : ℕ) → Dict.get watched key ≡ some v → version_of versions key ≡ v

is_changed-AreUnchanged :
    (versions watched : Dict Text ℕ)
    → is_changed versions watched ≡ false
    → AreUnchanged versions watched
unfolding is_changed Dict.get
is_changed-AreUnchanged versions [] h key v e = absurd (ground (arith, e))
is_changed-AreUnchanged versions ((j, w) ∷ watched) h key v e = elim (Bool-cases (text_eq j key)) [
  | inl t ↦
      let q : w ≡ v = ground (arith, e, t) in
      let k : j ≡ key = ground (arith, eq_iff j key, t) in
      let same : version_of versions j ≡ w = ground (arith, h) in
      ap (version_of versions) (sym k) ∙ same ∙ q
  | inr t ↦
      is_changed-AreUnchanged versions watched (ground (arith, h)) key v (ground (arith, e, t))
]

-- A block that runs: the session was in an unspoilt block, the queue is what runs, no watched key has
-- changed, nothing writes on a replica, and the session is as if it were new.
pub record IsRun (sv : Server) (s t : Session) (queue : List (List Text)) : Type 0 where
  pub opened : s.in_transaction ≡ true
  pub fits : s.tx_overflowed ≡ false
  pub permitted : (s.tx_readonly || sv.is_replica && any_write sv s.tx_queue) ≡ false
  pub queued : s.tx_queue ≡ queue
  pub unchanged : is_changed sv.versions s.watched_keys ≡ false
  pub closed : t ≡ new_session

-- What a handler must show where it runs a block.
abbrev Runs : Server → Session → List (List Text) → Session × Action → Type 0
Runs sv s queue p = p.1 ≡ runs_block queue → IsRun sv s p.0 queue

run_queue :
    (sv : Server) (s : Session) (queue held : List (List Text))
    → s.in_transaction ≡ true
    → s.tx_overflowed ≡ false
    → (s.tx_readonly || sv.is_replica && any_write sv s.tx_queue) ≡ false
    → is_changed sv.versions s.watched_keys ≡ false
    → s.tx_queue ≡ held
    → Runs sv s queue (elim held as (λ _. Session × Action) [
      | [] ↦ (record s { in_transaction = false; watched_keys = [] }, sends (codes "A0\n"))
      | tokens ∷ queue ↦ (
        reset_queue (record s { in_transaction = false; watched_keys = [] }),
        runs_block (tokens ∷ queue),
      )
    ])
unfolding reset_queue
run_queue sv s queue [] i o r c e = λ h. absurd (ground (arith, h))
run_queue sv s queue (x ∷ held) i o r c e = λ h. record {
  opened = i;
  fits = o;
  permitted = r;
  queued = e ∙ (ground (arith, h));
  unchanged = c;
  closed = refl;
}

exec-Runs :
    (sv : Server) (s : Session) (queue : List (List Text)) → Runs sv s queue (handle_exec sv s)
unfolding handle_exec
exec-Runs sv s queue =
    choose (Runs sv s queue) (not s.in_transaction) _ _ (λ _ h. absurd (ground (arith, h)))
      (λ i.
        choose (Runs sv s queue) s.tx_overflowed _ _ (λ _ h. absurd (ground (arith, h)))
          (λ o.
            choose (Runs sv s queue) (s.tx_readonly || sv.is_replica && any_write sv s.tx_queue) _ _
              (λ _ h. absurd (ground (arith, h)))
              (λ r.
                choose (Runs sv s queue) (is_changed sv.versions s.watched_keys) _ _
                  (λ _ h. absurd (ground (arith, h)))
                  (λ c. run_queue sv s queue s.tx_queue (ground (arith, i)) o r c refl))))

multi-Runs :
    (sv : Server) (s : Session) (queue : List (List Text)) → Runs sv s queue (handle_multi s)
unfolding handle_multi
multi-Runs sv s queue =
    choose (Runs sv s queue) s.in_transaction _ _ (λ _ h. absurd (ground (arith, h)))
      (λ _ h. absurd (ground (arith, h)))

discard-Runs :
    (sv : Server) (s : Session) (queue : List (List Text)) → Runs sv s queue (handle_discard s)
unfolding handle_discard
discard-Runs sv s queue =
    choose (Runs sv s queue) s.in_transaction _ _ (λ _ h. absurd (ground (arith, h)))
      (λ _ h. absurd (ground (arith, h)))

watch-Runs :
    (sv : Server) (s : Session) (args : List Text) (queue : List (List Text))
    → Runs sv s queue (handle_watch sv s args)
unfolding handle_watch
watch-Runs sv s [] queue =
    choose (Runs sv s queue) s.in_transaction _ _ (λ _ h. absurd (ground (arith, h)))
      (λ _ h. absurd (ground (arith, h)))
watch-Runs sv s (k ∷ ks) queue =
    choose (Runs sv s queue) s.in_transaction _ _ (λ _ h. absurd (ground (arith, h)))
      (λ _ h. absurd (ground (arith, h)))

queue_sized-Runs :
    (sv : Server) (s : Session) (tokens : List Text) (n : ℕ) (queue : List (List Text))
    → Runs sv s queue (queue_sized s tokens n)
unfolding queue_sized
queue_sized-Runs sv s tokens n queue =
    choose (Runs sv s queue)
      (leb max_multi_commands (length s.tx_queue) || ltb max_multi_bytes (s.tx_bytes + n)) _ _
      (λ _ h. absurd (ground (arith, h))) (λ _ h. absurd (ground (arith, h)))

queue_command-Runs :
    (sv : Server) (s : Session) (tokens : List Text) (queue : List (List Text))
    → Runs sv s queue (queue_command sv s tokens)
unfolding queue_command
queue_command-Runs sv s tokens queue =
    choose (Runs sv s queue) (sv.is_replica && is_write_call sv tokens) _ _
      (λ _ h. absurd (ground (arith, h)))
      (λ _.
        choose (Runs sv s queue) s.tx_overflowed _ _ (λ _ h. absurd (ground (arith, h)))
          (λ _. elim (Option-cases (size_of tokens)) [
            | inl z ↦ rw z (λ h. absurd (ground (arith, h)))
            | inr (n, z) ↦ rw z (queue_sized-Runs sv s tokens n queue)
          ]))

other-Runs :
    (sv : Server) (s : Session) (tokens : List Text) (queue : List (List Text))
    → Runs sv s queue (handle_other sv s tokens)
unfolding handle_other
other-Runs sv s tokens queue =
    choose (Runs sv s queue) s.in_transaction _ _ (λ _. queue_command-Runs sv s tokens queue)
      (λ _.
        choose (Runs sv s queue) (sv.is_replica && is_write_call sv tokens) _ _
          (λ _ h. absurd (ground (arith, h))) (λ _ h. absurd (ground (arith, h))))

route-Runs :
    (sv : Server) (s : Session) (route : Route) (name : Text) (args : List Text)
    (queue : List (List Text))
    → Runs sv s queue (handle_route sv s route name args)
unfolding handle_route handle_replicaof handle_sync
route-Runs sv s (replicaof host port) name args queue =
    choose (Runs sv s queue)
      (text_eq (sv.upper host) (codes "NO") && text_eq (sv.upper port) (codes "ONE")) _ _
      (λ _ h. absurd (ground (arith, h))) (λ _ h. absurd (ground (arith, h)))
route-Runs sv s sync name args queue =
    choose (Runs sv s queue) sv.is_replica _ _ (λ _ h. absurd (ground (arith, h)))
      (λ _ h. absurd (ground (arith, h)))
route-Runs sv s multi name args queue = multi-Runs sv s queue
route-Runs sv s exec name args queue = exec-Runs sv s queue
route-Runs sv s discard name args queue = discard-Runs sv s queue
route-Runs sv s watch name args queue = watch-Runs sv s args queue
route-Runs sv s unwatch name args queue = unfold handle_unwatch in λ h. absurd (ground (arith, h))
route-Runs sv s other name args queue = other-Runs sv s (name ∷ args) queue

-- Whenever a command makes a connection go on to run a block, the block is exactly what its client has
-- sent since MULTI, in order, without the commands that are answered at once in a block too (MULTI,
-- DISCARD, WATCH, UNWATCH, SYNC, and REPLICAOF with a host and a port), and none was refused to be
-- queued; every key that it watches has, at that moment, the version that WATCH recorded; on a replica
-- nothing in the block writes; and the state that EXEC leaves is that of a new connection. What the rest
-- of the server is may change before every command, and no command sent into a block was beyond
-- encoding.
pub handle-block :
    {s : Session} {sent : List (List Text)} (sv : Server) (name : Text) (args : List Text)
    (queue : List (List Text))
    → Reaches s sent
    → (handle sv s name args).1 ≡ runs_block queue
    → (queue ≡ sent)
      × AreUnchanged sv.versions s.watched_keys
      × ((sv.is_replica && any_write sv queue) ≡ false)
      × ((handle sv s name args).0 ≡ new_session)
unfolding handle
handle-block {s} {sent} sv name args queue r h =
    let run = route-Runs sv s (route_of (sv.upper name) args) name args queue h in
    let f = Reaches-IsFaithful r in
    let free : s.tx_readonly ≡ false = ground (arith, run.permitted) in
    let reads : (sv.is_replica && any_write sv s.tx_queue) ≡ false =
      ground (arith, run.permitted) in
    (
      sym run.queued ∙ f.kept run.opened run.fits free,
      is_changed-AreUnchanged sv.versions s.watched_keys run.unchanged,
      ap (λ q. sv.is_replica && any_write sv q) (sym run.queued) ∙ reads,
      run.closed,
    )
