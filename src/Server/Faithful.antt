-- ===== src/Server/Faithful.antt =====
-- What a block of a connection of server.py runs is what its client sent, all of it and nothing else, on
-- the data that it watched.
use kedis_python.Prelude.{
  inl, inr, ℕ, ◌+◌, ◌≡◌, refl, ap, Bool, true, false, not, ◌&&◌, ◌||◌, some, List, [], ◌∷◌, ◌++◌,
  ltb, leb, if◌then◌else◌, length, length-append, arith, Text, text_eq, Bool-cases, Option-cases,
  codes,
}
use kedis_python.Dict.{text_key}
use kedis_python.Server.Transaction.{
  max_multi_commands, max_multi_bytes, Server, Session, new_session, Action, sends, runs_block,
  runs, handle_replicaof, handle_sync, replicaof, sync, handle_unwatch, reset_queue, size_of,
  is_write_call, queue_sized, queue_command, is_changed, any_write, handle_exec, Route, multi, exec,
  discard, watch, unwatch, other, route_of, handle_other, handle_route, handle,
}
use kedis_python.Server.Sent.{
  IsFaithful, sent_on, Reaches, total, total-snoc, Stays, Keeps, closed-IsFaithful, choose,
  multi-IsFaithful, discard-IsFaithful, watched-IsFaithful, watch-IsFaithful, start, step,
}

readonly-IsFaithful :
    (s : Session) (sent more : List (List Text))
    → IsFaithful s sent
    → IsFaithful (record s { tx_readonly = true }) more
readonly-IsFaithful s sent more h = record {
  kept = λ i o r. absurd (ground (arith, r));
  few = h.few;
  small = h.small;
  sized = h.sized;
}

sized-IsFaithful :
    (s : Session) (sent : List (List Text)) (tokens : List Text) (n : ℕ)
    → IsFaithful s sent
    → size_of tokens ≡ some n
    → IsFaithful (queue_sized s tokens n).0 (sent ++ tokens ∷ [])
unfolding queue_sized
sized-IsFaithful s sent tokens n h e =
    let over = leb max_multi_commands (length s.tx_queue) || ltb max_multi_bytes (s.tx_bytes + n) in
    elim (Bool-cases over) [
      | inl x ↦
          rw (x, queue_sized)
            (record {
              kept = λ i o r. absurd (ground (arith, o));
              few = omega arith;
              small = omega arith;
              sized = unfold total in refl;
            })
      | inr x ↦
          rw (x, queue_sized)
            (record {
              kept = λ i o r. ap (λ q. q ++ tokens ∷ []) (h.kept i o r);
              few = ground (arith, x, length-append s.tx_queue (tokens ∷ []));
              small = ground (arith, x);
              sized = total-snoc s.tx_queue tokens s.tx_bytes n h.sized e;
            })
    ]

queue-IsFaithful :
    (sv : Server) (s : Session) (sent : List (List Text)) (tokens : List Text)
    → IsFaithful s sent
    → Keeps (queue_command sv s tokens) (sent ++ tokens ∷ [])
unfolding queue_command Keeps
queue-IsFaithful sv s sent tokens h = elim (Bool-cases (sv.is_replica && is_write_call sv tokens)) [
  | inl w ↦ rw (w, queue_command) (λ _. readonly-IsFaithful s sent (sent ++ tokens ∷ []) h)
  | inr w ↦ elim (Bool-cases s.tx_overflowed) [
    | inl o ↦
        rw (w, o, queue_command)
          (λ _. record {
            kept = λ i o' r. absurd (ground (arith, o, o'));
            few = h.few;
            small = h.small;
            sized = h.sized;
          })
    | inr o ↦ elim (Option-cases (size_of tokens)) [
      | inl z ↦ rw (w, o, z, queue_command) (λ ok. absurd (ok refl))
      | inr (n, z) ↦ rw (w, o, z, queue_command) (λ _. sized-IsFaithful s sent tokens n h z)
    ]
  ]
]

run_block :
    (t : Session) (sent : List (List Text)) (queue : List (List Text))
    → IsFaithful t sent
    → t.in_transaction ≡ false
    → Stays sent (elim queue as (λ _. Session × Action) [
      | [] ↦ (t, sends (codes "A0\n"))
      | tokens ∷ queue ↦ (reset_queue t, runs_block (tokens ∷ queue))
    ])
unfolding reset_queue
run_block t sent [] h i = h
run_block t sent (x ∷ queue) h i = closed-IsFaithful _ sent refl refl i

ended-IsFaithful :
    (s : Session) (sent : List (List Text))
    → IsFaithful s sent
    → IsFaithful (record s { in_transaction = false; watched_keys = [] }) sent
ended-IsFaithful s sent h = record {
  kept = λ i o r. absurd (ground (arith, i));
  few = h.few;
  small = h.small;
  sized = h.sized;
}

exec-IsFaithful :
    (sv : Server) (s : Session) (sent : List (List Text))
    → IsFaithful s sent
    → IsFaithful (handle_exec sv s).0 sent
unfolding handle_exec reset_queue
exec-IsFaithful sv s sent h =
    let closed : (t : Session)
        → t.tx_queue ≡ []
        → t.tx_bytes ≡ 0
        → t.in_transaction ≡ false
        → IsFaithful t sent =
      λ t. closed-IsFaithful t sent in
    choose (Stays sent) (not s.in_transaction) _ _ (λ _. h)
      (λ _.
        choose (Stays sent) s.tx_overflowed _ _ (λ _. closed _ refl refl refl)
          (λ _.
            choose (Stays sent) (s.tx_readonly || sv.is_replica && any_write sv s.tx_queue) _ _
              (λ _. closed _ refl refl refl)
              (λ _.
                choose (Stays sent) (is_changed sv.versions s.watched_keys) _ _
                  (λ _. closed _ refl refl refl)
                  (λ _. run_block _ sent s.tx_queue (ended-IsFaithful s sent h) refl))))

other_case :
    (sv : Server) (s : Session) (sent : List (List Text)) (tokens : List Text) (b : Bool)
    → IsFaithful s sent
    → Keeps
        (if b
          then queue_command sv s tokens
          else if sv.is_replica && is_write_call sv tokens
          then (s, sends (codes "-EREADONLY You can't write against a read-only replica.\n"))
          else (s, runs tokens))
        (if b then sent ++ tokens ∷ [] else sent)
other_case sv s sent tokens true h = queue-IsFaithful sv s sent tokens h
other_case sv s sent tokens false h =
    choose (λ p. Keeps p sent) (sv.is_replica && is_write_call sv tokens) _ _
      (λ _. unfold Keeps in λ _. h) (λ _. unfold Keeps in λ _. h)

other-IsFaithful :
    (sv : Server) (s : Session) (sent : List (List Text)) (tokens : List Text)
    → IsFaithful s sent
    → Keeps (handle_other sv s tokens) (sent_on s sent other tokens)
unfolding handle_other sent_on
other-IsFaithful sv s sent tokens h = other_case sv s sent tokens s.in_transaction h

handle-IsFaithful :
    (sv : Server) (s : Session) (sent : List (List Text)) (route : Route) (name : Text)
    (args : List Text)
    → IsFaithful s sent
    → Keeps (handle_route sv s route name args) (sent_on s sent route (name ∷ args))
unfolding handle_route handle_replicaof handle_sync sent_on Keeps
handle-IsFaithful sv s sent (replicaof host port) name args h =
    choose (λ p. Keeps p sent)
      (text_eq (sv.upper host) (codes "NO") && text_eq (sv.upper port) (codes "ONE")) _ _ (λ _ _. h)
      (λ _ _. h)
handle-IsFaithful sv s sent sync name args h =
    choose (λ p. Keeps p sent) sv.is_replica _ _ (λ _ _. h) (λ _ _. h)
handle-IsFaithful sv s sent multi name args h = λ _. multi-IsFaithful s sent (name ∷ args) h
handle-IsFaithful sv s sent exec name args h = λ _. unfold sent_on in exec-IsFaithful sv s sent h
handle-IsFaithful sv s sent discard name args h = λ _. unfold sent_on in discard-IsFaithful s sent h
handle-IsFaithful sv s sent watch name args h =
    λ _. unfold sent_on in watch-IsFaithful sv s sent args h
handle-IsFaithful sv s sent unwatch name args h =
    λ _. unfold sent_on handle_unwatch in watched-IsFaithful s sent [] h
handle-IsFaithful sv s sent other name args h = other-IsFaithful sv s sent (name ∷ args) h

new_session-IsFaithful : IsFaithful new_session []
new_session-IsFaithful = closed-IsFaithful new_session [] refl refl refl

-- In every state that a connection reaches while no command is sent into a block that is beyond
-- encoding, the queue holds at most 10000 commands and 64 MiB of arguments, the recorded size is the
-- size of what it holds, and an open block that has refused no command to be queued (for its limits or
-- as a write on a replica) holds exactly the commands sent into it, in order, without those that are
-- answered at once in a block too: MULTI, EXEC, DISCARD, WATCH, UNWATCH, SYNC, and REPLICAOF with a
-- host and a port.
pub Reaches-IsFaithful :
    {s : Session} {sent : List (List Text)} → Reaches s sent → IsFaithful s sent
unfolding handle Keeps
Reaches-IsFaithful start = new_session-IsFaithful
Reaches-IsFaithful (step {s} {sent} sv name args r ok) =
    handle-IsFaithful sv s sent (route_of (sv.upper name) args) name args (Reaches-IsFaithful r) ok
