-- ===== src/Server/Sent.antt =====
-- What a connection of server.py has queued is what its client sent since MULTI: outside of a block, and
-- at its start.
use kedis_python.Prelude.{
  inl, inr, ℕ, ◌+◌, ◌≤◌, ◌≡◌, ◌≢◌, refl, ◌∙◌, Bool, true, false, Option, none, some, List, [], ◌∷◌,
  ◌++◌, if◌then◌else◌, length, arith, Text, Option-cases, codes,
}
use kedis_python.Dict.{Dict, text_key}
use kedis_python.Server.Transaction.{
  max_multi_commands, max_multi_bytes, Server, Session, new_session, Action, sends, fails,
  handle_watch, reset_queue, size_of, handle_multi, handle_discard, Route, multi, other, route_of,
  handle,
}

-- The commands that a client has sent into its block for later: all but those that are answered at
-- once, in a block too, which are the router's own, SYNC, and REPLICAOF with a host and a port.
unfoldable pub sent_on : Session → List (List Text) → Route → List Text → List (List Text)
sent_on s sent multi tokens = if s.in_transaction then sent else []
sent_on s sent other tokens = if s.in_transaction then sent ++ tokens ∷ [] else sent
sent_on s sent route tokens = sent

abbrev pub sent_after : Server → Session → List (List Text) → Text → List Text → List (List Text)
sent_after sv s sent name args = sent_on s sent (route_of (sv.upper name) args) (name ∷ args)

-- The states of a connection with what its client has sent into the open block. Before every command
-- the rest of the server may be another.
pub data Reaches : Session → List (List Text) → Type 0 where
  start : Reaches new_session []
  step :
      {s : Session} {sent : List (List Text)} (sv : Server) (name : Text) (args : List Text)
      → Reaches s sent
      → (handle sv s name args).1 ≢ fails
      → Reaches (handle sv s name args).0 (sent_after sv s sent name args)

-- `sum` of the sizes of the commands of a queue.
unfoldable pub total : List (List Text) → Option ℕ
total [] = some 0
total (tokens ∷ queue) = elim (size_of tokens) [
  | none ↦ none
  | some n ↦ elim (total queue) [ none ↦ none | some m ↦ some (n + m) ]
]

pub total-snoc :
    (queue : List (List Text)) (tokens : List Text) (n m : ℕ)
    → total queue ≡ some n
    → size_of tokens ≡ some m
    → total (queue ++ tokens ∷ []) ≡ some (n + m)
unfolding total
total-snoc [] tokens n m e h = rw (h, total) (ground (arith, e))
total-snoc (x ∷ queue) tokens n m e h = elim (Option-cases (size_of x)) [
  | inl q ↦ absurd (ground (arith, e, q))
  | inr (a, q) ↦ elim (Option-cases (total queue)) [
    | inl r ↦ absurd (ground (arith, e, q, r))
    | inr (b, r) ↦ rw (q, total-snoc queue tokens b m r h, total) (ground (arith, e, q, r))
  ]
]

-- The limits, and that a block without a refusal is what was sent.
pub record IsFaithful (s : Session) (sent : List (List Text)) : Type 0 where
  pub kept :
      s.in_transaction ≡ true → s.tx_overflowed ≡ false → s.tx_readonly ≡ false → s.tx_queue ≡ sent
  pub few : length s.tx_queue ≤ max_multi_commands
  pub small : s.tx_bytes ≤ max_multi_bytes
  pub sized : total s.tx_queue ≡ some s.tx_bytes

abbrev pub Stays : List (List Text) → Session × Action → Type 0
Stays sent p = IsFaithful p.0 sent

unfoldable pub Keeps : Session × Action → List (List Text) → Type 0
Keeps p sent = p.1 ≢ fails → IsFaithful p.0 sent

empty-IsFaithful :
    (s : Session) (sent : List (List Text))
    → s.tx_queue ≡ []
    → s.tx_bytes ≡ 0
    → (s.in_transaction ≡ true → [] ≡ sent)
    → IsFaithful s sent
empty-IsFaithful s sent q b k = record {
  kept = λ i o r. q ∙ k i;
  few = rw q (omega arith);
  small = omega (arith, b);
  sized = rw (q, b) (unfold total in refl);
}

pub closed-IsFaithful :
    (s : Session) (sent : List (List Text))
    → s.tx_queue ≡ []
    → s.tx_bytes ≡ 0
    → s.in_transaction ≡ false
    → IsFaithful s sent
closed-IsFaithful s sent q b i = empty-IsFaithful s sent q b (λ e. absurd (ground (arith, e, i)))

-- A property of either branch.
pub choose {ℓ κ} :
    {A : Type ℓ} (P : A → Type κ) (b : Bool) (x y : A)
    → (b ≡ true → P x)
    → (b ≡ false → P y)
    → P (if b then x else y)
choose P true x y f g = f refl
choose P false x y f g = g refl

open_block :
    (s : Session) (sent : List (List Text)) (b : Bool)
    → IsFaithful s sent
    → Stays (if b then sent else []) (
        if b
        then (s, sends (codes "-ERR MULTI calls are not nested\r\n"))
        else (reset_queue (record s { in_transaction = true }), sends (codes "+OK\r\n")))
unfolding reset_queue
open_block s sent true h = h
open_block s sent false h = empty-IsFaithful _ [] refl refl (λ _. refl)

pub multi-IsFaithful :
    (s : Session) (sent : List (List Text)) (tokens : List Text)
    → IsFaithful s sent
    → IsFaithful (handle_multi s).0 (sent_on s sent multi tokens)
unfolding handle_multi sent_on
multi-IsFaithful s sent tokens h = open_block s sent s.in_transaction h

pub discard-IsFaithful :
    (s : Session) (sent : List (List Text))
    → IsFaithful s sent
    → IsFaithful (handle_discard s).0 sent
unfolding handle_discard reset_queue
discard-IsFaithful s sent h =
    choose (Stays sent) s.in_transaction _ _ (λ _. closed-IsFaithful _ sent refl refl refl) (λ _. h)

pub watched-IsFaithful :
    (s : Session) (sent : List (List Text)) (w : Dict Text ℕ)
    → IsFaithful s sent
    → IsFaithful (record s { watched_keys = w }) sent
watched-IsFaithful s sent w h = record {
  kept = h.kept;
  few = h.few;
  small = h.small;
  sized = h.sized;
}

pub watch-IsFaithful :
    (sv : Server) (s : Session) (sent : List (List Text)) (args : List Text)
    → IsFaithful s sent
    → IsFaithful (handle_watch sv s args).0 sent
unfolding handle_watch
watch-IsFaithful sv s sent [] h = choose (Stays sent) s.in_transaction _ _ (λ _. h) (λ _. h)
watch-IsFaithful sv s sent (k ∷ ks) h =
    choose (Stays sent) s.in_transaction _ _ (λ _. h) (λ _. watched-IsFaithful s sent _ h)
