-- ===== src/Store/GroupsRecovered.antt =====
-- A consumer group command of store.py commits records that replay to what it did.
use kedis_python.Prelude.{
  ◌⊎◌, inl, inr, ℕ, ◌≡◌, refl, ap, sym, ◌∙◌, true, Option, none, some, List, ◌∷◌, arith, Text,
  text_eq, codes, Bool-cases,
}
use kedis_python.Dict
use kedis_python.Dict.{Dict, text_key}
use kedis_python.Stream.Id.{ok}
use kedis_python.Stream.Entries.{Stream, new_stream}
use kedis_python.Stream.Records
use kedis_python.Stream.Records.{parse_ids}
use kedis_python.Store.State.{
  Store, Value, string, deque, members, hash, stream, hyperloglog, command, Reply, returns,
  wrong_type, key_error, value_error, stream_error, ◌then_do◌, log_record, log_operation,
  touch_write, bump_version,
}
use kedis_python.Store.Containers.{hold}
use kedis_python.Store.View.{HasRoom}
use kedis_python.Store.Streams.{raising, stream_at, stream_or_none}
use kedis_python.Store.StreamErrors.{raising-returns}
use kedis_python.Store.Replay.{
  Host, replayed, is_group_record, kind_of, hold_ok, replay_group, replay_command,
}
use kedis_python.Store.Alike.{
  touch_write-room, touch_write-IsAlike, hold-IsAlike, log_record-IsAlike,
}
use kedis_python.Store.Recovered.{
  KeepsUpper, IsAwake, evict_if_expired-awake, IsRecovered, IsRecovered-record, replay_record-named,
  then_do-kept,
}
use kedis_python.Store.Groups.{
  GroupRecord, applied, stream_of_record, is_group_kind, apply_group_record, commit_record,
}

-- A call whose end changes nothing that matters.
pub ended-kept {ℓ κ μ} :
    {A : Type ℓ} {B : Type κ} (P : Store → Type μ) (p : Store × Reply A)
    (f : Store → A → Store × Reply B)
    → P p.0
    → ((s : Store) (a : A) → P s → P (f s a).0)
    → P (p then_do f).0
ended-kept P (s, returns a) f h k = k s a h
ended-kept P (s, wrong_type) f h k = h
ended-kept P (s, key_error) f h k = h
ended-kept P (s, value_error) f h k = h
ended-kept P (s, stream_error m) f h k = h

stream_of_record-returns :
    (o : Option Value) (kind : Text) (v : Stream)
    → stream_of_record o kind ≡ returns v
    → ((o ≡ none) × (text_eq kind (codes "XGROUP") ≡ true) × (v ≡ new_stream))
      ⊎ (o ≡ some (stream v))
unfolding stream_of_record
stream_of_record-returns none kind v e = inl (ground (arith, e))
stream_of_record-returns (some (stream w)) kind v e = inr (ground (arith, e))
stream_of_record-returns (some (string t)) kind v e = absurd (ground (arith, e))
stream_of_record-returns (some (deque t)) kind v e = absurd (ground (arith, e))
stream_of_record-returns (some (members t)) kind v e = absurd (ground (arith, e))
stream_of_record-returns (some (hash t)) kind v e = absurd (ground (arith, e))
stream_of_record-returns (some (hyperloglog t)) kind v e = absurd (ground (arith, e))

replay_group-stream :
    (r : Store) (kind key : Text) (args : List Text) (v w : Stream) (n : ℕ)
    → stream_of_record (Dict.get r.data_map key) kind ≡ returns v
    → Records.apply_group_record v kind args ≡ ok (w, n)
    → replay_group r kind key args ≡ replayed (touch_write (hold r key (stream w)) key)
unfolding replay_group hold_ok
replay_group-stream r kind key args v w n e h =
    elim (stream_of_record-returns (Dict.get r.data_map key) kind v e) [
      | inl (absent, x, new) ↦
          let h' : Records.apply_group_record new_stream kind args ≡ ok (w, n) =
            ap (λ z. Records.apply_group_record z kind args) (sym new) ∙ h in
          rw (absent, replay_group, x, h', hold_ok) refl
      | inr found ↦ rw (found, replay_group, h, hold_ok) refl
    ]

-- A kind that a group command commits.
pub record IsKind (host : Host) (kind : Text) : Type 0 where
  pub upper : host.upper kind ≡ kind
  pub replays : kind_of kind ≡ is_group_record kind

module _ (host : Host) (keeps : KeepsUpper host) (start s : Store)
    (h : IsRecovered host start s) where
  same_stream :
      (key kind : Text) (v : Stream)
      → stream_of_record (Dict.get s.data_map key) kind ≡ returns v
      → stream_of_record (Dict.get h.image.data_map key) kind ≡ returns v
  same_stream key kind v e = rw (← h.alike.same_data) e

  applied-IsRecovered :
      (c : ℕ) (cs key arg : Text) (args : List Text) (v w : Stream) (n : ℕ)
      → IsKind host (c ∷ cs)
      → HasRoom s
      → stream_of_record (Dict.get s.data_map key) (c ∷ cs) ≡ returns v
      → Records.apply_group_record v (c ∷ cs) (arg ∷ args) ≡ ok (w, n)
      → IsRecovered host start
          (applied s (record { kind = c ∷ cs; key = key; args = arg ∷ args }) true (w, n)).0
  unfolding applied log_operation replay_command
  applied-IsRecovered c cs key arg args v w n k room e a =
      let x = command ((c ∷ cs) ∷ key ∷ arg ∷ args) in
      let t = hold s key (stream w) in
      let r = hold h.image key (stream w) in
      let roomy : HasRoom t = room in
      IsRecovered-record host start s (log_record (touch_write t key) x) (touch_write r key) x h
        (replay_record-named host h.image (c ∷ cs) (is_group_record (c ∷ cs)) (key ∷ arg ∷ args)
            k.upper k.replays
          ∙ replay_group-stream h.image (c ∷ cs) key (arg ∷ args) v w n
              (same_stream key (c ∷ cs) v e) a)
        (unfold log_record bump_version in rw (touch_write-room t key roomy, h.is_live) refl)
        (unfold log_record bump_version in rw (touch_write-room t key roomy) h.is_live)
        (log_record-IsAlike (touch_write t key) (touch_write r key) x
          (touch_write-IsAlike t r key (hold-IsAlike s h.image key (stream w) h.alike) roomy))

  pub apply-IsRecovered :
      (c : ℕ) (cs key arg : Text) (args : List Text)
      → (is_group_kind (c ∷ cs) ≡ true → IsKind host (c ∷ cs))
      → HasRoom s
      → IsRecovered host start
          (apply_group_record s (record { kind = c ∷ cs; key = key; args = arg ∷ args }) true).0
  unfolding apply_group_record
  apply-IsRecovered c cs key arg args k room = elim (Bool-cases (is_group_kind (c ∷ cs))) [
    | inr q ↦ rw q h
    | inl q ↦ rw q (
        then_do-kept (IsRecovered host start) s
          (stream_of_record (Dict.get s.data_map key) (c ∷ cs)) _ h
          (λ v e.
            then_do-kept (IsRecovered host start) s
              (raising (Records.apply_group_record v (c ∷ cs) (arg ∷ args))) _ h
              (λ p a.
                applied-IsRecovered c cs key arg args v p.0 p.1 (k q) room e
                  (raising-returns _ p a))))
  ]

  outbox-IsRecovered :
      (t : Store) (out : List (List Text))
      → IsRecovered host start t
      → IsRecovered host start (record t { group_outbox = out })
  outbox-IsRecovered t out k = record {
    image = k.image;
    replays = k.replays;
    alike = record {
      same_data = k.alike.same_data;
      same_expires = k.alike.same_expires;
      same_bound = k.alike.same_bound;
      same_count = k.alike.same_count;
      same_keys = k.alike.same_keys;
      unique = k.alike.unique;
      unique' = k.alike.unique';
    };
    is_live = k.is_live;
  }

  pub commit-IsRecovered :
      (c : ℕ) (cs key arg : Text) (args : List Text)
      → IsKind host (c ∷ cs)
      → HasRoom s
      → IsRecovered host start
          (commit_record s (record { kind = c ∷ cs; key = key; args = arg ∷ args })).0
  unfolding commit_record
  commit-IsRecovered c cs key arg args k room =
      let r : GroupRecord = record { kind = c ∷ cs; key = key; args = arg ∷ args } in
      ended-kept (IsRecovered host start) (apply_group_record s r true) _
        (apply-IsRecovered c cs key arg args (λ _. k) room) (λ t n k. outbox-IsRecovered t _ k)

  pub stream-kept {ℓ} :
      {B : Type ℓ} (key : Text) (now : ℕ) (f : Store → Option Stream → Store × Reply B)
      → IsAwake s key now
      → ((held : Option Stream) → IsRecovered host start (f s held).0)
      → IsRecovered host start (stream_or_none s key now then_do f).0
  unfolding stream_or_none
  stream-kept key now f awake k = rw (evict_if_expired-awake s key now awake) (
      then_do-kept (IsRecovered host start) s (stream_at (Dict.get s.data_map key)) f h
        (λ held e. k held))
