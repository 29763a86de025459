-- ===== src/Store/RecoveredSets.antt =====
-- The commands of store.py on sets and hashes: the log still replays to the data after them.
use kedis_python.Prelude.{
  inl, inr, ℕ, ◌-◌, ◌≤◌, ◌≡◌, refl, ap, sym, ◌∙◌, true, some, List, [], ◌∷◌, ltb, arith, Text,
  text_eq, codes, length, Bool-cases,
}
use kedis_python.Dict
use kedis_python.Dict.{Dict, text_key}
use kedis_python.Store.State.{
  Store, Value, members, hash, command, returns, tracks, log_operation, touch_write,
}
use kedis_python.Store.Containers.{
  hold, set_or_new, hash_or_new, update, sadd, smembers, hset, hget, hgetall,
}
use kedis_python.Store.View.{HasRoom}
use kedis_python.Store.Replay.{
  Host, kind_of, is_sadd, is_hset, join_words, replay_command, replay_record, replay_sadd,
  replay_hset,
}
use kedis_python.Store.Alike.{hold-IsAlike}
use kedis_python.Store.Recovered.{
  KeepsUpper, IsAwake, evict_if_expired-awake, IsRecovered, IsRecovered-write, IsRecovered-still,
  IsRecovered-read, held-IsAlike, replay_record-named, then_do-kept,
}
use kedis_python.Store.Coherent.{IsCoherent}
use kedis_python.Dict.{has-get, get-put}
use kedis_python.Store.SetLaws.{
  update-same, update-nonempty, set_or_new-returns, replay_sadd-set, replay_hset-hash,
}

module _ (host : Host) (keeps : KeepsUpper host) (start s : Store)
    (h : IsRecovered host start s) where
  replay_record-sadd :
      (key v : Text) (vs : List Text)
      → replay_record host h.image (command (codes "SADD" ∷ key ∷ v ∷ vs))
        ≡ replay_sadd h.image key (v ∷ vs)
  unfolding replay_command kind_of text_eq
  replay_record-sadd key v vs =
      replay_record-named host h.image (codes "SADD") is_sadd (key ∷ v ∷ vs)
        (keeps (codes "SADD") (refl, (refl, (refl, (refl, tt))))) refl

  replay_record-hset :
      (key field value : Text)
      → replay_record host h.image (command (codes "HSET" ∷ key ∷ field ∷ value ∷ []))
        ≡ replay_hset h.image key field value
  unfolding replay_command kind_of text_eq join_words
  replay_record-hset key field value =
      replay_record-named host h.image (codes "HSET") is_hset (key ∷ field ∷ value ∷ [])
        (keeps (codes "HSET") (refl, (refl, (refl, (refl, tt))))) refl

  -- A key with data is tracked.
  found_tracked :
      (key : Text) (v : Value)
      → IsCoherent s
      → Dict.get s.data_map key ≡ some v
      → tracks s.tracker key ≡ true
  found_tracked key v c e = sym (c.ready.held key) ∙ has-get s.data_map key ∙ rw e refl

  grown :
      (key v : Text) (vs held : List Text)
      → HasRoom s
      → set_or_new (Dict.get s.data_map key) ≡ returns held
      → IsRecovered host start (
          touch_write
            (log_operation
              (hold s key (members (update held (v ∷ vs))))
              (codes "SADD" ∷ key ∷ v ∷ vs))
            key)
  unfolding log_operation
  grown key v vs held room e =
      let new = members (update held (v ∷ vs)) in
      IsRecovered-write host start s (hold s key new) (hold h.image key new) key
        (command (codes "SADD" ∷ key ∷ v ∷ vs)) h room refl h.is_live
        (hold-IsAlike s h.image key new h.alike)
        (replay_record-sadd key v vs
          ∙ replay_sadd-set h.image key held (v ∷ vs) (rw (← h.alike.same_data) e))

  unchanged :
      (key v : Text) (vs held : List Text)
      → IsCoherent s
      → HasRoom s
      → set_or_new (Dict.get s.data_map key) ≡ returns held
      → length (update held (v ∷ vs)) ≤ length held
      → IsRecovered host start (touch_write (hold s key (members (update held (v ∷ vs)))) key)
  unchanged key v vs held c room e short =
      elim (set_or_new-returns (Dict.get s.data_map key) held e) [
        | inl (absent, nil) ↦ absurd (
            omega (
              arith,
              update-nonempty v vs,
              ap (λ x. length (update x (v ∷ vs))) nil,
              ap length nil,
              short,
            ))
        | inr found ↦
            let same = update-same held (v ∷ vs) short in
            rw same (
              IsRecovered-still host start s (hold s key (members held)) key h room refl h.is_live
                (found_tracked key (members held) c found)
                (held-IsAlike s h.image key (members held) found h.alike))
      ]

  pub sadd-IsRecovered :
      (key v : Text) (vs : List Text) (now : ℕ)
      → IsCoherent s
      → IsAwake s key now
      → HasRoom s
      → IsRecovered host start (sadd s key (v ∷ vs) now).0
  unfolding sadd
  sadd-IsRecovered key v vs now c awake room = rw (evict_if_expired-awake s key now awake) (
      then_do-kept (IsRecovered host start) s (set_or_new (Dict.get s.data_map key)) _ h (λ held e.
        elim (Bool-cases (ltb 0 (length (update held (v ∷ vs)) - length held))) [
          | inl more ↦ rw more (grown key v vs held room e)
          | inr none' ↦ rw none' (unchanged key v vs held c room e (ground (arith, none')))
        ]))

  pub smembers-IsRecovered :
      (key : Text) (now : ℕ) → IsAwake s key now → IsRecovered host start (smembers s key now).0
  unfolding smembers
  smembers-IsRecovered key now awake =
      rw (evict_if_expired-awake s key now awake) (IsRecovered-read host start s key h)

  pub hget-IsRecovered :
      (key field : Text) (now : ℕ)
      → IsAwake s key now
      → IsRecovered host start (hget s key field now).0
  unfolding hget
  hget-IsRecovered key field now awake =
      rw (evict_if_expired-awake s key now awake) (IsRecovered-read host start s key h)

  pub hgetall-IsRecovered :
      (key : Text) (now : ℕ) → IsAwake s key now → IsRecovered host start (hgetall s key now).0
  unfolding hgetall
  hgetall-IsRecovered key now awake =
      rw (evict_if_expired-awake s key now awake) (IsRecovered-read host start s key h)

  pub hset-IsRecovered :
      (key field value : Text) (now : ℕ)
      → IsAwake s key now
      → HasRoom s
      → IsRecovered host start (hset s key field value now).0
  unfolding hset log_operation
  hset-IsRecovered key field value now awake room = rw (evict_if_expired-awake s key now awake) (
      then_do-kept (IsRecovered host start) s (hash_or_new (Dict.get s.data_map key)) _ h
        (λ fields e.
          let new = hash (Dict.put fields field value) in
          IsRecovered-write host start s (hold s key new) (hold h.image key new) key
            (command (codes "HSET" ∷ key ∷ field ∷ value ∷ [])) h room refl h.is_live
            (hold-IsAlike s h.image key new h.alike)
            (replay_record-hset key field value
              ∙ replay_hset-hash h.image key fields field value (rw (← h.alike.same_data) e))))
