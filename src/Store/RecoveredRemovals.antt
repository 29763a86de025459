-- ===== src/Store/RecoveredRemovals.antt =====
-- A record of SREM replays to what srem of store.py did.
use kedis_python.Prelude.{
  inl, inr, ℕ, ◌-◌, ◌≡◌, ◌≢◌, refl, ◌∙◌, true, false, Option, none, some, List, [], ◌∷◌, ltb, arith,
  Text, text_eq, text_eq_refl, codes, length, Bool-cases,
}
use kedis_python.Dict
use kedis_python.Dict.{Dict, text_key}
use kedis_python.Store.State.{
  Store, Value, string, deque, members, hash, stream, hyperloglog, command, Reply, returns,
  wrong_type, log_operation, touch_write,
}
use kedis_python.Store.Containers.{hold, difference_update, removed_state, left_state, srem}
use kedis_python.Store.View.{HasRoom}
use kedis_python.Store.Replay.{
  Host, kind_of, is_srem, replay_command, replay_record, replay_srem, drop_empty,
}
use kedis_python.Store.Alike.{hold-IsAlike, HasRoom-IsAlike}
use kedis_python.Store.Recovered.{
  KeepsUpper, evict_if_expired-awake, IsRecovered, IsRecovered-write, IsRecovered-empty,
  IsRecovered-same, held-IsAlike, replay_record-named, written-data, logged-data,
}
use kedis_python.Dict.{has-get, get-put}
use kedis_python.Store.SetLaws.{
  difference_update-same, replay_srem-set, drop_empty-nil, drop_empty-cons,
}

module _ (host : Host) (keeps : KeepsUpper host) (start s : Store)
    (h : IsRecovered host start s) where
  replay_record-srem :
      (key v : Text) (vs : List Text)
      → replay_record host h.image (command (codes "SREM" ∷ key ∷ v ∷ vs))
        ≡ replay_srem h.image key (v ∷ vs)
  unfolding replay_command kind_of text_eq
  replay_record-srem key v vs =
      replay_record-named host h.image (codes "SREM") is_srem (key ∷ v ∷ vs)
        (keeps (codes "SREM") (refl, (refl, (refl, (refl, tt))))) refl

  removed_left :
      (key v : Text) (vs left : List Text) (n : ℕ)
      → HasRoom s
      → Dict.get s.expires key ≡ none
      → replay_srem h.image key (v ∷ vs)
        ≡ drop_empty (touch_write (hold h.image key (members left)) key) key
      → IsRecovered host start (left_state (removed_state s key left (v ∷ vs) true) key n).0
  unfolding removed_state left_state log_operation
  removed_left key v vs [] n room timeless k =
      let x = command (codes "SREM" ∷ key ∷ v ∷ vs) in
      let roomy = HasRoom-IsAlike h.alike room in
      rw (logged-data s key (members []) x room, left_state)
        (IsRecovered-empty host start s (hold s key (members [])) (hold h.image key (members []))
          key x h room refl h.is_live timeless (hold-IsAlike s h.image key (members []) h.alike)
          (replay_record-srem key v vs
            ∙ k
            ∙ drop_empty-nil _ key (written-data h.image key (members []) roomy)))
  removed_left key v vs (y ∷ ys) n room timeless k =
      let x = command (codes "SREM" ∷ key ∷ v ∷ vs) in
      let new = members (y ∷ ys) in
      let roomy = HasRoom-IsAlike h.alike room in
      rw (logged-data s key new x room, left_state)
        (IsRecovered-write host start s (hold s key new) (hold h.image key new) key x h room refl
          h.is_live (hold-IsAlike s h.image key new h.alike)
          (replay_record-srem key v vs
            ∙ k
            ∙ drop_empty-cons _ key y ys (written-data h.image key new roomy)))

  kept_set :
      (key : Text) (held items : List Text) (n : ℕ)
      → Dict.get s.data_map key ≡ some (members held)
      → held ≢ []
      → IsRecovered host start (left_state (removed_state s key held items false) key n).0
  unfolding removed_state left_state
  kept_set key [] items n found full = absurd (full refl)
  kept_set key (y ∷ ys) items n found full =
      let there : Dict.get (Dict.put s.data_map key (members (y ∷ ys))) key
          ≡ some (members (y ∷ ys)) =
        get-put s.data_map key key (members (y ∷ ys)) ∙ rw (text_eq_refl key) refl in
      rw (there, left_state)
        (IsRecovered-same host start s (hold s key (members (y ∷ ys))) h refl h.is_live
          (held-IsAlike s h.image key (members (y ∷ ys)) found h.alike))

  srem_set :
      (key v : Text) (vs held : List Text)
      → HasRoom s
      → Dict.get s.expires key ≡ none
      → Dict.get s.data_map key ≡ some (members held)
      → held ≢ []
      → IsRecovered host start
          (let left = difference_update held (v ∷ vs) in
            let removed = length held - length left in
            left_state (removed_state s key left (v ∷ vs) (ltb 0 removed)) key removed).0
  srem_set key v vs held room timeless found full =
      let left = difference_update held (v ∷ vs) in
      let removed = length held - length left in
      elim (Bool-cases (ltb 0 removed)) [
        | inl some' ↦ rw some' (
            removed_left key v vs left removed room timeless
              (replay_srem-set h.image key held (v ∷ vs) (rw (← h.alike.same_data) found)))
        | inr none' ↦
            let same : left ≡ held = difference_update-same held (v ∷ vs) (ground (arith, none')) in
            rw (none', same) (kept_set key held (v ∷ vs) (length held - length held) found full)
      ]

  srem_value :
      (key v : Text) (vs : List Text) (o : Option Value)
      → HasRoom s
      → Dict.get s.expires key ≡ none
      → ((held : List Text) → Dict.get s.data_map key ≡ some (members held) → held ≢ [])
      → Dict.get s.data_map key ≡ o
      → IsRecovered host start
          (elim o as (λ _. Store × Reply ℕ) [
            | none ↦ (s, returns 0)
            | some (members held) ↦
                let left = difference_update held (v ∷ vs) in
                let removed = length held - length left in
                left_state (removed_state s key left (v ∷ vs) (ltb 0 removed)) key removed
            | some v ↦ (s, wrong_type)
          ]).0
  srem_value key v vs none room timeless full e = h
  srem_value key v vs (some (members held)) room timeless full e =
      srem_set key v vs held room timeless e (full held e)
  srem_value key v vs (some (string t)) room timeless full e = h
  srem_value key v vs (some (deque t)) room timeless full e = h
  srem_value key v vs (some (hash t)) room timeless full e = h
  srem_value key v vs (some (stream t)) room timeless full e = h
  srem_value key v vs (some (hyperloglog t)) room timeless full e = h

  pub srem-IsRecovered :
      (key v : Text) (vs : List Text) (now : ℕ)
      → Dict.get s.expires key ≡ none
      → ((held : List Text) → Dict.get s.data_map key ≡ some (members held) → held ≢ [])
      → HasRoom s
      → IsRecovered host start (srem s key (v ∷ vs) now).0
  unfolding srem
  srem-IsRecovered key v vs now timeless full room =
      rw (evict_if_expired-awake s key now (rw timeless refl))
        (srem_value key v vs (Dict.get s.data_map key) room timeless full refl)
