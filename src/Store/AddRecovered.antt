-- ===== src/Store/AddRecovered.antt =====
-- A record of XADD without a trim replays to what xadd of store.py did.
use kedis_python.Prelude.{
  inl, inr, ℕ, ◌≤◌, ◌≡◌, refl, ap, sym, ◌∙◌, Bool, true, Option, none, some, List, [], ◌∷◌, arith,
  Text, text_eq, codes, Bool-cases,
}
use kedis_python.Dict
use kedis_python.Dict.{text_key}
use kedis_python.Stream.Id.{ok, u64_max}
use kedis_python.Stream.Entries
use kedis_python.Stream.Entries.{Stream, new_stream, is_pairs}
use kedis_python.Stream.Valid.{IsValid, IsValid-new_stream, add-ok}
use kedis_python.Stream.Replayed.{add-again}
use kedis_python.Store.State.{Store, stream, command, add_blob, returns, log_operation, touch_write}
use kedis_python.Store.Containers.{hold}
use kedis_python.Store.View.{HasRoom}
use kedis_python.Store.Streams.{
  raising, stream_at, stream_or_none, optional_id, all_bare, log_entry, trim_added, added, xadd_to,
  xadd_at, xadd,
}
use kedis_python.Store.StreamErrors.{raising-returns}
use kedis_python.Store.AddView.{Starts, stream_at-returns}
use kedis_python.Store.Replay.{
  Host, replayed, is_xadd, kind_of, hold_ok, replay_xadd, replay_command, replay_record,
}
use kedis_python.Store.Alike.{hold-IsAlike}
use kedis_python.Store.Recovered.{
  KeepsUpper, IsAwake, evict_if_expired-awake, IsRecovered, IsRecovered-write, replay_record-named,
  then_do-kept,
}

replay_xadd-entry :
    (host : Host) (r : Store) (key text : Text) (fields : List Text) (v w : Stream)
    → Starts (Dict.get r.data_map key) v
    → Entries.add v fields text host.now_ms ≡ ok (w, text)
    → replay_xadd host r key text fields ≡ replayed (touch_write (hold r key (stream w)) key)
unfolding replay_xadd hold_ok
replay_xadd-entry host r key text fields v w (inl (gone, new)) e =
    let e' : Entries.add new_stream fields text host.now_ms ≡ ok (w, text) =
      ap (λ x. Entries.add x fields text host.now_ms) (sym new) ∙ e in
    rw (gone, replay_xadd, e', hold_ok) refl
replay_xadd-entry host r key text fields v w (inr there) e =
    rw (there, replay_xadd, e, hold_ok) refl

replay_command-xadd :
    (host : Host) (r : Store) (key text : Text) (fields : List Text)
    → is_pairs fields ≡ true
    → replay_command host r is_xadd (key ∷ text ∷ fields) ≡ replay_xadd host r key text fields
unfolding replay_command
replay_command-xadd host r key text [] h = absurd (ground (arith, h))
replay_command-xadd host r key text (f ∷ fields) h = refl

module _ (host : Host) (keeps : KeepsUpper host) (start s : Store) (h : IsRecovered host start s)
    (room : HasRoom s) where
  replay-entry :
      (key text : Text) (fields : List Text) (v w : Stream)
      → Starts (Dict.get s.data_map key) v
      → Entries.add v fields text host.now_ms ≡ ok (w, text)
      → replay_xadd host h.image key text fields
        ≡ replayed (touch_write (hold h.image key (stream w)) key)
  replay-entry key text fields v w starts e =
      let same : Starts (Dict.get h.image.data_map key) v = rw (← h.alike.same_data) starts in
      replay_xadd-entry host h.image key text fields v w same e

  added-IsRecovered :
      (key spec text : Text) (fields : List Text) (v w : Stream) (ms : ℕ)
      → Starts (Dict.get s.data_map key) v
      → IsValid v
      → ms ≤ u64_max
      → Entries.add v fields spec ms ≡ ok (w, text)
      → IsRecovered host start (added s key text fields (w, 0)).0
  unfolding added log_entry log_operation replay_record kind_of text_eq
  added-IsRecovered key spec text fields v w ms starts valid small e =
      let again = add-again v w fields spec text ms host.now_ms valid small e in
      let pairs = (add-ok v w fields spec text ms e).2 in
      let replays = replay-entry key text fields v w starts again in
      let t = hold s key (stream w) in
      let r = hold h.image key (stream w) in
      let roomy : HasRoom t = room in
      elim (Bool-cases (all_bare fields)) [
        | inl b ↦ rw b (
            IsRecovered-write host start s t r key (command (codes "XADD" ∷ key ∷ text ∷ fields)) h
              roomy refl h.is_live (hold-IsAlike s h.image key (stream w) h.alike)
              (replay_record-named host h.image (codes "XADD") is_xadd (key ∷ text ∷ fields)
                  (keeps (codes "XADD") (refl, (refl, (refl, (refl, tt))))) refl
                ∙ replay_command-xadd host h.image key text fields pairs
                ∙ replays))
        | inr b ↦ rw b (
            IsRecovered-write host start s t r key (add_blob key text fields) h roomy refl h.is_live
              (hold-IsAlike s h.image key (stream w) h.alike) replays)
      ]

  xadd_to-IsRecovered :
      (key spec : Text) (fields : List Text) (v : Stream) (ms : ℕ)
      → Starts (Dict.get s.data_map key) v
      → IsValid v
      → ms ≤ u64_max
      → IsRecovered host start (xadd_to s key v fields spec none none ms).0
  unfolding xadd_to trim_added raising
  xadd_to-IsRecovered key spec fields v ms starts valid small =
      then_do-kept (IsRecovered host start) s (raising (Entries.add v fields spec ms)) _ h (λ p e.
        added-IsRecovered key spec p.1 fields v p.0 ms starts valid small (raising-returns _ p e))

  xadd_at-IsRecovered :
      (key : Text) (fields : List Text) (id_spec : Text) (nomkstream : Bool) (held : Option Stream)
      (ms : ℕ)
      → stream_at (Dict.get s.data_map key) ≡ returns held
      → ((v : Stream) → Dict.get s.data_map key ≡ some (stream v) → IsValid v)
      → ms ≤ u64_max
      → IsRecovered host start
          (xadd_at s key fields
            (record { id_spec = id_spec; maxlen = none; minid = none; nomkstream = nomkstream })
            none
            held
            ms).0
  unfolding xadd_at
  xadd_at-IsRecovered key fields id_spec nomkstream none ms e valid small =
      elim (stream_at-returns (Dict.get s.data_map key) none e) [
        | inr (v, there, q) ↦ absurd (ground (arith, q))
        | inl (gone, q) ↦ elim (Bool-cases nomkstream) [
          | inl b ↦ rw b h
          | inr b ↦ rw b (
              xadd_to-IsRecovered key id_spec fields new_stream ms (inl (gone, refl))
                IsValid-new_stream small)
        ]
      ]
  xadd_at-IsRecovered key fields id_spec nomkstream (some v) ms e valid small =
      elim (stream_at-returns (Dict.get s.data_map key) (some v) e) [
        | inl (gone, q) ↦ absurd (ground (arith, q))
        | inr (x, there, q) ↦
            let same : x ≡ v = ground (arith, q) in
            let found : Dict.get s.data_map key ≡ some (stream v) =
              there ∙ ap (λ y. some (stream y)) same in
            xadd_to-IsRecovered key id_spec fields v ms (inr found) (valid v found) small
      ]

  pub xadd-IsRecovered :
      (key : Text) (fields : List Text) (id_spec : Text) (nomkstream : Bool) (now ms : ℕ)
      → IsAwake s key now
      → ((v : Stream) → Dict.get s.data_map key ≡ some (stream v) → IsValid v)
      → ms ≤ u64_max
      → IsRecovered host start
          (xadd s key fields
            (record { id_spec = id_spec; maxlen = none; minid = none; nomkstream = nomkstream })
            now
            ms).0
  unfolding xadd stream_or_none raising optional_id
  xadd-IsRecovered key fields id_spec nomkstream now ms awake valid small =
      rw (evict_if_expired-awake s key now awake) (
        then_do-kept (IsRecovered host start) s (stream_at (Dict.get s.data_map key)) _ h
          (λ held e. xadd_at-IsRecovered key fields id_spec nomkstream held ms e valid small))
