-- ===== src/Store/Recovered.antt =====
-- An engine of store.py whose log replays to the same data: what a read, a record or a written key does
-- to that.
use kedis_python.Prelude.{
  inl, inr, ℕ, ◌≡◌, refl, ap, ◌∙◌, true, false, ◌&&◌, not, none, some, List, [], ◌∷◌, ◌++◌, ltb,
  leb, arith, if◌then◌else◌, Text, text_eq_refl, All, Bool-cases, ◌⊎◌,
}
use kedis_python.Dict
use kedis_python.Dict.{Dict, text_key, get-put}
use kedis_python.Store.State.{
  Store, Value, Record, command, Reply, returns, wrong_type, key_error, value_error, stream_error,
  ◌then_do◌, log_record, touch_read, touch_write, evict_if_expired, bump_version, tracks,
  lru_invalidate,
}
use kedis_python.Store.Keys.{drop_key}
use kedis_python.Store.Containers.{hold}
use kedis_python.Store.View.{HasRoom, is_due}
use kedis_python.Store.Replay.{
  Host, Replayed, replayed, crashed, ◌and_then◌, Kind, kind_of, replay_command, replay_record,
  replay,
}
use kedis_python.Store.Alike.{
  IsAlike, touch_write-room, touch_write-IsAlike, touch_read-IsAlike, log_record-IsAlike,
  lru_invalidate-IsAlike, moved-IsAlike, bump_version-IsAlike,
}

-- `str.upper` leaves ASCII text without lower-case letters as it is.
abbrev pub KeepsUpper : Host → Type 0
KeepsUpper host =
    (t : Text) → All (λ c. (ltb c 128 && not (leb 97 c && leb c 122)) ≡ true) t → host.upper t ≡ t

-- The time of the key, if it has one, has not come.
abbrev pub IsAwake : Store → Text → ℕ → Type 0
IsAwake s key now = is_due (Dict.get s.expires key) now ≡ false

pub evict_if_expired-awake :
    (s : Store) (key : Text) (now : ℕ)
    → IsAwake s key now
    → evict_if_expired s key now ≡ (s, returns false)
unfolding evict_if_expired
evict_if_expired-awake s key now h = ground (arith, h)

Replayed-cases : (x : Replayed) → (x ≡ crashed) ⊎ ((s : Store) × (x ≡ replayed s))
Replayed-cases crashed = inl refl
Replayed-cases (replayed s) = inr (s, refl)

replay-append :
    (host : Host) (s : Store) (xs ys : List Record)
    → replay host s (xs ++ ys) ≡ (replay host s xs and_then λ r. replay host r ys)
unfolding replay
replay-append host s [] ys = refl
replay-append host s (x ∷ xs) ys = elim (Replayed-cases (replay_record host s x)) [
  | inl e ↦ rw (e, replay) refl
  | inr (r, e) ↦ rw (e, replay) (replay-append host r xs ys)
]

-- The log of a live engine replays, from an engine, to one that is alike.
pub record IsRecovered (host : Host) (start s : Store) : Type 0 where
  pub image : Store
  pub replays : replay host start s.log ≡ replayed image
  pub alike : IsAlike s image
  pub is_live : s.is_recovering ≡ false

-- A state with one more record in its log.
pub IsRecovered-record :
    (host : Host) (start s s' r' : Store) (x : Record) (h : IsRecovered host start s)
    → replay_record host h.image x ≡ replayed r'
    → s'.log ≡ s.log ++ x ∷ []
    → s'.is_recovering ≡ false
    → IsAlike s' r'
    → IsRecovered host start s'
unfolding replay
IsRecovered-record host start s s' r' x h e l live a = record {
  image = r';
  replays = rw (l, replay-append host start s.log (x ∷ []), h.replays, e) refl;
  alike = a;
  is_live = live;
}

-- A key that is written: the change of the data, the record, the touch.
pub IsRecovered-write :
    (host : Host) (start s t r : Store) (key : Text) (x : Record) (h : IsRecovered host start s)
    → HasRoom t
    → t.log ≡ s.log
    → t.is_recovering ≡ false
    → IsAlike t r
    → replay_record host h.image x ≡ replayed (touch_write r key)
    → IsRecovered host start (touch_write (log_record t x) key)
IsRecovered-write host start s t r key x h room same live a e =
    let logged : HasRoom (log_record t x) = unfold log_record in room in
    IsRecovered-record host start s (touch_write (log_record t x) key) (touch_write r key) x h e
      (unfold log_record bump_version in
        rw (touch_write-room (log_record t x) key logged, live, same) refl)
      (unfold log_record bump_version in rw (touch_write-room (log_record t x) key logged) live)
      (touch_write-IsAlike (log_record t x) r key (log_record-IsAlike t r x a) logged)

remove-absent :
    {V : Type 0} (d : Dict Text V) (k : Text) → Dict.get d k ≡ none → Dict.remove d k ≡ d
unfolding Dict.get Dict.remove
remove-absent [] k h = refl
remove-absent ((j, v) ∷ d) k h = ground (arith, h, remove-absent d k)

removed-IsAlike :
    (s r : Store) (key : Text)
    → Dict.get s.expires key ≡ none
    → IsAlike s r
    → IsAlike
        (record s { data_map = Dict.remove s.data_map key; expires = Dict.remove s.expires key })
        (record r { data_map = Dict.remove r.data_map key })
removed-IsAlike s r key e a = record {
  same_data = ap (λ d. Dict.remove d key) a.same_data;
  same_expires = remove-absent s.expires key e ∙ a.same_expires;
  same_bound = a.same_bound;
  same_count = a.same_count;
  same_keys = a.same_keys;
  unique = a.unique;
  unique' = a.unique';
}

-- A key without a time that a record leaves empty.
pub IsRecovered-empty :
    (host : Host) (start s t r : Store) (key : Text) (x : Record) (h : IsRecovered host start s)
    → HasRoom t
    → t.log ≡ s.log
    → t.is_recovering ≡ false
    → Dict.get t.expires key ≡ none
    → IsAlike t r
    → replay_record host h.image x
      ≡ replayed (
          lru_invalidate
            (record (touch_write r key) { data_map = Dict.remove (touch_write r key).data_map key })
            key)
    → IsRecovered host start (drop_key (touch_write (log_record t x) key) key)
IsRecovered-empty host start s t r key x h room same live timeless a e =
    let logged : HasRoom (log_record t x) = unfold log_record in room in
    let written = touch_write-IsAlike (log_record t x) r key (log_record-IsAlike t r x a) logged in
    let timeless' : Dict.get (touch_write (log_record t x) key).expires key ≡ none =
      unfold log_record bump_version in
      rw (touch_write-room (log_record t x) key logged) timeless in
    IsRecovered-record host start s _ _ x h e
      (unfold log_record bump_version drop_key lru_invalidate in
        rw (touch_write-room (log_record t x) key logged, live, same) refl)
      (unfold log_record bump_version drop_key lru_invalidate in
        rw (touch_write-room (log_record t x) key logged) live)
      (unfold drop_key in
        lru_invalidate-IsAlike _ _ key (
          removed-IsAlike (touch_write (log_record t x) key) (touch_write r key) key timeless'
            written))

pub IsRecovered-read :
    (host : Host) (start s : Store) (key : Text)
    → IsRecovered host start s
    → IsRecovered host start (touch_read s key)
IsRecovered-read host start s key h = record {
  image = h.image;
  replays =
      unfold touch_read in
      elim (Bool-cases (tracks s.tracker key)) [ inl e ↦ rw e h.replays | inr e ↦ rw e h.replays ];
  alike = touch_read-IsAlike s h.image key h.alike;
  is_live =
      unfold touch_read in
      elim (Bool-cases (tracks s.tracker key)) [ inl e ↦ rw e h.is_live | inr e ↦ rw e h.is_live ];
}

-- A record whose name is in host case is told apart by that name.
pub replay_record-named :
    (host : Host) (r : Store) (name : Text) (kind : Kind) (ws : List Text)
    → host.upper name ≡ name
    → kind_of name ≡ kind
    → replay_record host r (command (name ∷ ws)) ≡ replay_command host r kind ws
unfolding replay_record
replay_record-named host r name kind ws e k = rw (e, k) refl

-- A method that goes on only where a part of it returned.
pub then_do-kept {ℓ κ μ} :
    {A : Type ℓ} {B : Type κ} (P : Store → Type μ) (s : Store) (p : Reply A)
    (f : Store → A → Store × Reply B)
    → P s
    → ((a : A) → p ≡ returns a → P (f s a).0)
    → P ((s, p) then_do f).0
then_do-kept P s (returns a) f h k = k a refl
then_do-kept P s wrong_type f h k = h
then_do-kept P s key_error f h k = h
then_do-kept P s value_error f h k = h
then_do-kept P s (stream_error m) f h k = h

-- What a write has put at its key is there after it.
pub written-data :
    (s : Store) (key : Text) (v : Value)
    → HasRoom s
    → Dict.get (touch_write (hold s key v) key).data_map key ≡ some v
unfolding bump_version
written-data s key v room =
    let roomy : HasRoom (hold s key v) = room in
    rw (touch_write-room (hold s key v) key roomy) (
      get-put s.data_map key key v
      ∙ ap (λ b. if b then some v else Dict.get s.data_map key) (text_eq_refl key))

pub logged-data :
    (s : Store) (key : Text) (v : Value) (x : Record)
    → HasRoom s
    → Dict.get (touch_write (log_record (hold s key v) x) key).data_map key ≡ some v
unfolding log_record
logged-data s key v x room =
    written-data (record s { log = if s.is_recovering then s.log else s.log ++ x ∷ [] }) key v room

-- A write that changed nothing and left no record, of a key that is there.
pub IsRecovered-still :
    (host : Host) (start s t : Store) (key : Text) (h : IsRecovered host start s)
    → HasRoom t
    → t.log ≡ s.log
    → t.is_recovering ≡ false
    → tracks t.tracker key ≡ true
    → IsAlike t h.image
    → IsRecovered host start (touch_write t key)
unfolding bump_version
IsRecovered-still host start s t key h room same live there a =
    rw (touch_write-room t key room) (record {
      image = h.image;
      replays = rw same h.replays;
      alike =
          moved-IsAlike (bump_version t key) h.image key there
            (bump_version-IsAlike t h.image key a);
      is_live = live;
    })

pub IsRecovered-same :
    (host : Host) (start s t : Store) (h : IsRecovered host start s)
    → t.log ≡ s.log
    → t.is_recovering ≡ false
    → IsAlike t h.image
    → IsRecovered host start t
IsRecovered-same host start s t h same live a = record {
  image = h.image;
  replays = rw same h.replays;
  alike = a;
  is_live = live;
}

put-same :
    {V : Type 0} (d : Dict Text V) (k : Text) (v : V) → Dict.get d k ≡ some v → Dict.put d k v ≡ d
unfolding Dict.get Dict.put
put-same [] k v h = absurd (ground (arith, h))
put-same ((j, w) ∷ d) k v h = ground (arith, h, put-same d k v)

-- Putting back what is there.
pub held-IsAlike :
    (s r : Store) (key : Text) (v : Value)
    → Dict.get s.data_map key ≡ some v
    → IsAlike s r
    → IsAlike (hold s key v) r
held-IsAlike s r key v e a = record {
  same_data = put-same s.data_map key v e ∙ a.same_data;
  same_expires = a.same_expires;
  same_bound = a.same_bound;
  same_count = a.same_count;
  same_keys = a.same_keys;
  unique = a.unique;
  unique' = a.unique';
}
