-- ===== src/Store/AddView.antt =====
-- XADD of store.py by what it leaves at its key: the entry behind the others, and of them all what the
-- trim keeps.
use kedis_python.Prelude.{
  ◌⊎◌, inl, inr, ℕ, ◌+◌, ◌≤◌, ◌≡◌, refl, ap, sym, ◌∙◌, true, false, Option, none, some, List, [],
  ◌∷◌, ◌++◌, arith, if◌then◌else◌, Text, text_eq, ℤ, Bool-cases,
}
use kedis_python.Dict.{text_key}
use kedis_python.Stream.Id.{StreamId, ok, raise_if, bad_maxlen, id_ltb, format_id, u64_max}
use kedis_python.Stream.Entries
use kedis_python.Stream.Entries.{Stream, new_stream}
use kedis_python.Stream.Valid.{IsValid, IsValid-new_stream, add-IsValid, trim-IsValid}
use kedis_python.Stream.Trimmed.{kept, entries, pair_up-snoc, trim-kept}
use kedis_python.Store.State.{
  Store, Value, string, deque, members, hash, stream, hyperloglog, Reply, returns, wrong_type,
  key_error, value_error, stream_error,
}
use kedis_python.Store.Coherent.{IsCoherent}
use kedis_python.Store.View.{view, HasRoom}
use kedis_python.Store.Streams.{
  raising, stream_at, optional_id, trim_added, is_negative, AddOptions, xadd,
}
use kedis_python.Store.StreamErrors.{raising-returns}
use kedis_python.Store.StreamView.{
  ◌then_reply◌, extended, extended_at, add_outcome, Agrees, xadd-Agrees,
}

-- The stream that XADD starts from.
abbrev pub Starts : Option Value → Stream → Type 0
Starts o before = ((o ≡ none) × (before ≡ new_stream)) ⊎ (o ≡ some (stream before))

-- A stream after XADD with an entry.
pub record IsAdded (before : Stream) (fields : List Text) (maxlen : Option ℤ)
    (minid : Option StreamId) (after : Stream) (text : Text) : Type 0 where
  pub above : id_ltb before.last_id after.last_id ≡ true
  pub answer : text ≡ format_id after.last_id
  pub holds : entries after ≡ kept maxlen minid (entries before ++ (after.last_id, fields) ∷ [])
  pub counted : after.entries_added ≡ before.entries_added + 1
  pub valid : IsValid after

trim_added-kept :
    (v v' : Stream) (maxlen : Option ℤ) (minid : Option StreamId) (n : ℕ)
    → IsValid v
    → trim_added v maxlen minid ≡ ok (v', n)
    → (entries v' ≡ kept maxlen minid (entries v))
      × (v'.last_id ≡ v.last_id)
      × (v'.entries_added ≡ v.entries_added)
      × IsValid v'
unfolding trim_added
trim_added-kept v v' none none n w h =
    let e : v ≡ v' = ground (arith, h) in rw (← e) (refl, refl, refl, w)
trim_added-kept v v' (some m) minid n w h =
    let k = trim-kept v v' (some m) minid n w h in
    (k.0, k.1, k.2, trim-IsValid v v' (some m) minid n w h)
trim_added-kept v v' none (some least) n w h =
    let k = trim-kept v v' none (some least) n w h in
    (k.0, k.1, k.2, trim-IsValid v v' none (some least) n w h)

then_reply-returns {ℓ κ} :
    {A : Type ℓ} {B : Type κ} (p : Reply A) (f : A → Reply B) (b : B)
    → (p then_reply f) ≡ returns b
    → (a : A) × (p ≡ returns a) × (f a ≡ returns b)
then_reply-returns (returns a) f b h = (a, refl, h)
then_reply-returns wrong_type f b h = absurd (ground (arith, h))
then_reply-returns key_error f b h = absurd (ground (arith, h))
then_reply-returns value_error f b h = absurd (ground (arith, h))
then_reply-returns (stream_error m) f b h = absurd (ground (arith, h))

extended-IsAdded :
    (v after : Stream) (fields : List Text) (spec text : Text) (maxlen : Option ℤ)
    (minid : Option StreamId) (ms : ℕ)
    → IsValid v
    → ms ≤ u64_max
    → extended v fields spec maxlen minid ms ≡ returns (some (after, text))
    → IsAdded v fields maxlen minid after text
unfolding extended
extended-IsAdded v after fields spec text maxlen minid ms w small h =
    let ((v₁, t₁), p, h₁) = then_reply-returns (raising (Entries.add v fields spec ms)) _ _ h in
    let ((v₂, n), q, h₂) = then_reply-returns (raising (trim_added v₁ maxlen minid)) _ _ h₁ in
    let a = add-IsValid v v₁ fields spec t₁ ms w small (raising-returns _ _ p) in
    let k = trim_added-kept v₁ v₂ maxlen minid n a.0 (raising-returns _ _ q) in
    let same : v₂ ≡ after = ground (arith, h₂) in
    let said : t₁ ≡ text = ground (arith, h₂) in
    let longer : entries v₁ ≡ entries v ++ (v₁.last_id, fields) ∷ [] =
      rw (a.3, a.4) (pair_up-snoc v.ids v.fields v₁.last_id fields w.parallel) in
    rw (← same, ← said)
      (record {
        above = rw k.1 a.1;
        answer = rw k.1 a.2;
        holds = rw k.1 (k.0 ∙ ap (kept maxlen minid) longer);
        counted = k.2 ∙ a.5;
        valid = k.3;
      })

pub stream_at-returns :
    (o : Option Value) (held : Option Stream)
    → stream_at o ≡ returns held
    → ((o ≡ none) × (held ≡ none)) ⊎ ((v : Stream) × (o ≡ some (stream v)) × (held ≡ some v))
unfolding stream_at
stream_at-returns none held h = inl (refl, ground (arith, h))
stream_at-returns (some (stream v)) held h = inr (v, refl, ground (arith, h))
stream_at-returns (some (string t)) held h = absurd (ground (arith, h))
stream_at-returns (some (deque t)) held h = absurd (ground (arith, h))
stream_at-returns (some (members t)) held h = absurd (ground (arith, h))
stream_at-returns (some (hash t)) held h = absurd (ground (arith, h))
stream_at-returns (some (hyperloglog t)) held h = absurd (ground (arith, h))

-- What XADD came to, where it came to a stream.
add_outcome-some :
    (o : Option Value) (fields : List Text) (opts : AddOptions) (ms : ℕ) (after : Stream)
    (text : Text)
    → ((v : Stream) → o ≡ some (stream v) → IsValid v)
    → ms ≤ u64_max
    → add_outcome o fields opts ms ≡ returns (some (after, text))
    → (before : Stream) × (minid : Option StreamId) × Starts o before
      × (optional_id opts.minid ≡ ok minid)
      × IsAdded before fields opts.maxlen minid after text
unfolding add_outcome extended_at
add_outcome-some o fields opts ms after text valid small h =
    let (_, _, h₁) =
      then_reply-returns (raising (raise_if (is_negative opts.maxlen) bad_maxlen)) _ _ h in
    let (minid, p, h₂) = then_reply-returns (raising (optional_id opts.minid)) _ _ h₁ in
    let (held, q, h₃) = then_reply-returns (stream_at o) _ _ h₂ in
    elim (stream_at-returns o held q) [
      | inl (gone, e) ↦
          let e₁ : extended_at none fields opts minid ms ≡ returns (some (after, text)) =
            ap (λ x. extended_at x fields opts minid ms) (sym e) ∙ h₃ in
          elim (Bool-cases opts.nomkstream) [
            | inl b ↦ absurd (ground (arith, e₁, b))
            | inr b ↦ (
              new_stream,
              minid,
              inl (gone, refl),
              raising-returns _ _ p,
              extended-IsAdded new_stream after fields opts.id_spec text opts.maxlen minid ms
                  IsValid-new_stream small (ground (arith, e₁, b)),
            )
          ]
      | inr (v, there, e) ↦
          let e₁ : extended_at (some v) fields opts minid ms ≡ returns (some (after, text)) =
            ap (λ x. extended_at x fields opts minid ms) (sym e) ∙ h₃ in
          (
            v,
            minid,
            inr there,
            raising-returns _ _ p,
            extended-IsAdded v after fields opts.id_spec text opts.maxlen minid ms (valid v there)
                small e₁,
          )
    ]

extended-some :
    (v : Stream) (fields : List Text) (spec : Text) (maxlen : Option ℤ) (minid : Option StreamId)
    (ms : ℕ)
    → extended v fields spec maxlen minid ms ≡ returns none
    → true ≡ false
unfolding extended
extended-some v fields spec maxlen minid ms h =
    let (p, _, h₁) = then_reply-returns (raising (Entries.add v fields spec ms)) _ _ h in
    let (q, _, h₂) = then_reply-returns (raising (trim_added p.0 maxlen minid)) _ _ h₁ in
    ground (arith, h₂)

-- What XADD came to, where it came to nothing.
add_outcome-none :
    (o : Option Value) (fields : List Text) (opts : AddOptions) (ms : ℕ)
    → add_outcome o fields opts ms ≡ returns none
    → (o ≡ none) × (opts.nomkstream ≡ true)
unfolding add_outcome extended_at
add_outcome-none o fields opts ms h =
    let (_, _, h₁) =
      then_reply-returns (raising (raise_if (is_negative opts.maxlen) bad_maxlen)) _ _ h in
    let (minid, p, h₂) = then_reply-returns (raising (optional_id opts.minid)) _ _ h₁ in
    let (held, q, h₃) = then_reply-returns (stream_at o) _ _ h₂ in
    elim (stream_at-returns o held q) [
      | inl (gone, e) ↦
          let e₁ : extended_at none fields opts minid ms ≡ returns none =
            ap (λ x. extended_at x fields opts minid ms) (sym e) ∙ h₃ in
          elim (Bool-cases opts.nomkstream) [
            | inl b ↦ (gone, b)
            | inr b ↦ absurd (
                ground (
                  arith,
                  extended-some new_stream fields opts.id_spec opts.maxlen minid ms
                      (ground (arith, e₁, b)),
                ))
          ]
      | inr (v, there, e) ↦
          let e₁ : extended_at (some v) fields opts minid ms ≡ returns none =
            ap (λ x. extended_at x fields opts minid ms) (sym e) ∙ h₃ in
          absurd (ground (arith, extended-some v fields opts.id_spec opts.maxlen minid ms e₁))
    ]

-- No client sees a change, and nothing is logged.
abbrev pub IsUntouched : Store → ℕ → Store → Type 0
IsUntouched s now t = ((k : Text) → view t now k ≡ view s now k) × (t.log ≡ s.log)

-- What XADD answers and leaves.
unfoldable pub Outcome :
    Store → ℕ → Text → List Text → AddOptions → Store → Reply (Option Text) → Type 0
Outcome s now key fields o t (returns (some text)) =
    (before : Stream) × (after : Stream) × (minid : Option StreamId) × Starts (view s now key)
      before
    × (optional_id o.minid ≡ ok minid)
    × IsAdded before fields o.maxlen minid after text
    × ((k : Text) → view t now k ≡ (if text_eq key k then some (stream after) else view s now k))
Outcome s now key fields o t (returns none) =
    (view s now key ≡ none) × (o.nomkstream ≡ true) × IsUntouched s now t
Outcome s now key fields o t wrong_type = IsUntouched s now t
Outcome s now key fields o t key_error = IsUntouched s now t
Outcome s now key fields o t value_error = IsUntouched s now t
Outcome s now key fields o t (stream_error m) = IsUntouched s now t

Agrees-Outcome :
    (s : Store) (now : ℕ) (key : Text) (fields : List Text) (o : AddOptions) (ms : ℕ)
    (r : Store × Reply (Option Text)) (d : Reply (Option (Stream × Text)))
    → ((v : Stream) → view s now key ≡ some (stream v) → IsValid v)
    → ms ≤ u64_max
    → add_outcome (view s now key) fields o ms ≡ d
    → Agrees s now key r d
    → Outcome s now key fields o r.0 r.1
unfolding Outcome
Agrees-Outcome s now key fields o ms r (returns (some (after, text))) valid small e a =
    let (before, minid, starts, least, added) =
      add_outcome-some (view s now key) fields o ms after text valid small e in
    rw a.answers (before, after, minid, starts, least, added, a.shows)
Agrees-Outcome s now key fields o ms r (returns none) valid small e a =
    let (gone, b) = add_outcome-none (view s now key) fields o ms e in
    rw a.answers (gone, b, (a.shows, a.logs refl))
Agrees-Outcome s now key fields o ms r wrong_type valid small e a =
    rw a.answers (a.shows, a.logs refl)
Agrees-Outcome s now key fields o ms r key_error valid small e a =
    rw a.answers (a.shows, a.logs refl)
Agrees-Outcome s now key fields o ms r value_error valid small e a =
    rw a.answers (a.shows, a.logs refl)
Agrees-Outcome s now key fields o ms r (stream_error m) valid small e a =
    rw a.answers (a.shows, a.logs refl)

-- On a coherent engine with room for one more key, where a stream that a client can see at the key is
-- valid and the clock fits 64 bits, XADD agrees with its checks and changes in their order on what the
-- client can see there. Where it answers an ID, the ID is above every one ever used in the
-- stream, which was the one at the key or, where nothing was to be seen, a new one; the stream at
-- the key now has exactly, in order, what the trim keeps of the entries before with the new one
-- behind them: the last ones up to MAXLEN, and of these those from MINID on; it is valid, its lifetime
-- count is one more, and no other key changes. Where it answers nothing, there was nothing to be seen
-- at the key, under NOMKSTREAM. In that case and where it raises, no key changes for any
-- reader and nothing is logged.
pub xadd-Outcome :
    (s : Store) (key : Text) (fields : List Text) (o : AddOptions) (now ms : ℕ)
    → IsCoherent s
    → HasRoom s
    → ((v : Stream) → view s now key ≡ some (stream v) → IsValid v)
    → ms ≤ u64_max
    → Agrees s now key (xadd s key fields o now ms) (add_outcome (view s now key) fields o ms)
      × Outcome s now key fields o (xadd s key fields o now ms).0 (xadd s key fields o now ms).1
xadd-Outcome s key fields o now ms c room valid small =
    let a = xadd-Agrees s key fields o now ms c room in
    (
      a,
      Agrees-Outcome s now key fields o ms (xadd s key fields o now ms)
          (add_outcome (view s now key) fields o ms) valid small refl a,
    )
