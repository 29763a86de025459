-- ===== src/Stream/Replayed.antt =====
-- An entry that `Stream.add` of stream.py has added is added again, with the same ID, by its ID's text.
use kedis_python.Prelude.{
  ℕ, ◌≤◌, ◌≡◌, refl, true, false, none, List, [], ◌∷◌, All, All-map, All-append, ◌==◌, arith, Text,
  text_eq, codes,
}
use kedis_python.Decimal
use kedis_python.Decimal.Digits.{All-is_digit-print}
use kedis_python.Stream.Id.{StreamId, ok, u64_max, format_id}
use kedis_python.Stream.IdLaws.{parse_id-format_id}
use kedis_python.Stream.Entries.{Stream, before_auto_seq, explicit_id, next_id, add}
use kedis_python.Stream.Valid.{IsValid, IsNext, next_id-IsNext, add-ok}

abbrev IsStarless : Text → Type 0
IsStarless t = All (λ c. (c == b'*') ≡ false) t

before_auto_seq-none : (t : Text) → IsStarless t → before_auto_seq t ≡ none
unfolding before_auto_seq
before_auto_seq-none [] h = refl
before_auto_seq-none (a ∷ []) h = refl
before_auto_seq-none (a ∷ b ∷ []) h = ground (arith, h)
before_auto_seq-none (a ∷ b ∷ c ∷ s) h = rw (before_auto_seq-none (b ∷ c ∷ s) h.1) refl

not_star : (t : Text) → IsStarless t → text_eq t (codes "*") ≡ false
unfolding text_eq
not_star [] h = refl
not_star (c ∷ t) h = ground (arith, h.0)

digits-IsStarless : (n : ℕ) → IsStarless (Decimal.print n)
digits-IsStarless n =
    All-map (λ c. Decimal.is_digit c ≡ true) (λ c. (c == b'*') ≡ false) (Decimal.print n)
      (λ c e. ground (arith, e)) (All-is_digit-print n)

format_id-IsStarless : (sid : StreamId) → IsStarless (format_id sid)
unfolding format_id
format_id-IsStarless sid =
    All-append (λ c. (c == b'*') ≡ false) (Decimal.print sid.ms) (b'-' ∷ Decimal.print sid.seq)
      (digits-IsStarless sid.ms) (refl, digits-IsStarless sid.seq)

next_id-format_id :
    (last sid : StreamId) (now : ℕ) → IsNext last sid → next_id last (format_id sid) now ≡ ok sid
unfolding next_id explicit_id
next_id-format_id last sid now h =
    rw
      (
        not_star (format_id sid) (format_id-IsStarless sid),
        before_auto_seq-none (format_id sid) (format_id-IsStarless sid),
        parse_id-format_id sid h.1,
      )
      (ground (arith, h.0))

-- What is replayed for an entry gives the stream with that entry.
pub add-again :
    (v w : Stream) (fields : List Text) (spec text : Text) (ms now : ℕ)
    → IsValid v
    → ms ≤ u64_max
    → add v fields spec ms ≡ ok (w, text)
    → add v fields text now ≡ ok (w, text)
unfolding add
add-again v w fields spec text ms now valid small h =
    let (sid, q, pairs, t, e) = add-ok v w fields spec text ms h in
    let next = next_id-IsNext v.last_id spec ms sid valid.top_fits small q in
    rw (t, pairs, next_id-format_id v.last_id sid now next, e) refl
