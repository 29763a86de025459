-- ===== src/Aof/Crash.antt =====
-- The scan of a whole log, and of a log whose last record a crash has cut off.
use mathlib.Core.List.{append_assoc, append-nil}
use kedis_python.Prelude.{
  ℕ, zero, suc, ◌+◌, ◌<◌, ◌≡◌, ◌≢◌, refl, ◌∙◌, true, List, [], ◌∷◌, ◌++◌, length, take, Bytes, Text,
  All, arith, length-append,
}
use kedis_python.Decimal.{is_digit}
use kedis_python.Decimal.Digits.{print-cons}
use kedis_python.Aof
use kedis_python.Aof.{
  Read, got, stop, newline, encode_tokens, encode_record, read_command, read_record, torn, intact,
  Reason, no_reason, in_record_header, Scan, scan_from, scan, yielding,
}
use kedis_python.Aof.Torn.{IsTorn, IsRecord, read_record-encode_record, read_record-IsTorn}

read_command-framed :
    (c : ℕ) (r : Bytes)
    → is_digit c ≡ true
    → read_command (b'A' ∷ c ∷ r) ≡ read_record (b'A' ∷ c ∷ r)
unfolding read_command
read_command-framed c r h = ground arith

read_command-encode_record :
    (tokens : List Text) (rest : Bytes)
    → IsRecord tokens
    → read_command (encode_record tokens ++ rest) ≡ got tokens (length (encode_record tokens)) rest
read_command-encode_record tokens rest h =
    let (d, r, e, k) = print-cons (length tokens) in
    let whole = read_record-encode_record tokens rest h in
    unfold encode_record in
    rw e (read_command-framed d ((r ++ newline ∷ encode_tokens tokens) ++ rest) k ∙ rw e at whole)

read_command-IsTorn :
    (tokens : List Text) (k : ℕ)
    → IsRecord tokens
    → k < length (encode_record tokens)
    → IsTorn (read_command (take k (encode_record tokens)))
read_command-IsTorn tokens zero h lt = (in_record_header, unfold read_command in refl)
read_command-IsTorn tokens (suc zero) h lt =
    (in_record_header, unfold encode_record read_command in refl)
read_command-IsTorn tokens (suc (suc j)) h lt =
    let (d, r, e, k) = print-cons (length tokens) in
    let (why, cut) = read_record-IsTorn tokens (suc (suc j)) h lt in
    (
      why,
      unfold encode_record in
          rw e
            (read_command-framed d (take j (r ++ newline ∷ encode_tokens tokens)) k ∙ rw e at cut),
    )

-- A command as the log holds it: a record of at least one token.
pub record IsCommand (tokens : List Text) : Type 0 where
  pub nonempty : tokens ≢ []
  pub encodable : IsRecord tokens

-- The log file that a sequence of commands leaves.
unfoldable pub encode_log : List (List Text) → Bytes
encode_log [] = []
encode_log (tokens ∷ log) = encode_record tokens ++ encode_log log

-- The commands of a log, each with the offset just behind its record.
unfoldable pub with_ends : ℕ → List (List Text) → List (List Text × ℕ)
with_ends pos [] = []
with_ends pos (tokens ∷ log) =
    (tokens, pos + length (encode_record tokens))
    ∷ with_ends (pos + length (encode_record tokens)) log

pub scan_from-skip :
    (pos : ℕ) (xs ys : Bytes) → scan_from (length xs) pos (xs ++ ys) ≡ scan_from 0 pos ys
unfolding scan_from
scan_from-skip pos [] ys = refl
scan_from-skip pos (x ∷ xs) ys = scan_from-skip pos xs ys

pub scan_from-got :
    (pos : ℕ) (tokens : List Text) (xs rest : Bytes)
    → 0 < length xs
    → read_command (xs ++ rest) ≡ got tokens (length xs) rest
    → scan_from 0 pos (xs ++ rest)
      ≡ yielding tokens (pos + length xs) (scan_from 0 (pos + length xs) rest)
unfolding scan_from
scan_from-got pos tokens [] rest h e = absurd (omega arith)
scan_from-got pos tokens (x ∷ xs) rest h e =
    ground (arith, e, scan_from-skip (pos + suc (length xs)) xs rest)

pub scan_from-stop :
    (pos : ℕ) (b : ℕ) (r : Bytes) (st : Aof.Status) (why : Reason)
    → read_command (b ∷ r) ≡ stop st why
    → scan_from 0 pos (b ∷ r) ≡ ([], record { status = st; good_end = pos; reason = why })
unfolding scan_from
scan_from-stop pos b r st why e = ground (arith, e)

encode_record_pos : (tokens : List Text) → 0 < length (encode_record tokens)
unfolding encode_record
encode_record_pos tokens = omega arith

yielding-nonempty :
    (tokens : List Text) (end : ℕ) (s : Scan)
    → tokens ≢ []
    → yielding tokens end s ≡ ((tokens, end) ∷ s.0, s.1)
yielding-nonempty [] end s h = absurd (h refl)
yielding-nonempty (t ∷ tokens) end s h = refl

-- A log in front of any other bytes is read command by command.
scan_from-encode_log :
    (pos : ℕ) (log : List (List Text)) (rest : Bytes)
    → All IsCommand log
    → scan_from 0 pos (encode_log log ++ rest) ≡ (
      with_ends pos log ++ (scan_from 0 (pos + length (encode_log log)) rest).0,
      (scan_from 0 (pos + length (encode_log log)) rest).1,
    )
unfolding encode_log with_ends
scan_from-encode_log pos [] rest h = let e : pos + 0 ≡ pos = omega arith in rw e
scan_from-encode_log pos (t ∷ log) rest h =
    let n = length (encode_record t) in
    let tail = encode_log log ++ rest in
    let e : pos + n + length (encode_log log) ≡ pos + length (encode_record t ++ encode_log log) =
      omega (arith, length-append (encode_record t) (encode_log log)) in
    rw (
      append_assoc,
      scan_from-got pos t (encode_record t) tail (encode_record_pos t)
          (read_command-encode_record t tail h.0.encodable),
      yielding-nonempty t (pos + n) (scan_from 0 (pos + n) tail) h.0.nonempty,
      scan_from-encode_log (pos + n) log rest h.1,
      e,
    )

-- The status of a log behind which `k` bytes of a further record stand.
abbrev pub status_of : ℕ → Aof.Status
status_of zero = intact
status_of (suc k) = torn

scan_from-torn :
    (pos : ℕ) (tokens : List Text) (k : ℕ)
    → IsRecord tokens
    → k < length (encode_record tokens)
    → (why : Reason) × (scan_from 0 pos (take k (encode_record tokens))
        ≡ ([], record { status = status_of k; good_end = pos; reason = why }))
scan_from-torn pos tokens zero h lt = (no_reason, unfold scan_from in refl)
scan_from-torn pos tokens (suc k) h lt =
    let (why, e) = read_command-IsTorn tokens (suc k) h lt in
    (why, unfold encode_record in scan_from-stop pos b'A' _ torn why e)

-- A log that a crash has cut off `k` bytes into the record of a further command (`k` = 0: exactly
-- behind a record) yields exactly the commands before that record, in order and with the ends of
-- their records. The status is "torn" unless `k` is 0, and "ok" if it is, never "corrupt";
-- `good_end` is the length of the intact records, so that the repair keeps all of them and nothing
-- else. Conditions: the commands are not empty, their characters are code points, and counts and
-- sizes are below 10 ^ 31.
pub scan-torn_log :
    (log : List (List Text)) (tokens : List Text) (k : ℕ)
    → All IsCommand log
    → IsCommand tokens
    → k < length (encode_record tokens)
    → (why : Reason) × (scan (encode_log log ++ take k (encode_record tokens)) ≡ (
      with_ends 0 log,
      record { status = status_of k; good_end = length (encode_log log); reason = why },
    ))
unfolding scan
scan-torn_log log tokens k h c lt =
    let n = length (encode_log log) in
    let (why, e) = scan_from-torn (0 + n) tokens k c.encodable lt in
    let zero_add : 0 + n ≡ n = omega arith in
    (
      why,
      rw (scan_from-encode_log 0 log (take k (encode_record tokens)) h, e, append-nil, zero_add),
    )
