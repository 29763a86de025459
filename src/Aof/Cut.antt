-- ===== src/Aof/Cut.antt =====
-- Every command that the scan reads is read alike once the file is cut behind it or later.
use mathlib.Core.List.{append_assoc, append-nil}
use mathlib.Core.Path.{subst}
use kedis_python.Prelude.{
  ℕ, zero, suc, ◌+◌, ◌≤◌, ◌≡◌, refl, ◌∙◌, false, none, some, ◌==◌, List, [], ◌∷◌, ◌++◌, length,
  take, Bytes, Text, arith, Bool-cases, inl, inr, Option-cases,
}
use kedis_python.Aof.Framing.{split_line-line}
use kedis_python.Aof.{
  Read, got, newline, split_line, read_header, read_legacy, read_command, read_record, is_alpha,
  array_header_too_long, in_record_header,
}
use kedis_python.Aof.Local.{read_record-IsLocal}
use kedis_python.Aof.LocalParts.{
  continue-got, then-got, split_line-some, length-line, read_header-got,
}

take-nil {ℓ} : {A : Type ℓ} (k : ℕ) → ◌≡◌ {A = List A} (take k []) []
take-nil zero = refl
take-nil (suc k) = refl

-- What a command took it takes again, in front of any part of what followed.
abbrev pub IsCuttable : (Bytes → Read (List Text)) → Bytes → List Text → ℕ → Bytes → Type 0
IsCuttable read bs tokens n rest =
    (pre : Bytes) × (bs ≡ pre ++ rest)
    × (length pre ≡ n)
    × ((k : ℕ) → read (pre ++ take k rest) ≡ got tokens n (take k rest))

legacy_whole :
    (bs : Bytes) (tokens : List Text) (n : ℕ) (rest : Bytes)
    → split_line bs ≡ none
    → read_legacy bs ≡ got tokens n rest
    → (rest ≡ []) × (length bs ≡ n)
unfolding read_legacy
legacy_whole bs tokens n rest e h = (ground arith, ground arith)

legacy_line :
    (bs : Bytes) (tokens : List Text) (n : ℕ) (rest line r : Bytes)
    → split_line bs ≡ some (line, r)
    → read_legacy bs ≡ got tokens n rest
    → (rest ≡ r)
      × (length line + 1 ≡ n)
      × ((other : Bytes)
          → split_line (line ++ newline ∷ other) ≡ some (line, other)
          → read_legacy (line ++ newline ∷ other) ≡ got tokens n other)
unfolding read_legacy
legacy_line bs tokens n rest line r e h = (ground arith, ground arith, λ other e'. ground arith)

-- A legacy line, which has no newline only where the file ends.
read_legacy-cut :
    (bs : Bytes) (tokens : List Text) (n : ℕ) (rest : Bytes)
    → read_legacy bs ≡ got tokens n rest
    → IsCuttable read_legacy bs tokens n rest
read_legacy-cut bs tokens n rest h = elim (Option-cases (split_line bs)) [
  | inl e ↦
      let (empty, len) = legacy_whole bs tokens n rest e h in
      let whole : read_legacy bs ≡ got tokens n [] = rw empty at h in
      (bs, rw (empty, append-nil) refl, len, λ k. rw (empty, take-nil k, append-nil) whole)
  | inr ((line, r), e) ↦
      let (same, len, again) = legacy_line bs tokens n rest line r e h in
      let (split, clean) = split_line-some bs (line, r) e in
      (
        line ++ newline ∷ [],
        rw (append_assoc, same) split,
        length-line line ∙ len,
        λ k. rw append_assoc (again (take k rest) (split_line-line line (take k rest) clean)),
      )
]

-- A reader that agrees with a cuttable one, where the first byte is kept, or the first two.
agree-cut :
    (read read' : Bytes → Read (List Text)) (b : ℕ) (r : Bytes) (ts : List Text) (n : ℕ)
    (rest : Bytes)
    → 1 ≤ n
    → ((s : Bytes) → read (b ∷ s) ≡ read' (b ∷ s))
    → IsCuttable read' (b ∷ r) ts n rest
    → IsCuttable read (b ∷ r) ts n rest
agree-cut read read' b r ts n rest pos same ([], split, len, again) = absurd (omega arith)
agree-cut read read' b r ts n rest pos same (d ∷ pre, split, len, again) =
    let e : b ≡ d = cc in (d ∷ pre, split, len, λ k. rw e at (same (pre ++ take k rest)) ∙ again k)

agree-cut_two :
    (read read' : Bytes → Read (List Text)) (b c : ℕ) (r : Bytes) (ts : List Text) (n : ℕ)
    (rest : Bytes)
    → 2 ≤ n
    → ((s : Bytes) → read (b ∷ c ∷ s) ≡ read' (b ∷ c ∷ s))
    → IsCuttable read' (b ∷ c ∷ r) ts n rest
    → IsCuttable read (b ∷ c ∷ r) ts n rest
agree-cut_two read read' b c r ts n rest pos same ([], split, len, again) = absurd (omega arith)
agree-cut_two read read' b c r ts n rest pos same (d ∷ [], split, len, again) = absurd (omega arith)
agree-cut_two read read' b c r ts n rest pos same (d ∷ e ∷ pre, split, len, again) =
    let first : b ≡ d = cc in
    let second : c ≡ e = cc in
    (d ∷ e ∷ pre, split, len, λ k. rw (first, second) at (same (pre ++ take k rest)) ∙ again k)

legacy-takes_two :
    (c : ℕ) (r : Bytes) (ts : List Text) (n : ℕ) (rest : Bytes)
    → read_legacy (b'A' ∷ c ∷ r) ≡ got ts n rest
    → 2 ≤ n
unfolding read_legacy split_line
legacy-takes_two c r ts n rest h = ground arith

split_line-takes_one : (r line s : Bytes) → split_line (b'A' ∷ r) ≡ some (line, s) → 1 ≤ length line
unfolding split_line
split_line-takes_one r line s h = ground arith

record-takes_two :
    (r : Bytes) (ts : List Text) (n : ℕ) (rest : Bytes)
    → read_record (b'A' ∷ r) ≡ got ts n rest
    → 2 ≤ n
unfolding read_record
record-takes_two r ts n rest h =
    let (line, m, s, e, h') =
      then-got _ ts n rest (read_header array_header_too_long in_record_header (b'A' ∷ r)) h in
    let (k, _, size) = continue-got _ ts n rest line m s _ refl h' in
    let (found, _, len) =
      read_header-got array_header_too_long in_record_header (b'A' ∷ r) line s m e in
    omega (arith, split_line-takes_one r line s found)

legacy-takes_one :
    (b : ℕ) (r : Bytes) (ts : List Text) (n : ℕ) (rest : Bytes)
    → read_legacy (b ∷ r) ≡ got ts n rest
    → 1 ≤ n
unfolding read_legacy
legacy-takes_one b r ts n rest h = ground arith

read_command-plain :
    (b : ℕ) (r : Bytes) → (b == b'A') ≡ false → read_command (b ∷ r) ≡ read_legacy (b ∷ r)
unfolding read_command
read_command-plain b [] h = ground arith
read_command-plain b (c ∷ r) h = ground arith

read_command-cut_A :
    (r : Bytes) (ts : List Text) (n : ℕ) (rest : Bytes)
    → read_command (b'A' ∷ r) ≡ got ts n rest
    → IsCuttable read_command (b'A' ∷ r) ts n rest × (1 ≤ n)
unfolding read_command
read_command-cut_A [] ts n rest h = absurd (ground arith)
read_command-cut_A (c ∷ r) ts n rest h = elim (Bool-cases (is_alpha c)) [
  | inl letter ↦
      let legacy : read_legacy (b'A' ∷ c ∷ r) ≡ got ts n rest = ground arith in
      let two = legacy-takes_two c r ts n rest legacy in
      (
        agree-cut_two read_command read_legacy b'A' c r ts n rest two (λ s. ground arith)
            (read_legacy-cut (b'A' ∷ c ∷ r) ts n rest legacy),
        omega arith,
      )
  | inr framed ↦
      let record_ : read_record (b'A' ∷ c ∷ r) ≡ got ts n rest = ground arith in
      let two = record-takes_two (c ∷ r) ts n rest record_ in
      let ((pre, split, len, again), _) = read_record-IsLocal (b'A' ∷ c ∷ r) ts n rest record_ in
      (
        agree-cut_two read_command read_record b'A' c r ts n rest two (λ s. ground arith)
            (pre, split, len, λ k. again (take k rest)),
        omega arith,
      )
]

-- Every command that a scan reads, framed or legacy, is read alike once the file is cut behind it
-- or behind a later one.
pub read_command-cut :
    (b : ℕ) (r : Bytes) (ts : List Text) (n : ℕ) (rest : Bytes)
    → read_command (b ∷ r) ≡ got ts n rest
    → IsCuttable read_command (b ∷ r) ts n rest × (1 ≤ n)
read_command-cut b r ts n rest h = elim (Bool-cases (b == b'A')) [
  | inl e ↦
      let same : b'A' ≡ b = ground arith in
      subst
        (λ x.
          read_command (x ∷ r) ≡ got ts n rest
          → IsCuttable read_command (x ∷ r) ts n rest × (1 ≤ n))
        same (read_command-cut_A r ts n rest) h
  | inr e ↦
      let legacy : read_legacy (b ∷ r) ≡ got ts n rest = rw (read_command-plain b r e) at h in
      let one = legacy-takes_one b r ts n rest legacy in
      (
        agree-cut read_command read_legacy b r ts n rest one (λ s. read_command-plain b s e)
            (read_legacy-cut (b ∷ r) ts n rest legacy),
        one,
      )
]
