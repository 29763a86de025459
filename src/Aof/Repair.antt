-- ===== src/Aof/Repair.antt =====
-- Cutting the file back to `good_end`, as the repair does, whatever bytes it holds.
use kedis_python.Prelude.{
  ℕ, zero, suc, ◌+◌, ◌≤◌, ◌<◌, ◌≡◌, refl, sym, ap, ◌∙◌, List, [], ◌∷◌, ◌++◌, length, take, Bytes,
  Text, arith, length-append,
}
use mathlib.Core.Path.{subst}
use kedis_python.Aof.{
  Read, got, stop, read_command, intact, no_reason, Scan, ScanResult, scan_from, scan, yielding,
}
use kedis_python.Aof.Cut.{read_command-cut}
use kedis_python.Aof.Framing.{take-append-add}
use kedis_python.Aof.Crash.{scan_from-got, scan_from-stop}

-- The commands that one round yields.
abbrev yielded : List Text → ℕ → List (List Text × ℕ)
yielded [] end = []
yielded (t ∷ ts) end = (t ∷ ts, end) ∷ []

yielding-append :
    (ts : List Text) (end : ℕ) (s : Scan) → yielding ts end s ≡ (yielded ts end ++ s.0, s.1)
yielding-append [] end s = refl
yielding-append (t ∷ ts) end s = refl

abbrev pub clean : ℕ → ScanResult
clean end = record { status = intact; good_end = end; reason = no_reason }

-- The scan of a buffer cut at the good end of its own scan.
abbrev IsRepaired : ℕ → Bytes → Type 0
IsRepaired pos buf =
    (g : ℕ) × ((scan_from 0 pos buf).1.good_end ≡ pos + g)
    × (g ≤ length buf)
    × (scan_from 0 pos (take g buf) ≡ ((scan_from 0 pos buf).0, clean (pos + g)))

IsRepaired-got :
    (pos : ℕ) (ts : List Text) (pre rest : Bytes)
    → 0 < length pre
    → ((k : ℕ) → read_command (pre ++ take k rest) ≡ got ts (length pre) (take k rest))
    → read_command (pre ++ rest) ≡ got ts (length pre) rest
    → IsRepaired (pos + length pre) rest
    → IsRepaired pos (pre ++ rest)
IsRepaired-got pos ts pre rest h again e (g, end, le, same) =
    let n = length pre in
    let here = scan_from-got pos ts pre rest h e ∙ yielding-append ts (pos + n) _ in
    let cut = scan_from-got pos ts pre (take g rest) h (again g) ∙ yielding-append ts (pos + n) _ in
    let sum : pos + n + g ≡ pos + (n + g) = omega arith in
    (
      n + g,
      rw here (end ∙ sum),
      omega (arith, length-append pre rest),
      rw (take-append-add g pre rest, cut, here, same, sum) refl,
    )

scan_from-nil : (pos : ℕ) → scan_from 0 pos [] ≡ ([], clean pos)
unfolding scan_from
scan_from-nil pos = refl

-- By the outcome of the first round.
repair_round :
    (pos b : ℕ) (r : Bytes) (o : Read (List Text))
    → read_command (b ∷ r) ≡ o
    → ((p : ℕ) (s : Bytes) → length s ≤ length r → IsRepaired p s)
    → IsRepaired pos (b ∷ r)
repair_round pos b r (stop st why) e ih =
    let zero_add : pos ≡ pos + 0 = omega arith in
    let here = scan_from-stop pos b r st why e in
    (0, rw here zero_add, omega arith, rw (here, scan_from-nil pos, ← zero_add) refl)
repair_round pos b r (got ts n rest) e ih =
    let ((pre, split, len, again), pos_n) = read_command-cut b r ts n rest e in
    let shorter : length rest ≤ length r = omega (arith, ap length split, length-append pre rest) in
    subst (IsRepaired pos) (sym split) (
      IsRepaired-got pos ts pre rest (omega arith)
        (λ k. again k ∙ ap (λ x. got ts x (take k rest)) (sym len))
        (ap read_command (sym split) ∙ e ∙ ap (λ x. got ts x rest) (sym len))
        (ih (pos + length pre) rest shorter))

repair_from : (fuel pos : ℕ) (buf : Bytes) → length buf < fuel → IsRepaired pos buf
repair_from zero pos buf h = absurd (omega arith)
repair_from (suc fuel) pos [] h =
    let zero_add : pos ≡ pos + 0 = omega arith in
    (0, rw scan_from-nil zero_add, omega arith, rw (scan_from-nil pos, ← zero_add) refl)
repair_from (suc fuel) pos (b ∷ r) h =
    repair_round pos b r (read_command (b ∷ r)) refl (λ p s le. repair_from fuel p s (omega arith))

-- Whatever bytes the file holds, `good_end` lies within it, and the file cut back to `good_end`
-- scans to exactly the commands that the whole file scanned to, with status "ok", no reason and
-- every byte consumed: repairing loses no command that the recovery replayed, and a second recovery
-- finds nothing to repair.
pub scan-repaired :
    (buf : Bytes)
    → ((scan buf).1.good_end ≤ length buf)
      × (scan (take (scan buf).1.good_end buf) ≡ ((scan buf).0, clean (scan buf).1.good_end))
unfolding scan
scan-repaired buf =
    let (g, end, le, same) = repair_from (suc (length buf)) 0 buf (omega arith) in
    let zero_add : 0 + g ≡ g = omega arith in
    let exact : (scan_from 0 0 buf).1.good_end ≡ g = end ∙ zero_add in
    (rw exact le, rw exact (rw zero_add at same))
