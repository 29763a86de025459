-- ===== src/Tests/HyperLogLog.antt =====
-- hyperloglog.py at concrete inputs.
use kedis_python.Prelude.{ℕ, ◌+◌, ◌*◌, ◌≡◌, refl, false, [], ◌∷◌, length, codes, Text}
use kedis_python.HyperLogLog.{HyperLogLog, add, merge, new_hyperloglog, rank_of, bit_length}
use kedis_python.HyperLogLog.Laws.{IsValid, add_once, merge-IsValid, new_hyperloglog-IsValid}
use kedis_python.HyperLogLog.Union.{add_all, merge-add_all}

-- A hash for the runs.
abbrev toy_hash : Text → ℕ
toy_hash t = length t * 16385 + 3

-- A hash of 0 has 50 leading zeros, and a hash with its top bit set has none.
rank_runs : rank_of 0 ≡ 51
unfolding rank_of bit_length
rank_runs = refl

top_bit_run : rank_of 0x8000000000000000 ≡ 1
unfolding rank_of bit_length
top_bit_run = refl

bit_length_run : bit_length 50 9 ≡ 4
unfolding bit_length
bit_length_run = refl

abbrev seen : HyperLogLog
seen = (add toy_hash new_hyperloglog (codes "a")).0

seen-IsValid : IsValid seen
seen-IsValid = (add_once toy_hash new_hyperloglog (codes "a") new_hyperloglog-IsValid).0

add_once_example :
    IsValid (add toy_hash seen (codes "bc")).0
    × ((add toy_hash seen (codes "bc")).1 ≡ false → (add toy_hash seen (codes "bc")).0 ≡ seen)
    × (add toy_hash (add toy_hash seen (codes "bc")).0 (codes "bc")
        ≡ ((add toy_hash seen (codes "bc")).0, false))
add_once_example = add_once toy_hash seen (codes "bc") seen-IsValid

merge-IsValid_example :
    IsValid (merge new_hyperloglog seen).0
    × ((merge new_hyperloglog seen).1 ≡ false
        → (merge new_hyperloglog seen).0.registers ≡ new_hyperloglog.registers)
    × ((merge (merge new_hyperloglog seen).0 seen).1 ≡ false)
    × ((merge (merge new_hyperloglog seen).0 seen).0.registers
        ≡ (merge new_hyperloglog seen).0.registers)
merge-IsValid_example = merge-IsValid new_hyperloglog seen new_hyperloglog-IsValid seen-IsValid

merge-add_all_example :
    (merge
      (add_all toy_hash new_hyperloglog (codes "a" ∷ codes "bc" ∷ []))
      (add_all toy_hash new_hyperloglog (codes "bc" ∷ []))).0.registers
    ≡ (add_all toy_hash new_hyperloglog (codes "a" ∷ codes "bc" ∷ codes "bc" ∷ [])).registers
merge-add_all_example = merge-add_all toy_hash (codes "a" ∷ codes "bc" ∷ []) (codes "bc" ∷ [])
