-- ===== src/HyperLogLog.antt =====
-- kedis_python/hyperloglog.py: the registers of a HyperLogLog, what `add` and `merge` do to them. The
-- 64 bit hash of an element is a parameter, total here, although `_hash64` raises on an element that is
-- not valid Unicode; the estimate that `count` draws from them is floating point
-- and is left out.
pub mod Laws
pub mod Union
use mathlib.Core.Bool
use kedis_python.Prelude.{
  ℕ, zero, suc, ◌+◌, ◌-◌, ◌*◌, ◌/◌, ◌%◌, ◌^◌, Bool, true, false, ◌||◌, Option, none, some, List, [],
  ◌∷◌, ltb, ◌==◌, if◌then◌else◌, length, Bytes, Text,
}

-- `P`, `M` and `Q`.
abbrev pub index_bits : ℕ
index_bits = 14

abbrev pub register_count : ℕ
register_count = 2 ^ index_bits

abbrev pub rank_bits : ℕ
rank_bits = 64 - index_bits

pub record HyperLogLog : Type 0 where
  pub registers : List ℕ
  pub dirty : Bool

-- `bytearray(n)`.
unfoldable pub zeros : ℕ → List ℕ
zeros zero = []
zeros (suc n) = 0 ∷ zeros n

unfoldable pub new_hyperloglog : HyperLogLog
new_hyperloglog = record { registers = zeros register_count; dirty = false }

-- `from_bytes(data)`, a ValueError where the data has another length.
unfoldable pub from_bytes : Bytes → Option HyperLogLog
from_bytes raw =
    if length raw == register_count then some (record { registers = raw; dirty = true }) else none

-- `to_bytes()`.
unfoldable pub to_bytes : HyperLogLog → Bytes
to_bytes h = h.registers

-- `w.bit_length()` for a `w` below 2 ^ fuel.
unfoldable pub bit_length : ℕ → ℕ → ℕ
bit_length zero w = 0
bit_length (suc fuel) w = let rest = bit_length fuel (w / 2) in if w == 0 then 0 else rest + 1

-- `registers[i]`.
unfoldable pub register_at : List ℕ → ℕ → ℕ
register_at [] i = 0
register_at (r ∷ rs) zero = r
register_at (r ∷ rs) (suc i) = register_at rs i

-- `registers[i] = rank`.
unfoldable pub set_register : List ℕ → ℕ → ℕ → List ℕ
set_register [] i rank = []
set_register (r ∷ rs) zero rank = rank ∷ rs
set_register (r ∷ rs) (suc i) rank = r ∷ set_register rs i rank

abbrev pub index_of : ℕ → ℕ
index_of h = h % register_count

unfoldable pub rank_of : ℕ → ℕ
rank_of h = rank_bits - bit_length rank_bits (h / register_count) + 1

module _ (hash64 : Text → ℕ) where
  -- `add(element)`.
  unfoldable pub add : HyperLogLog → Text → HyperLogLog × Bool
  add h element =
      let i = index_of (hash64 element) in
      let rank = rank_of (hash64 element) in
      if ltb (register_at h.registers i) rank
      then (record { registers = set_register h.registers i rank; dirty = true }, true)
      else (h, false)

-- The loop of `merge`: the registers after it, and whether one of them changed.
unfoldable pub merge_registers : List ℕ → List ℕ → List ℕ × Bool
merge_registers (a ∷ xs) (b ∷ ys) =
    let rest = merge_registers xs ys in if ltb a b then (b ∷ rest.0, true) else (a ∷ rest.0, rest.1)
merge_registers xs ys = (xs, false)

-- `merge(other)`.
unfoldable pub merge : HyperLogLog → HyperLogLog → HyperLogLog × Bool
merge h other =
    let m = merge_registers h.registers other.registers in
    (record { registers = m.0; dirty = h.dirty || m.1 }, m.1)
