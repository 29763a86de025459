-- ===== src/Words.antt =====
-- Python's `str.split()` with no argument: the words between runs of Unicode white space.
use kedis_python.Prelude.{ℕ, Bool, true, false, ◌||◌, ◌&&◌, List, [], ◌∷◌, ◌++◌, leb, ◌==◌, Text}

abbrev within : ℕ → ℕ → ℕ → Bool
within lo hi c = leb lo c && leb c hi

unfoldable pub is_space : ℕ → Bool
is_space c =
    within 9 13 c
    || (within 28 32 c
        || (c == 0x85
            || (c == 0xA0
                || (c == 0x1680
                    || (within 0x2000 0x200A c
                        || (within 0x2028 0x2029 c
                            || (c == 0x202F || (c == 0x205F || c == 0x3000))))))))

-- A word that has ended goes in front of the words behind it.
abbrev flush : Text → List Text → List Text
flush [] words = words
flush word words = word ∷ words

unfoldable pub split_from : Text → Text → List Text
unfolding is_space
split_from word [] = flush word []
split_from word (c ∷ s) = elim (is_space c) [
  | true ↦ flush word (split_from [] s)
  | false ↦ split_from (word ++ c ∷ []) s
]

unfoldable pub split : Text → List Text
unfolding split_from
split s = split_from [] s
