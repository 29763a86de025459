-- ===== src/Utf8/RoundTrip.antt =====
-- Decoding after encoding, and encoding after decoding.
use mathlib.Core.Option
use kedis_python.Prelude.{
  ℕ, zero, suc, ◌+◌, ◌-◌, ◌≤◌, ◌<◌, ◌≡◌, refl, ap, ◌∙◌, true, false, some, [], ◌∷◌, ◌++◌, map, take,
  drop, length, Bytes, Text, All, arith, leb, ◌&&◌, take-append-drop,
}
use kedis_python.Utf8.{
  Unit8, char, bad, step, encode_char, is_surrogate, encode_pass, pass_step, decode_pass_from,
  decode_escape_from, encode_escape,
}
use kedis_python.Utf8.Step.{Says, step-Says, pass_step-encode_char}

-- A text whose characters are code points.
abbrev pub IsText : Text → Type 0
IsText = All (λ c. c < 0x110000)

-- Bytes that a decoder is to skip are skipped.
decode_pass-skip : (xs ys : Bytes) → decode_pass_from (length xs) (xs ++ ys) ≡ decode_pass_from 0 ys
unfolding decode_pass_from
decode_pass-skip [] ys = refl
decode_pass-skip (x ∷ xs) ys = decode_pass-skip xs ys

decode_pass-char :
    (c : ℕ) (bs rest : Bytes) (a : ℕ) (r : Bytes)
    → bs ++ rest ≡ a ∷ r
    → 0 < length bs
    → pass_step a r ≡ char c (length bs)
    → decode_pass_from 0 (bs ++ rest) ≡ Option.map (◌∷◌ c) (decode_pass_from 0 rest)
decode_pass-char c [] rest a r e h p = absurd (omega arith)
decode_pass-char c (b ∷ bs) rest a r e h p =
    let same : pass_step b (bs ++ rest) ≡ char c (suc (length bs)) = cc in
    unfold decode_pass_from in ground (arith, same, decode_pass-skip bs rest)

encode_char_pos : (c : ℕ) → 0 < length (encode_char c)
unfolding encode_char
encode_char_pos c = ground arith

pub decode_pass-encode_pass : (s : Text) → IsText s → decode_pass_from 0 (encode_pass s) ≡ some s
unfolding encode_pass
decode_pass-encode_pass [] h = unfold decode_pass_from in refl
decode_pass-encode_pass (c ∷ s) h =
    let (a, r, e, p) = pass_step-encode_char c (encode_pass s) h.0 in
    rw (
      decode_pass-char c (encode_char c) (encode_pass s) a r e (encode_char_pos c) p,
      decode_pass-encode_pass s h.1,
    )

encode_escape-char :
    (c : ℕ) (s : Text) (out : Bytes)
    → is_surrogate c ≡ false
    → encode_escape s ≡ some out
    → encode_escape (c ∷ s) ≡ some (encode_char c ++ out)
encode_escape-char c s out h e =
    let low : (leb 0xDC80 c && leb c 0xDCFF) ≡ false = ground arith in
    unfold encode_escape in rw (low, h, e) refl

encode_escape-byte :
    (x : ℕ) (s : Text) (out : Bytes)
    → 0x80 ≤ x
    → x < 256
    → encode_escape s ≡ some out
    → encode_escape ((0xDC00 + x) ∷ s) ≡ some (x ∷ out)
unfolding encode_escape
encode_escape-byte x s out h k e =
    let range : (leb 0xDC80 (0xDC00 + x) && leb (0xDC00 + x) 0xDCFF) ≡ true = ground arith in
    let back : 0xDC00 + x - 0xDC00 ≡ x = omega arith in rw (range, e, back) refl

encode_escape-bytes :
    (xs : Bytes) (s : Text) (out : Bytes)
    → All (λ b. 0x80 ≤ b) xs
    → All (λ b. b < 256) xs
    → encode_escape s ≡ some out
    → encode_escape (map (λ x. 0xDC00 + x) xs ++ s) ≡ some (xs ++ out)
encode_escape-bytes [] s out h k e = e
encode_escape-bytes (x ∷ xs) s out h k e =
    encode_escape-byte x (map (λ y. 0xDC00 + y) xs ++ s) (xs ++ out) h.0 k.0
      (encode_escape-bytes xs s out h.1 k.1 e)

All-take {ℓ} : (P : ℕ → Type ℓ) (n : ℕ) (xs : Bytes) → All P xs → All P (take n xs)
All-take P zero xs h = tt
All-take P (suc n) [] h = tt
All-take P (suc n) (x ∷ xs) h = (h.0, All-take P n xs h.1)

-- The text that a step of the escaping decoder makes, given the decoder for what follows.
abbrev after_step : Bytes → (ℕ → Text) → Unit8 → Text
after_step bs next (char c n) = c ∷ next (n - 1)
after_step bs next (bad n) = map (λ x. 0xDC00 + x) (take n bs) ++ next (n - 1)

encode-after_step :
    (b : ℕ) (r : Bytes) (next : ℕ → Text) (u : Unit8)
    → Says u (b ∷ r)
    → All (λ x. x < 256) (b ∷ r)
    → ((k : ℕ) → encode_escape (next k) ≡ some (drop k r))
    → encode_escape (after_step (b ∷ r) next u) ≡ some (b ∷ r)
encode-after_step b r next (char c zero) s h ih = absurd (omega arith)
encode-after_step b r next (char c (suc m)) s h ih =
    let e : suc m - 1 ≡ m = omega arith in
    rw e (
      encode_escape-char c (next m) (drop m r) s.1 (ih m)
      ∙ rw s.0 (ap some (take-append-drop (suc m) (b ∷ r))))
encode-after_step b r next (bad zero) s h ih = absurd (omega arith)
encode-after_step b r next (bad (suc m)) s h ih =
    let e : suc m - 1 ≡ m = omega arith in
    rw e (
      encode_escape-bytes (take (suc m) (b ∷ r)) (next m) (drop m r) s.0
        (All-take (λ x. x < 256) (suc m) (b ∷ r) h) (ih m)
      ∙ ap some (take-append-drop (suc m) (b ∷ r)))

-- What the escaping decoder yields encodes to the bytes that were left.
encode-decode_escape :
    (k : ℕ) (bs : Bytes)
    → All (λ b. b < 256) bs
    → encode_escape (decode_escape_from k bs) ≡ some (drop k bs)
encode-decode_escape zero [] h = unfold encode_escape decode_escape_from in refl
encode-decode_escape (suc k) [] h = unfold encode_escape decode_escape_from in refl
encode-decode_escape (suc k) (b ∷ r) h = skipped k b r (encode-decode_escape k r h.1)
  where
    skipped :
        (k b : ℕ) (r : Bytes)
        → encode_escape (decode_escape_from k r) ≡ some (drop k r)
        → encode_escape (decode_escape_from (suc k) (b ∷ r)) ≡ some (drop k r)
    skipped k b r e = unfold decode_escape_from in e
encode-decode_escape zero (b ∷ r) h = decoded (λ k. encode-decode_escape k r h.1)
  where
    decoded :
        ((k : ℕ) → encode_escape (decode_escape_from k r) ≡ some (drop k r))
        → encode_escape (decode_escape_from zero (b ∷ r)) ≡ some (b ∷ r)
    decoded ih =
        let e =
          encode-after_step b r (λ k. decode_escape_from k r) (step b r) (step-Says b r) h ih in
        unfold decode_escape_from in ground (arith, e)

-- Encoding after the escaping decoder is the identity on byte strings.
pub encode_escape-decode_escape :
    (bs : Bytes) → All (λ b. b < 256) bs → encode_escape (decode_escape_from 0 bs) ≡ some bs
encode_escape-decode_escape bs h = encode-decode_escape 0 bs h
