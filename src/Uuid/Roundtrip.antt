-- ===== src/Uuid/Roundtrip.antt =====
-- What the control plane prints, the agent reads back.
use qf.Common.{
  ℕ, ◌/◌, ◌%◌, ◌<◌, ◌≡◌, ◌∙◌, refl, ap, some, List, [], ◌∷◌, ◌++◌, All, length, arith, take, drop,
  take-append-drop, take_at-append-drop, All-take, All-drop, Text, false, ◌==◌,
}
use mathlib.Core.List.{append-nil}
use qf.Uuid.{
  hex_char, from_hex_char, hex_encode, hex_decode, strip_dashes, parse_uuid, pg_uuid_to_str,
}

from_hex_char-hex_char : (n : ℕ) → n < 16 → from_hex_char (hex_char n) ≡ some n
unfolding from_hex_char hex_char
from_hex_char-hex_char n h = ground arith

hex_char-ne_dash : (n : ℕ) → (hex_char n == b'-') ≡ false
unfolding hex_char
hex_char-ne_dash n = ground arith

hex_decode_step :
    (b : ℕ) (s : Text) {bs : List ℕ}
    → b < 256
    → hex_decode s ≡ some bs
    → hex_decode (hex_char (b / 16) ∷ hex_char (b % 16) ∷ s) ≡ some (b ∷ bs)
unfolding hex_decode
hex_decode_step b s h e =
    ground (arith, from_hex_char-hex_char (b / 16), from_hex_char-hex_char (b % 16))

hex_decode-append :
    (bs : List ℕ) (s : Text) {cs : List ℕ}
    → All (λ b. b < 256) bs
    → hex_decode s ≡ some cs
    → hex_decode (hex_encode bs ++ s) ≡ some (bs ++ cs)
unfolding hex_encode
hex_decode-append [] s h e = e
hex_decode-append (b ∷ bs) s h e =
    hex_decode_step b (hex_encode bs ++ s) h.0 (hex_decode-append bs s h.1 e)

strip_dashes_cons :
    (c : ℕ) (s : Text) → (c == b'-') ≡ false → strip_dashes (c ∷ s) ≡ c ∷ strip_dashes s
unfolding strip_dashes
strip_dashes_cons c s h = rw h

strip_dashes-hex_encode :
    (bs : List ℕ) (s : Text) → strip_dashes (hex_encode bs ++ s) ≡ hex_encode bs ++ strip_dashes s
unfolding hex_encode
strip_dashes-hex_encode [] s = refl
strip_dashes-hex_encode (b ∷ bs) s =
    strip_dashes_cons _ _ (hex_char-ne_dash (b / 16))
    ∙ ap (◌∷◌ (hex_char (b / 16))) (
        strip_dashes_cons _ _ (hex_char-ne_dash (b % 16))
        ∙ ap (◌∷◌ (hex_char (b % 16))) (strip_dashes-hex_encode bs s))

strip_dashes-dash :
    (bs : List ℕ) (s : Text)
    → strip_dashes (b'-' ∷ (hex_encode bs ++ s)) ≡ hex_encode bs ++ strip_dashes s
unfolding strip_dashes
strip_dashes-dash bs s = strip_dashes-hex_encode bs s

hex_decode_nil : hex_decode [] ≡ some []
unfolding hex_decode
hex_decode_nil = refl

hex_decode-hex_encode : (bs : List ℕ) → All (λ b. b < 256) bs → hex_decode (hex_encode bs) ≡ some bs
hex_decode-hex_encode bs h =
    rw (append-nil (hex_encode bs), append-nil bs) at (hex_decode-append bs [] h hex_decode_nil)

strip_dashes_last : (bs : List ℕ) → strip_dashes (b'-' ∷ hex_encode bs) ≡ hex_encode bs
unfolding strip_dashes
strip_dashes_last bs = rw append-nil at (strip_dashes-dash bs [])

abbrev IsBytes : List ℕ → Type 0
IsBytes = All (λ b. b < 256)

-- Five groups of bytes, printed with dashes between them, read back as one.
hex_decode-groups :
    (a b c d e : List ℕ)
    → IsBytes a
    → IsBytes b
    → IsBytes c
    → IsBytes d
    → IsBytes e
    → hex_decode
        (hex_encode a ++ (hex_encode b ++ (hex_encode c ++ (hex_encode d ++ hex_encode e))))
      ≡ some (a ++ (b ++ (c ++ (d ++ e))))
hex_decode-groups a b c d e ha hb hc hd he = hex_decode-append a _ ha (
    hex_decode-append b _ hb
      (hex_decode-append c _ hc (hex_decode-append d _ hd (hex_decode-hex_encode e he))))

strip_dashes-groups :
    (a b c d e : List ℕ)
    → strip_dashes (
        hex_encode a
        ++ (b'-'
            ∷ (hex_encode b
                ++ (b'-' ∷ (hex_encode c ++ (b'-' ∷ (hex_encode d ++ (b'-' ∷ hex_encode e))))))))
      ≡ hex_encode a ++ (hex_encode b ++ (hex_encode c ++ (hex_encode d ++ hex_encode e)))
strip_dashes-groups a b c d e = rw (
  strip_dashes-hex_encode,
  strip_dashes-dash b,
  strip_dashes-dash c,
  strip_dashes-dash d,
  strip_dashes_last e,
)

groups :
    (u : List ℕ)
    → take 4 u ++ (take 2 (drop 4 u) ++ (take 2 (drop 6 u) ++ (take 2 (drop 8 u) ++ drop 10 u))) ≡ u
groups u =
    rw (take_at-append-drop 2 8 u)
      (rw (take_at-append-drop 2 6 u) (rw (take_at-append-drop 2 4 u) (take-append-drop 4 u)))

-- The text of any 16 bytes is read back as those bytes.
pub parse_uuid-pg_uuid_to_str :
    (u : List ℕ) → length u ≡ 16 → IsBytes u → parse_uuid (pg_uuid_to_str u) ≡ some u
unfolding parse_uuid pg_uuid_to_str
parse_uuid-pg_uuid_to_str u n h =
    rw
      (strip_dashes-groups (take 4 u) (take 2 (drop 4 u)) (take 2 (drop 6 u)) (take 2 (drop 8 u))
        (drop 10 u))
      (rw
        (hex_decode-groups (take 4 u) (take 2 (drop 4 u)) (take 2 (drop 6 u)) (take 2 (drop 8 u))
          (drop 10 u) (All-take (λ b. b < 256) 4 u h) (part 4) (part 6) (part 8)
          (All-drop (λ b. b < 256) 10 u h))
        (rw (groups u, n)))
  where
    part : (k : ℕ) → IsBytes (take 2 (drop k u))
    part k = All-take (λ b. b < 256) 2 (drop k u) (All-drop (λ b. b < 256) k u h)
