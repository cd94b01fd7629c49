-- ===== src/Net/Laws.antt =====
-- The address codec of the BPF maps: what decode_ip4 and encode_ip4 undo, and their range.
use qf.Common.{
  ℕ, zero, suc, ◌-◌, ◌^◌, ◌<◌, ◌≤◌, ◌≡◌, refl, ap, some, List, [], ◌∷◌, All, length, drop, arith,
  Bool, true, ◌&&◌, ◌==◌, ==_iff, Bool-cases, inl, inr,
}
use qf.Net.{to4, is_mapped, encode_ip4, decode_ip4, mask_bytes, cidr_mask, parse_prefix}

abbrev pub IsBytes : List ℕ → Type 0
IsBytes = All (λ b. b < 256)

-- A 32-bit map value decodes to four bytes.
pub decode_ip4-IsBytes : (v : ℕ) → IsBytes (decode_ip4 v) × (length (decode_ip4 v) ≡ 4)
unfolding decode_ip4
decode_ip4-IsBytes v = (omega arith, refl)

pub encode_ip4-decode_ip4 : (v : ℕ) → v < 2 ^ 32 → encode_ip4 (decode_ip4 v) ≡ v
unfolding encode_ip4 decode_ip4
encode_ip4-decode_ip4 v h = omega arith

pub decode_ip4-encode_ip4 :
    (a b c d : ℕ)
    → a < 256
    → b < 256
    → c < 256
    → d < 256
    → decode_ip4 (encode_ip4 (a ∷ b ∷ c ∷ d ∷ [])) ≡ a ∷ b ∷ c ∷ d ∷ []
unfolding encode_ip4 decode_ip4
decode_ip4-encode_ip4 a b c d ha hb hc hd = ground arith

length-drop : (n : ℕ) (xs : List ℕ) → length (drop n xs) ≡ length xs - n
length-drop zero xs = omega arith
length-drop (suc n) [] = omega arith
length-drop (suc n) (x ∷ xs) = omega (arith, length-drop n xs)

and_left : (a b : Bool) → a && b ≡ true → a ≡ true
and_left a b h = ground arith

is_mapped-length : (ip : List ℕ) → is_mapped ip ≡ true → length ip ≡ 16
unfolding is_mapped
is_mapped-length ip h = (==_iff (length ip) 16).0 (and_left (length ip == 16) _ h)

-- To4 gives four bytes.
pub length-to4 : (ip : List ℕ) {ip4 : List ℕ} → to4 ip ≡ some ip4 → length ip4 ≡ 4
unfolding to4
length-to4 ip h = elim (Bool-cases (length ip == 4)) [
  | inl p ↦ let e = rw p at h in ground arith
  | inr p ↦ elim (Bool-cases (is_mapped ip)) [
    | inl q ↦ let e = rw (p, q) at h in ground (arith, length-drop 12 ip, is_mapped-length ip)
    | inr q ↦ let e = rw (p, q) at h in cc
  ]
]

length-mask_bytes : (bs ms : List ℕ) → length bs ≡ length ms → length (mask_bytes bs ms) ≡ length bs
length-mask_bytes [] ms h = refl
length-mask_bytes (b ∷ bs) [] h = absurd (omega arith)
length-mask_bytes (b ∷ bs) (m ∷ ms) h = ap suc (length-mask_bytes bs ms (omega arith))

to4_of_length : (ip : List ℕ) → length ip ≡ 4 → to4 ip ≡ some ip
unfolding to4
to4_of_length ip h = ground arith

-- A parsed prefix is an IPv4 prefix again.
pub parse_prefix-prefix4 :
    (ip4 : List ℕ) (n : ℕ) {net : List ℕ} {ones : ℕ}
    → length ip4 ≡ 4
    → parse_prefix ip4 n ≡ some (net, ones)
    → (to4 net ≡ some net) × (ones ≤ 32) × (ones ≡ n)
unfolding parse_prefix
parse_prefix-prefix4 ip4 n {net} h e =
    let masked = length-mask_bytes ip4 (cidr_mask n) h in
    let l : length net ≡ 4 = ground (arith, masked) in
    (to4_of_length net l, ground arith, ground arith)
