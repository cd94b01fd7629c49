-- ===== src/Net.antt =====
-- IPv4 addresses as the agent's datapath stores them: agent/internal/loader/conntrack.go
-- (encodeIP4, decodeIP4) over the parts of Go's package net that the program calls (net.IP.To4,
-- net.CIDRMask, the network address of a parsed prefix).
pub mod Laws
use Prim.Native.Nat.{min, bit_and}
use qf.Common.{
  ℕ, ◌+◌, ◌-◌, ◌*◌, ◌/◌, ◌%◌, ◌^◌, Bool, true, false, ◌&&◌, Option, none, some, List, [], ◌∷◌,
  length, get_elem?, drop, leb, ◌==◌, if◌then◌else◌,
}

-- The byte at `i`, where there is one.
abbrev byte_is : List ℕ → ℕ → ℕ → Bool
byte_is ip i b = elim (get_elem? ip i) [ none ↦ false | some c ↦ c == b ]

abbrev zeros_to : ℕ → List ℕ → Bool
zeros_to ℕ.zero ip = true
zeros_to (ℕ.suc n) ip = byte_is ip n 0 && zeros_to n ip

unfoldable pub is_mapped : List ℕ → Bool
is_mapped ip = length ip == 16 && (zeros_to 10 ip && (byte_is ip 10 255 && byte_is ip 11 255))

-- net.IP.To4: four bytes, or the last four of an IPv4-mapped address of sixteen.
unfoldable pub to4 : List ℕ → Option (List ℕ)
to4 ip = if length ip == 4 then some ip else if is_mapped ip then some (drop 12 ip) else none

-- binary.LittleEndian.Uint32 and PutUint32.
abbrev pub little_endian : List ℕ → ℕ
little_endian (a ∷ b ∷ c ∷ d ∷ _) = a + 256 * b + 65536 * c + 16777216 * d
little_endian _ = 0

unfoldable pub decode_ip4 : ℕ → List ℕ
decode_ip4 v = v % 256 ∷ v / 256 % 256 ∷ v / 65536 % 256 ∷ v / 16777216 % 256 ∷ []

unfoldable pub encode_ip4 : List ℕ → ℕ
unfolding to4
encode_ip4 ip = elim (to4 ip) [ none ↦ 0 | some ip4 ↦ little_endian ip4 ]

-- A byte whose first `n` bits are set, for n up to 8.
abbrev pub mask_byte : ℕ → ℕ
mask_byte n = 256 - 2 ^ (8 - n)

-- net.CIDRMask(ones, 32), for ones up to 32.
unfoldable pub cidr_mask : ℕ → List ℕ
cidr_mask ones =
    mask_byte (min 8 ones)
    ∷ mask_byte (min 8 (ones - 8))
    ∷ mask_byte (min 8 (ones - 16))
    ∷ mask_byte (min 8 (ones - 24))
    ∷ []

abbrev mask_bytes : List ℕ → List ℕ → List ℕ
mask_bytes (b ∷ bs) (m ∷ ms) = bit_and b m ∷ mask_bytes bs ms
mask_bytes _ _ = []

-- What net.ParseCIDR makes of the text "a.b.c.d/ones", written from the four bytes `ip4` and the
-- number `ones`: the network's address and the length of its prefix. It refuses more than 32.
unfoldable pub parse_prefix : List ℕ → ℕ → Option (List ℕ × ℕ)
unfolding cidr_mask
parse_prefix ip4 ones = if leb ones 32 then some (mask_bytes ip4 (cidr_mask ones), ones) else none
