-- ===== src/Uuid.antt =====
-- Rule identifiers on the wire: cp/internal/policy/selector.go (pgUUIDToStr), the agent's
-- agent/internal/policy/compiler.go (parseUUID) and agent/internal/grpcclient/eventbatcher.go
-- (uuidBytesToString), over Go's fmt "%x", strings.ReplaceAll and hex.DecodeString.
pub mod Roundtrip
use qf.Common.{
  ℕ, ◌+◌, ◌-◌, ◌*◌, ◌/◌, ◌%◌, Bool, true, false, ◌&&◌, Option, none, some, List, [], ◌∷◌, ◌++◌,
  Text, length, take, drop, ltb, leb, ◌==◌, if◌then◌else◌,
}
use qf.Common.Maybe.{◌>>=◌}

-- "%x" of one digit.
unfoldable pub hex_char : ℕ → ℕ
hex_char n = if ltb n 10 then b'0' + n else 87 + n

-- "%x" of a byte slice.
unfoldable pub hex_encode : List ℕ → Text
unfolding hex_char
hex_encode [] = []
hex_encode (b ∷ bs) = hex_char (b / 16) ∷ hex_char (b % 16) ∷ hex_encode bs

-- fmt.Sprintf("%08x-%04x-%04x-%04x-%012x", b[0:4], b[4:6], b[6:8], b[8:10], b[10:]); the widths are
-- those of the slices, so nothing is padded.
unfoldable pub pg_uuid_to_str : List ℕ → Text
unfolding hex_encode
pg_uuid_to_str b =
    hex_encode (take 4 b)
    ++ (b'-'
        ∷ (hex_encode (take 2 (drop 4 b))
            ++ (b'-'
                ∷ (hex_encode (take 2 (drop 6 b))
                    ++ (b'-'
                        ∷ (hex_encode (take 2 (drop 8 b)) ++ (b'-' ∷ hex_encode (drop 10 b))))))))

abbrev is_zero : List ℕ → Bool
is_zero [] = true
is_zero (b ∷ bs) = b == 0 && is_zero bs

-- The agent's reports: the zero identifier is left empty.
unfoldable pub uuid_bytes_to_string : List ℕ → Text
unfolding pg_uuid_to_str
uuid_bytes_to_string b = if is_zero b then [] else pg_uuid_to_str b

-- hex.DecodeString accepts either case.
unfoldable pub from_hex_char : ℕ → Option ℕ
from_hex_char c =
    if leb b'0' c && leb c b'9'
    then some (c - 48)
    else if leb b'a' c && leb c b'f'
    then some (c - 87)
    else if leb b'A' c && leb c b'F'
    then some (c - 55)
    else none

unfoldable pub hex_decode : Text → Option (List ℕ)
unfolding from_hex_char
hex_decode [] = some []
hex_decode (a ∷ []) = none
hex_decode (a ∷ b ∷ r) = do
  high ← from_hex_char a
  low ← from_hex_char b
  rest ← hex_decode r
  some ((high * 16 + low) ∷ rest)

-- strings.ReplaceAll(s, "-", "").
unfoldable pub strip_dashes : Text → Text
strip_dashes [] = []
strip_dashes (c ∷ cs) = let rest = strip_dashes cs in if c == b'-' then rest else c ∷ rest

unfoldable pub parse_uuid : Text → Option (List ℕ)
unfolding hex_decode strip_dashes
parse_uuid s = do b ← hex_decode (strip_dashes s); if length b == 16 then some b else none
