-- ===== src/Texts/Hex.antt =====
-- `bytes.hex` and `bytes.fromhex`, without the white space that `fromhex` skips.
use Prim.Native.Nat.{◌/◌, ◌%◌}
use lumendark.Common.{
  ℕ, ◌+◌, ◌-◌, ◌*◌, ◌<◌, ◌≡◌, refl, ◌&&◌, Option, none, some, List, [], ◌∷◌, arith, ltb, leb,
  if◌then◌else◌, Each,
}
use lumendark.Texts.{Text, is_digit}

abbrev nibble : ℕ → ℕ
nibble n = if ltb n 10 then b'0' + n else b'a' + (n - 10)

abbrev unnibble : ℕ → Option ℕ
unnibble c =
    if is_digit c
    then some (c - b'0')
    else if leb b'a' c && leb c b'f'
    then some (c - b'a' + 10)
    else if leb b'A' c && leb c b'F'
    then some (c - b'A' + 10)
    else none

unfoldable pub hex : List ℕ → Text
hex [] = []
hex (byte ∷ bytes) = nibble (byte / 16) ∷ nibble (byte % 16) ∷ hex bytes

-- Two digits before the bytes of the rest.
abbrev byte_before : Option ℕ → Option ℕ → Option (List ℕ) → Option (List ℕ)
byte_before (some high) (some low) (some bytes) = some ((high * 16 + low) ∷ bytes)
byte_before _ _ _ = none

unfoldable pub from_hex : Text → Option (List ℕ)
from_hex [] = some []
from_hex (c ∷ []) = none
from_hex (c ∷ d ∷ cs) = byte_before (unnibble c) (unnibble d) (from_hex cs)

abbrev pub IsBytes : List ℕ → Type 0
IsBytes = Each (λ byte. byte < 256)

unnibble-nibble : (n : ℕ) → n < 16 → unnibble (nibble n) ≡ some n
unnibble-nibble n h = ground arith

pub from_hex-hex : (bytes : List ℕ) → IsBytes bytes → from_hex (hex bytes) ≡ some bytes
unfolding hex from_hex
from_hex-hex [] h = refl
from_hex-hex (byte ∷ bytes) h =
    rw
      (
        unnibble-nibble (byte / 16) (omega (arith, h.0)),
        unnibble-nibble (byte % 16) (omega arith),
        from_hex-hex bytes h.1,
      )
      (ground arith)
