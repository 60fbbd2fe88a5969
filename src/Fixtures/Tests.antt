-- ===== src/Fixtures/Tests.antt =====
-- The theorems about the hex decoder, applied to short texts.
use quietwire.Base.{◌*◌, ◌≡◌, refl, true, false, some, none, [], ◌∷◌, arith, length}
use quietwire.Bytes.{Bytes, IsArray}
use quietwire.Fixtures.{hex, hex_array}
use quietwire.Fixtures.Hex.{encode, hex_array-encode, hex_array-IsArray, hex-plus}

abbrev bytes : Bytes
bytes = 0 ∷ 0xa9 ∷ 0xff ∷ []

-- "00A9FF".
text : encode true bytes ≡ b'0' ∷ b'0' ∷ b'A' ∷ b'9' ∷ b'F' ∷ b'F' ∷ []
unfolding encode
text = refl

-- Anything but digits panics.
refused : hex (b'0' ∷ b'g' ∷ []) ≡ none
unfolding hex
refused = refl

hex_array-encode_example : hex_array 3 (encode false bytes) ≡ some bytes
hex_array-encode_example = hex_array-encode false 3 bytes (omega arith)

abbrev short : Bytes
short = b'a' ∷ b'F' ∷ b'+' ∷ b'7' ∷ []

read : hex_array 2 short ≡ some (0xaf ∷ 7 ∷ [])
unfolding hex_array
read = refl

hex_array-IsArray_example : (length short ≡ 2 * 2) × IsArray 2 (0xaf ∷ 7 ∷ [])
hex_array-IsArray_example = hex_array-IsArray 2 short (0xaf ∷ 7 ∷ []) read

hex-plus_example : hex (b'+' ∷ b'7' ∷ b'2' ∷ b'c' ∷ []) ≡ hex (b'0' ∷ b'7' ∷ b'2' ∷ b'c' ∷ [])
hex-plus_example = hex-plus b'7' (b'2' ∷ b'c' ∷ [])
