-- ===== src/Texts.antt =====
-- The texts of errors, `Display` in crates/quietwire-crypto/src/error.rs,
-- crates/quietwire-e2e/src/ratchet.rs and crates/quietwire-packet/src/cell.rs. A text is its code
-- points. The numbers that a text shows are bytes.
pub mod Distinct
mod Tests
use quietwire.Base.{ℕ, ◌+◌, ◌-◌, ◌/◌, ◌%◌, List, [], ◌∷◌, ◌++◌, ltb, if◌then◌else◌}
use quietwire.Bytes.{Bytes}
use quietwire.Crypto
use quietwire.Ratchet
use quietwire.Cell
use Prim.Native.Char.{code}
use Prim.Native.String.{String}

abbrev pub codes : String → Bytes
codes String.[] = []
codes (String.◌∷◌ c s) = code c ∷ codes s

unfoldable pub crypto_text : Crypto.Error → Bytes
crypto_text Crypto.invalid_length = codes "invalid length"
crypto_text Crypto.authentication = codes "authentication failed"
crypto_text Crypto.rng = codes "random number generator unavailable"
crypto_text Crypto.kdf = codes "password key derivation failed"
crypto_text Crypto.invalid_public_key = codes "invalid public key"
crypto_text Crypto.invalid_signature = codes "invalid signature"

unfoldable pub ratchet_text : Ratchet.Error → Bytes
unfolding crypto_text
ratchet_text (Ratchet.crypto error) = crypto_text error
ratchet_text Ratchet.sending_blocked = codes "sending is blocked until the peer replies"
ratchet_text Ratchet.too_far_ahead = codes "frame is too far ahead of its chain"

-- A byte in decimal digits, `{}`.
unfoldable pub decimal : ℕ → Bytes
decimal n =
    if ltb n 10
    then (b'0' + n) ∷ []
    else (if ltb n 100
        then (b'0' + n / 10) ∷ (b'0' + n % 10) ∷ []
        else (b'0' + n / 100) ∷ (b'0' + n / 10 % 10) ∷ (b'0' + n % 10) ∷ [])

abbrev pub hex_digit : ℕ → ℕ
hex_digit x = if ltb x 10 then b'0' + x else b'a' + x - 10

-- A byte in two hexadecimal digits after a prefix, `{:#04x}`.
unfoldable pub prefixed_hex : ℕ → Bytes
prefixed_hex n = b'0' ∷ b'x' ∷ hex_digit (n / 16) ∷ hex_digit (n % 16) ∷ []

unfoldable pub cell_text : Cell.Error → Bytes
unfolding decimal prefixed_hex
cell_text Cell.invalid_length = codes "a cell is exactly 512 bytes"
cell_text (Cell.unsupported_version version) = codes "unsupported version " ++ prefixed_hex version
cell_text (Cell.ttl_out_of_range ttl) =
    codes "ttl " ++ (decimal ttl ++ (codes " above " ++ decimal Cell.max_ttl))
cell_text (Cell.copies_out_of_range copies) =
    codes "copies " ++ (decimal copies ++ (codes " above " ++ decimal Cell.max_copies))
cell_text Cell.rng = codes "random number generator unavailable"
