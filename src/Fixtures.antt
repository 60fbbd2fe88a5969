-- ===== src/Fixtures.antt =====
-- crates/quietwire-fixtures/src/lib.rs: the hex decoder of the test fixtures. A text is its UTF-8
-- bytes, and `none` is a panic: cutting a character in two panics, and so does `expect` where
-- `from_str_radix` refuses a piece, so a byte that is no ASCII digit panics either way. `load_fixture`
-- reads a file and is not modelled.
pub mod Hex
mod Tests
use quietwire.Base.{
  ℕ, ◌+◌, ◌-◌, ◌*◌, ◌%◌, Bool, ◌&&◌, Option, none, some, List, [], ◌∷◌, length, leb, ◌==◌,
  if◌then◌else◌,
}
use quietwire.Bytes.{Bytes}

infixl 5 ◌>>=◌
abbrev pub ◌>>=◌ {ℓ κ} : {A : Type ℓ} {B : Type κ} → Option A → (A → Option B) → Option B
none >>= f = none
some a >>= f = f a

-- The value of a digit in base 16, of either case.
unfoldable pub digit : ℕ → Option ℕ
digit c =
    if leb b'0' c && leb c b'9'
    then some (c - b'0')
    else (if leb b'a' c && leb c b'f'
        then some (c - b'a' + 10)
        else (if leb b'A' c && leb c b'F' then some (c - b'A' + 10) else none))

-- `u8::from_str_radix(_, 16)` on two bytes: an optional plus sign, then digits.
unfoldable pub from_str_radix : ℕ → ℕ → Option ℕ
unfolding digit
from_str_radix a b = if a == b'+' then digit b else (do x ← digit a; y ← digit b; some (16 * x + y))

-- The bytes of the pieces of two.
unfoldable pub pieces : Bytes → Option Bytes
unfolding from_str_radix
pieces [] = some []
pieces (a ∷ []) = none
pieces (a ∷ b ∷ rest) = do byte ← from_str_radix a b; bytes ← pieces rest; some (byte ∷ bytes)

unfoldable pub hex : Bytes → Option Bytes
unfolding pieces
hex encoded = if length encoded % 2 == 0 then pieces encoded else none

unfoldable pub hex_array : ℕ → Bytes → Option Bytes
unfolding hex
hex_array n encoded = do bytes ← hex encoded; if length bytes == n then some bytes else none
