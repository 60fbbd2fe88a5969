-- ===== src/Crypto/Secret.antt =====
-- crates/quietwire-crypto/src/secret.rs and rng.rs: the 32-byte secret key, as a value. Pages
-- has its page, the lock in RAM and the drop.
pub mod Pages
pub mod Locks
pub mod Guards
pub mod Runs
mod Tests
use quietwire.Base.{ℕ, ◌≡◌, Option, none, some, arith, length, ◌==◌, if◌then◌else◌, Bool, not}
use quietwire.Base.{Result, ok, err, ◌>>=◌, replicate}
use quietwire.Bytes.{Bytes, beq}
use quietwire.Crypto.{Error, rng, invalid_length}

abbrev pub key_len : ℕ
key_len = 32

pub record SecretKey : Type 0 where
  pub expose_secret : Bytes

-- A draw of the operating system's generator: the bytes it gave, or `none` if it failed.
abbrev pub Draw : Type 0
Draw = Option Bytes

-- `rng::fill`: the bytes that the buffer holds afterwards.
unfoldable pub fill : Draw → Result Error Bytes
fill none = err rng
fill (some bytes) = ok bytes

-- `SecretKey::build_in_place`: `write` says what it leaves in the zeroed page.
unfoldable pub build_in_place : (Bytes → Result Error Bytes) → Result Error SecretKey
build_in_place write = do page ← write (replicate key_len 0); ok (record { expose_secret = page })

unfoldable pub random : Draw → Result Error SecretKey
unfolding build_in_place fill
random draw = build_in_place (λ _. fill draw)

unfoldable pub from_slice : Bytes → Result Error SecretKey
unfolding build_in_place
from_slice bytes =
    if not (length bytes == key_len) then err invalid_length else build_in_place (λ _. ok bytes)

unfoldable pub from_array : Bytes → SecretKey
from_array bytes = record { expose_secret = bytes }

-- `PartialEq`, in constant time there.
unfoldable pub secret_eq : SecretKey → SecretKey → Bool
secret_eq a b = beq a.expose_secret b.expose_secret

-- `from_slice` accepts exactly 32 bytes.
pub from_slice_lem :
    (bytes : Bytes) → length bytes ≡ 32 → from_slice bytes ≡ ok (record { expose_secret = bytes })
unfolding from_slice
from_slice_lem bytes h = ground arith

pub from_slice-ok :
    (bytes : Bytes) {key : SecretKey}
    → from_slice bytes ≡ ok key
    → (length bytes ≡ 32) × (key ≡ record { expose_secret = bytes })
unfolding from_slice
from_slice-ok bytes h = ground arith
