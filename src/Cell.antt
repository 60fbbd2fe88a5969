-- ===== src/Cell.antt =====
-- crates/quietwire-packet/src/cell.rs: the 512-byte cell of docs/PROTOCOL.md §6.1. The children hold
-- the proofs about its wire layout and about what a relay may do to it.
pub mod Wire
pub mod Parse
pub mod Relay
mod Tests
use quietwire.Base.{
  ℕ, ◌+◌, ◌-◌, ◌<◌, Bool, not, Option, none, some, List, [], ◌∷◌, ◌++◌, ltb, ◌==◌, if◌then◌else◌,
  length, take, drop,
}
use quietwire.Base.{Result, ok, err, ◌>>=◌}
use quietwire.Bytes.{Bytes, slice}

abbrev pub cell_len : ℕ
cell_len = 512

abbrev pub version : ℕ
version = 0x01

abbrev pub tag_len : ℕ
tag_len = 16

abbrev pub nonce_len : ℕ
nonce_len = 24

abbrev pub ciphertext_len : ℕ
ciphertext_len = 452

abbrev pub mac_len : ℕ
mac_len = 16

abbrev pub aad_len : ℕ
aad_len = 42

abbrev pub max_ttl : ℕ
max_ttl = 64

abbrev pub max_copies : ℕ
max_copies = 15

abbrev pub version_at : ℕ
version_at = 0

abbrev pub flags_at : ℕ
flags_at = 1

abbrev pub ttl_at : ℕ
ttl_at = 2

abbrev pub copies_at : ℕ
copies_at = 3

abbrev pub tag_at : ℕ
tag_at = 4

abbrev pub nonce_at : ℕ
nonce_at = tag_at + tag_len

abbrev pub ciphertext_at : ℕ
ciphertext_at = nonce_at + nonce_len

abbrev pub mac_at : ℕ
mac_at = ciphertext_at + ciphertext_len

pub data Error : Type 0 where
  invalid_length rng : Error
  unsupported_version ttl_out_of_range copies_out_of_range : ℕ → Error

pub record CellHeader : Type 0 where
  pub flags : ℕ
  pub tag : Bytes
  pub nonce : Bytes

-- `CellHeader::new`; the draw is the byte that the generator gave, or `none` if it failed.
unfoldable pub new_header : (tag nonce : Bytes) → Option ℕ → Result Error CellHeader
new_header tag nonce none = err rng
new_header tag nonce (some flags) = ok (record { flags = flags; tag = tag; nonce = nonce })

-- `CellHeader::aad`: the slices that are written fill the zeroed array.
unfoldable pub header_aad : CellHeader → Bytes
header_aad h = version ∷ h.flags ∷ (h.tag ++ h.nonce)

pub record Hops : Type 0 where
  pub ttl : ℕ
  pub copies : ℕ

-- `Hops::new`.
unfoldable pub new_hops : (ttl copies : ℕ) → Result Error Hops
new_hops ttl copies =
    if ltb max_ttl ttl
    then err (ttl_out_of_range ttl)
    else (if ltb max_copies copies
        then err (copies_out_of_range copies)
        else ok (record { ttl = ttl; copies = copies }))

-- `Hops::spent`: `ttl.checked_sub(1)`.
unfoldable pub spent : Hops → Option Hops
spent h = if ltb h.ttl 1 then none else some (record h { ttl = h.ttl - 1 })

pub record SealedBody : Type 0 where
  pub ciphertext : Bytes
  pub mac : Bytes

pub record Cell512 : Type 0 where
  pub header : CellHeader
  pub hops : Hops
  pub body : SealedBody

-- `bytes[i]`, where the array is long enough.
abbrev pub head_or_zero : Bytes → ℕ
head_or_zero [] = 0
head_or_zero (b ∷ bs) = b

abbrev pub byte_at : ℕ → Bytes → ℕ
byte_at i bytes = head_or_zero (drop i bytes)

-- `Cell512::from_bytes`.
unfoldable pub from_bytes : Bytes → Result Error Cell512
unfolding new_hops
from_bytes bytes =
    if not (length bytes == cell_len)
    then err invalid_length
    else (if not (byte_at version_at bytes == version)
        then err (unsupported_version (byte_at version_at bytes))
        else (new_hops (byte_at ttl_at bytes) (byte_at copies_at bytes) >>= λ hops. ok (record {
          header = record {
            flags = byte_at flags_at bytes;
            tag = slice tag_at nonce_at bytes;
            nonce = slice nonce_at ciphertext_at bytes;
          };
          hops = hops;
          body = record { ciphertext = slice ciphertext_at mac_at bytes; mac = drop mac_at bytes };
        })))

-- `Cell512::to_bytes`: the eight fields fill the zeroed array in wire order.
unfoldable pub to_bytes : Cell512 → Bytes
to_bytes c =
    version
    ∷ c.header.flags
    ∷ c.hops.ttl
    ∷ c.hops.copies
    ∷ (c.header.tag ++ (c.header.nonce ++ (c.body.ciphertext ++ c.body.mac)))

-- `Cell512::aad`.
unfoldable pub aad : Cell512 → Bytes
unfolding header_aad
aad c = header_aad c.header

-- `Cell512::forwarded`.
unfoldable pub forwarded : Cell512 → Option Cell512
unfolding spent
forwarded c = elim (spent c.hops) [ none ↦ none | some hops ↦ some (record c { hops = hops }) ]
