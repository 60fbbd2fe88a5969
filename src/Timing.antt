-- ===== src/Timing.antt =====
-- tools/timing/src/main.rs: the operations that the timing tool measures. A bench gives the class and
-- the answer of each timed call; how long it takes has no value here. The coin, what the environment
-- variable parses to and the runner's clock are outside: the first two are arguments.
pub mod Keys
pub mod Tags
mod Tests
use quietwire.Base.{
  ℕ, zero, suc, ◌+◌, ◌-◌, ◌%◌, ◌≡◌, Bool, true, false, ◌&&◌, Option, none, some, List, [], ◌∷◌, map,
  length, get_elem?, update, replicate, ltb, ◌==◌, if◌then◌else◌,
}
use quietwire.Base.{Result, ok, err, panic, ◌>>=◌}
use quietwire.Bytes.{Bytes}
use quietwire.Crypto.{Error, Primitives}
use quietwire.Crypto.Secret.{SecretKey, key_len, from_slice, secret_eq}
use quietwire.Crypto.Aead.{Nonce, tag_len, seal, open_sealed}
use Prim.Native.Nat.{bit_xor}

pub data Class : Type 0 where
  left right : Class

abbrev pub base : Bytes
base = replicate key_len 0x2a

abbrev pub nonce : Nonce
nonce = record { as_bytes = replicate 24 0x5c }

-- "aad".
abbrev pub aad : Bytes
aad = 0x61 ∷ 0x61 ∷ 0x64 ∷ []

abbrev pub plaintext : Bytes
plaintext = replicate 452 0x11

abbrev pub default_samples : ℕ
default_samples = 10000000

abbrev pub samples_or_default : Option ℕ → ℕ
samples_or_default none = default_samples
samples_or_default (some n) = n

-- The samples from number `i` on, by the coin's falls.
unfoldable pub drawn_from : ℕ → ℕ → (ℕ → Bool) → List Class
drawn_from i zero coin = []
drawn_from i (suc n) coin = (if coin i then left else right) ∷ drawn_from (suc i) n coin

unfoldable pub classes : Option ℕ → (ℕ → Bool) → List Class
unfolding drawn_from
classes samples coin = drawn_from 0 (samples_or_default samples) coin

-- `expect`.
abbrev pub expect : {A : Type 0} → Result Error A → Result Error A
expect (ok a) = ok a
expect (err e) = panic
expect panic = panic

unfoldable pub key : Bytes → Result Error SecretKey
key bytes = expect (from_slice bytes)

-- `bytes[at] ^= 0xff`, which panics out of bounds.
unfoldable pub flip_at : ℕ → Bytes → Result Error Bytes
flip_at at bytes = elim (get_elem? bytes at) [
  | none ↦ panic
  | some byte ↦ ok (update bytes at (bit_xor byte 0xff))
]

unfoldable pub differing_at : ℕ → Result Error SecretKey
unfolding key flip_at
differing_at at = flip_at at base >>= key

abbrev pub pick : {A : Type 0} → Class → A → A → A
pick left a b = a
pick right a b = b

abbrev pub is_ok : {A : Type 0} → Result Error A → Bool
is_ok (ok a) = true
is_ok (err e) = false
is_ok panic = false

module _ (P : Primitives) where
  -- The loop of `aead_tag`: a tag byte is made wrong for the call, and right again after it.
  unfoldable pub tag_loop :
      SecretKey → (first last : ℕ) → List Class → Bytes → Result Error (List (Class × Bool) × Bytes)
  tag_loop k first last [] sealed = ok ([], sealed)
  tag_loop k first last (class ∷ more) sealed = flip_at (pick class first last) sealed >>= λ wrong.
      flip_at (pick class first last) wrong >>= λ back. tag_loop k first last more back >>= λ rest.
      ok ((class, is_ok (open_sealed P k nonce aad wrong)) ∷ rest.0, rest.1)

  unfoldable pub aead_tag : List Class → Result Error (List (Class × Bool) × Bytes)
  unfolding tag_loop
  aead_tag drawn = do
    k ← key base
    sealed ← expect (seal P k nonce aad plaintext)
    tag_loop k (length sealed - tag_len) (length sealed - 1) drawn sealed

-- A bench on keys, by its comparison.
abbrev pub key_bench :
    (SecretKey → SecretKey → Bool) → List Class → Result Error (List (Class × Bool))
key_bench compare drawn = do
  base_key ← key base
  early ← differing_at 0
  late ← differing_at (key_len - 1)
  ok (map (λ class. (class, compare base_key (pick class early late))) drawn)

unfoldable pub secret_key_eq : List Class → Result Error (List (Class × Bool))
secret_key_eq = key_bench secret_eq

-- `base[index] == other[index]`, where both are in bounds.
abbrev pub same_byte : Bytes → Bytes → ℕ → Bool
same_byte a b index = elim (get_elem? a index) [
  | none ↦ false
  | some x ↦ elim (get_elem? b index) [ none ↦ false | some y ↦ x == y ]
]

-- `while index < KEY_LEN && base[index] == other[index]`, on fuel.
unfoldable pub equal_bytes : (len fuel index : ℕ) → Bytes → Bytes → ℕ
equal_bytes len zero index a b = index
equal_bytes len (suc fuel) index a b = elim (ltb index len && same_byte a b index) [
  | true ↦ equal_bytes len fuel (suc index) a b
  | false ↦ index
]

-- The comparison of the deliberate mutant.
unfoldable pub mutant_eq : SecretKey → SecretKey → Bool
unfolding equal_bytes
mutant_eq a b = equal_bytes key_len key_len 0 a.expose_secret b.expose_secret == key_len

unfoldable pub mutant_secret_key_eq : List Class → Result Error (List (Class × Bool))
unfolding mutant_eq
mutant_secret_key_eq = key_bench mutant_eq
