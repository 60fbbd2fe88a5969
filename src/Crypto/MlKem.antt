-- ===== src/Crypto/MlKem.antt =====
-- crates/quietwire-crypto/src/mlkem.rs: ML-KEM-768. The library ml-kem is a parameter.
use quietwire.Base.{ℕ, ◌≡◌, Option, ◌++◌, ap}
use quietwire.Base.{Result, ok, ok_or, ◌>>=◌}
use quietwire.Bytes.{Bytes}
use quietwire.Crypto.{Error, invalid_public_key}
use quietwire.Crypto.Secret.{SecretKey, Draw, fill, random, from_array}

abbrev pub encapsulation_key_len : ℕ
encapsulation_key_len = 1184

abbrev pub ciphertext_len : ℕ
ciphertext_len = 1088

-- What the crate calls of ml-kem; a decapsulation key is its 64-byte seed.
pub record KemLibrary : Type 1 where
  pub Key : Type 0
  -- `EncapsulationKey::new`, which makes the modulus check, and `to_bytes`.
  pub parse : Bytes → Option Key
  pub print : Key → Bytes
  -- `DecapsulationKey::from_seed(seed).encapsulation_key()`.
  pub public_of : Bytes → Key
  -- `encapsulate_deterministic`: the ciphertext and the shared key.
  pub encapsulate : Key → Bytes → Bytes × Bytes
  -- `DecapsulationKey::from_seed(seed).decapsulate`.
  pub decapsulate : Bytes → Bytes → Bytes

-- A shared key that was encapsulated for a key pair is the one that the pair decapsulates. FIPS 203
-- has a failure rate of about 2^-164 here.
pub record Decapsulates (K : KemLibrary) : Type 0 where
  pub agrees :
      (seed randomness : Bytes)
      → let (ciphertext, shared) = K.encapsulate (K.public_of seed) randomness in
        K.decapsulate seed ciphertext ≡ shared

pub record DecapsulationKey : Type 0 where
  pub d : SecretKey
  pub z : SecretKey

pub record Ciphertext : Type 0 where
  pub as_bytes : Bytes

-- `DecapsulationKey::generate`, with the generator's two draws, and `from_seed`.
unfoldable pub from_seed : SecretKey → SecretKey → DecapsulationKey
from_seed d z = record { d = d; z = z }

unfoldable pub generate : Draw → Draw → Result Error DecapsulationKey
unfolding from_seed
generate first second = do d ← random first; z ← random second; ok (from_seed d z)

-- `DecapsulationKey::expand`: the two halves of the seed.
abbrev pub expand : DecapsulationKey → Bytes
expand key = key.d.expose_secret ++ key.z.expose_secret

module _ (K : KemLibrary) where
  pub record EncapsulationKey : Type 0 where
    pub inner : K.Key

  unfoldable pub from_bytes : Bytes → Result Error EncapsulationKey
  from_bytes bytes = do
    inner ← ok_or (K.parse bytes) invalid_public_key
    ok (record { inner = inner })

  unfoldable pub to_bytes : EncapsulationKey → Bytes
  to_bytes key = K.print key.inner

  unfoldable pub encapsulation_key : DecapsulationKey → EncapsulationKey
  encapsulation_key key = record { inner = K.public_of (expand key) }

  -- The function `decapsulate_with`; the expanded key is given by its seed.
  unfoldable pub decapsulate_with : Bytes → Ciphertext → SecretKey
  decapsulate_with seed ciphertext = from_array (K.decapsulate seed ciphertext.as_bytes)

  unfoldable pub decapsulate : DecapsulationKey → Ciphertext → SecretKey
  unfolding decapsulate_with
  decapsulate key ciphertext = decapsulate_with (expand key) ciphertext

  unfoldable pub encapsulate_with : EncapsulationKey → Bytes → Ciphertext × SecretKey
  encapsulate_with key randomness =
      let (ciphertext, shared) = K.encapsulate key.inner randomness in
      (record { as_bytes = ciphertext }, from_array shared)

  unfoldable pub encapsulate : EncapsulationKey → Draw → Result Error (Ciphertext × SecretKey)
  unfolding encapsulate_with
  encapsulate key draw = do randomness ← fill draw; ok (encapsulate_with key randomness)

  -- The holder of the key decapsulates what was encapsulated for it.
  pub decapsulate-encapsulate_with :
      Decapsulates K
      → (key : DecapsulationKey) (randomness : Bytes)
      → let (ciphertext, shared) = encapsulate_with (encapsulation_key key) randomness in
        decapsulate key ciphertext ≡ shared
  unfolding decapsulate encapsulate_with encapsulation_key
  decapsulate-encapsulate_with D key randomness = ap from_array (D.agrees (expand key) randomness)
