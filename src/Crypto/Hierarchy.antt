-- ===== src/Crypto/Hierarchy.antt =====
-- crates/quietwire-crypto/src/hierarchy.rs: the key that encrypts data at rest and its subkeys.
pub mod Wrapping
mod Tests
use quietwire.Base.{ℕ, ◌+◌, List, [], ◌∷◌, ◌++◌, take, drop, length, if◌then◌else◌, ◌==◌}
use quietwire.Base.{Result, ok, err, panic, map_ok, ◌>>=◌}
use quietwire.Bytes.{Bytes}
use quietwire.Crypto.{Error, Primitives}
use quietwire.Crypto.Secret.{SecretKey, Draw, random, from_slice, key_len}
use quietwire.Crypto.Aead
use quietwire.Crypto.Aead.{Nonce, seal, open_sealed, nonce_len, tag_len}
use quietwire.Crypto.Kdf.{hkdf_sha512}

abbrev pub wrapped_dek_len : ℕ
wrapped_dek_len = nonce_len + key_len + tag_len

-- `WRAP_AAD`: "QUIETWIRE-DEK-WRAP-v1".
abbrev pub wrap_aad : Bytes
wrap_aad =
    0x51 ∷ 0x55 ∷ 0x49 ∷ 0x45 ∷ 0x54 ∷ 0x57 ∷ 0x49 ∷ 0x52 ∷ 0x45 ∷ 0x2d ∷ 0x44 ∷ 0x45 ∷ 0x4b ∷ 0x2d
    ∷ 0x57 ∷ 0x52 ∷ 0x41 ∷ 0x50 ∷ 0x2d ∷ 0x76 ∷ 0x31 ∷ []

-- `SUBKEY_LABEL`: "QUIETWIRE-DEK-v1".
abbrev pub subkey_label : Bytes
subkey_label =
    0x51 ∷ 0x55 ∷ 0x49 ∷ 0x45 ∷ 0x54 ∷ 0x57 ∷ 0x49 ∷ 0x52 ∷ 0x45 ∷ 0x2d ∷ 0x44 ∷ 0x45 ∷ 0x4b ∷ 0x2d
    ∷ 0x76 ∷ 0x31 ∷ []

pub record Kek : Type 0 where
  pub key : SecretKey

pub record Dek : Type 0 where
  pub key : SecretKey

pub record WrappedDek : Type 0 where
  pub to_bytes : Bytes

pub data Purpose : Type 0 where
  db field identity sessions meta : Purpose

-- `Purpose::label`: the name's ASCII bytes.
unfoldable pub label : Purpose → Bytes
label db = 0x64 ∷ 0x62 ∷ []
label field = 0x66 ∷ 0x69 ∷ 0x65 ∷ 0x6c ∷ 0x64 ∷ []
label identity = 0x69 ∷ 0x64 ∷ 0x65 ∷ 0x6e ∷ 0x74 ∷ 0x69 ∷ 0x74 ∷ 0x79 ∷ []
label sessions = 0x73 ∷ 0x65 ∷ 0x73 ∷ 0x73 ∷ 0x69 ∷ 0x6f ∷ 0x6e ∷ 0x73 ∷ []
label meta = 0x6d ∷ 0x65 ∷ 0x74 ∷ 0x61 ∷ []

-- The info that `Dek::subkey` expands with.
unfoldable pub subkey_info : Purpose → Bytes
unfolding label
subkey_info purpose = subkey_label ++ label purpose

-- `Dek::generate`.
unfoldable pub generate : Draw → Result Error Dek
generate draw = map_ok (λ key. record { key = key }) (random draw)

-- `copy_from_slice` panics unless what was sealed fills the array behind the nonce.
unfoldable pub wrapped_of : Nonce → Bytes → Result Error WrappedDek
wrapped_of nonce sealed =
    if length sealed == key_len + tag_len
    then ok (record { to_bytes = nonce.as_bytes ++ sealed })
    else panic

module _ (P : Primitives) where
  -- `Dek::wrap_with`, on what `Nonce::random` drew.
  unfoldable pub wrap_with : Dek → Kek → Draw → Result Error WrappedDek
  unfolding wrapped_of
  wrap_with dek kek draw = do
    nonce ← Aead.random draw
    sealed ← seal P kek.key nonce wrap_aad dek.key.expose_secret
    wrapped_of nonce sealed

  -- `WrappedDek::unwrap_with`.
  unfoldable pub unwrap_with : WrappedDek → Kek → Result Error Dek
  unwrap_with wrapped kek = do
    dek ←
        open_sealed P kek.key (record { as_bytes = take nonce_len wrapped.to_bytes }) wrap_aad
          (drop nonce_len wrapped.to_bytes)
    map_ok (λ key. record { key = key }) (from_slice dek)

  unfoldable pub subkey : Dek → Purpose → Result Error SecretKey
  unfolding subkey_info
  subkey dek purpose = do
    okm ← hkdf_sha512 P dek.key.expose_secret [] (subkey_info purpose) key_len
    from_slice okm
