-- ===== src/Ratchet/Chain.antt =====
-- `Chain`, `Cursor` and the two key derivations.
pub mod Schedule
pub mod Keys
pub mod MessageKey
use quietwire.Base.{
  ℕ, zero, suc, ◌+◌, ◌-◌, ◌*◌, ◌%◌, ◌^◌, ◌||◌, Bool, true, false, List, [], ◌∷◌, ◌++◌, ltb, leb,
  if◌then◌else◌, length, take, drop, not, ◌==◌,
}
use quietwire.Base.{Result, ok, err, panic, ◌>>=◌, map_err}
use quietwire.Bytes.{Bytes}
use quietwire.Crypto.{Primitives, authentication}
use quietwire.Crypto.Secret.{SecretKey, from_slice, key_len}
use quietwire.Crypto.Kdf.{hkdf_sha512, hmac_sha512}
use quietwire.Crypto.X25519.{PrivateKey, PublicKey, diffie_hellman}
use quietwire.Ratchet.{Key, Error, crypto, too_far_ahead, chain_limit, max_skip_per_chain}

pub record Chain : Type 0 where
  pub key : SecretKey
  pub next : ℕ

-- `Chain::start`.
unfoldable pub start : Key → Result Error Chain
start key = do k ← map_err crypto (from_slice key); ok (record { key = k; next = 0 })

pub record Cursor : Type 0 where
  pub key : Key
  pub next : ℕ
  pub skipped : List (ℕ × Key)

-- `Cursor::new` and `Cursor::at`.
unfoldable pub new : Key → Cursor
new key = record { key = key; next = 0; skipped = [] }

unfoldable pub at : Chain → Cursor
at chain = record { key = chain.key.expose_secret; next = chain.next; skipped = [] }

-- `Cursor::into_chain`.
unfoldable pub into_chain : Cursor → Result Error Chain
into_chain c = do k ← map_err crypto (from_slice c.key); ok (record { key = k; next = c.next })

-- `ROOT_INFO`: "QUIETWIRE-ROOT-v1".
abbrev pub root_info : Bytes
root_info =
    0x51 ∷ 0x55 ∷ 0x49 ∷ 0x45 ∷ 0x54 ∷ 0x57 ∷ 0x49 ∷ 0x52 ∷ 0x45 ∷ 0x2d ∷ 0x52 ∷ 0x4f ∷ 0x4f ∷ 0x54
    ∷ 0x2d ∷ 0x76 ∷ 0x31 ∷ []

abbrev pub message_key_input : Bytes
message_key_input = 0x01 ∷ []

abbrev pub chain_key_input : Bytes
chain_key_input = 0x02 ∷ []

-- `array::<32>`: `copy_from_slice` panics on any other length.
unfoldable pub key_array : Bytes → Result Error Key
key_array bytes = if length bytes == key_len then ok bytes else panic

module _ (P : Primitives) where
  -- The next root key and a new chain key.
  unfoldable pub kdf_root : SecretKey → PrivateKey → PublicKey → Result Error (SecretKey × Key)
  unfolding key_array
  kdf_root root_key own remote = do
    shared ← map_err crypto (diffie_hellman P own remote)
    out ←
        map_err crypto
          (hkdf_sha512 P shared.expose_secret root_key.expose_secret root_info (2 * key_len))
    next_root_key ← map_err crypto (from_slice (take key_len out))
    chain_key ← key_array (drop key_len out)
    ok (next_root_key, chain_key)

  -- The message key and the next chain key; an HMAC has 64 bytes by its type.
  unfoldable pub kdf_chain : Key → Key × Key
  kdf_chain chain_key = (
    take key_len (hmac_sha512 P chain_key message_key_input),
    take key_len (hmac_sha512 P chain_key chain_key_input),
  )

  -- `Cursor::next_message_key`; `next` is a `u32`.
  unfoldable pub next_message_key : Cursor → Key × Cursor
  unfolding kdf_chain
  next_message_key c =
      let (message_key, chain_key) = kdf_chain c.key in
      (message_key, record c { key = chain_key; next = (c.next + 1) % 2 ^ 32 })

  -- One round of the loop of `skip_to`.
  unfoldable pub skip_one : Cursor → Cursor
  unfolding next_message_key
  skip_one c =
      let (key, c') = next_message_key c in
      record c' { skipped = c'.skipped ++ ((c.next, key) ∷ []) }

  -- `while self.next < until`, on fuel.
  unfoldable pub skip_loop : ℕ → Cursor → ℕ → Cursor
  unfolding skip_one
  skip_loop zero c until = c
  skip_loop (suc fuel) c until = elim (ltb c.next until) [
    | true ↦ skip_loop fuel (skip_one c) until
    | false ↦ c
  ]

  -- `Cursor::skip_to`. Where it fails the caller drops the cursor, so no cursor is returned.
  unfoldable pub skip_to : Cursor → ℕ → Result Error Cursor
  skip_to c until =
      if ltb chain_limit until || ltb max_skip_per_chain (until - c.next)
      then err too_far_ahead
      else ok (skip_loop (until - c.next) c until)

  -- `Cursor::message_key`.
  unfoldable pub message_key : Cursor → ℕ → Result Error (Key × Cursor)
  message_key c number =
      if leb chain_limit number
      then err too_far_ahead
      else (if ltb number c.next
          then err (crypto authentication)
          else do c' ← skip_to c number; ok (next_message_key c'))
