-- ===== src/Crypto/Password.antt =====
-- crates/quietwire-crypto/src/password.rs: Argon2id. The library argon2 is a parameter, and
-- so is whether the allocator gives the working memory. An abort of the program is `panic`.
use quietwire.Base.{
  ℕ, ◌*◌, ◌/◌, ◌%◌, ◌^◌, ◌≤◌, ◌<◌, ◌≡◌, refl, sym, subst, ap, ◌∙◌, ◌⊎◌, inl, inr, Bool, true, false,
  Bool-cases, Option, none, some, ltb, length, if◌then◌else◌,
}
use quietwire.Base.{Result, ok, err, panic, ok_or, map_ok, ◌>>=◌, arith}
use quietwire.Bytes.{Bytes}
use quietwire.Crypto.{Error, kdf}
use quietwire.Crypto.Secret.{SecretKey, Draw, fill, build_in_place, key_len}
use quietwire.Crypto.Hierarchy.{Kek}

abbrev pub salt_len : ℕ
salt_len = 32

pub record KdfParams : Type 0 where
  pub memory_kib : ℕ
  pub iterations : ℕ
  pub parallelism : ℕ

abbrev pub mobile : KdfParams
mobile = record { memory_kib = 262144; iterations = 4; parallelism = 2 }

abbrev pub desktop : KdfParams
desktop = record { memory_kib = 1048576; iterations = 4; parallelism = 2 }

pub record Salt : Type 0 where
  pub as_bytes : Bytes

-- `Salt::random`.
unfoldable pub random : Draw → Result Error Salt
random draw = do bytes ← fill draw; ok (record { as_bytes = bytes })

-- What the crate calls of argon2: `Params::new` with the output's length, `Params::block_count`, and
-- `hash_password_into_with_memory` on a buffer of that length and a number of blocks of memory.
pub record Argon2Library : Type 1 where
  pub Params : Type 0
  pub params_new : (memory_kib iterations parallelism output_len : ℕ) → Option Params
  pub block_count : Params → ℕ
  pub hash_password : Params → (password salt : Bytes) → (memory : ℕ) → Option Bytes

-- `vec![Block::new(); blocks]`, on whether the allocator gives that much. The program is aborted if it
-- does not.
abbrev pub allocated : Bool → ℕ → Result Error ℕ
allocated true blocks = ok blocks
allocated false blocks = panic

module _ (A : Argon2Library) (allocates : ℕ → Bool) where
  unfoldable pub argon2id : (password : Bytes) → Salt → KdfParams → Result Error SecretKey
  argon2id password salt params = do
    params' ←
        ok_or (A.params_new params.memory_kib params.iterations params.parallelism key_len) kdf
    working_memory ← allocated (allocates (A.block_count params')) (A.block_count params')
    build_in_place (λ _. ok_or (A.hash_password params' password salt.as_bytes working_memory) kdf)

  unfoldable pub derive_kek : (password : Bytes) → Salt → KdfParams → Result Error Kek
  unfolding argon2id
  derive_kek password salt params =
      map_ok (λ key. record { key = key }) (argon2id password salt params)

-- What argon2 documents: `params_new` takes every cost of RFC 9106 and divides the memory into four
-- slices for each lane, and the hash is the tag of the RFC, unless the password has 2^32 bytes or
-- more.
pub record IsArgon2 (A : Argon2Library)
    (tag : (memory_kib iterations parallelism output_len : ℕ) → (password salt : Bytes) → Bytes)
    : Type 0 where
  pub accepts :
      (m t p n : ℕ)
      → 8 * p ≤ m
      → m < 2 ^ 32
      → 1 ≤ t
      → t < 2 ^ 32
      → 1 ≤ p
      → p < 2 ^ 24
      → 4 ≤ n
      → n < 2 ^ 32
      → (params : A.Params) × (A.params_new m t p n ≡ some params)
  pub blocks :
      (m t p n : ℕ) (params : A.Params)
      → A.params_new m t p n ≡ some params
      → A.block_count params ≡ 4 * p * (m / (4 * p))
  pub hashes :
      (m t p n : ℕ) (params : A.Params) (password salt : Bytes) (memory : ℕ)
      → A.params_new m t p n ≡ some params
      → length password < 2 ^ 32
      → 8 ≤ length salt
      → length salt < 2 ^ 32
      → A.block_count params ≤ memory
      → A.hash_password params password salt memory ≡ some (tag m t p n password salt)
  pub refuses :
      (m t p n : ℕ) (params : A.Params) (password salt : Bytes) (memory : ℕ)
      → A.params_new m t p n ≡ some params
      → 2 ^ 32 ≤ length password
      → A.hash_password params password salt memory ≡ none

module _ (A : Argon2Library) (allocates : ℕ → Bool)
    (tag : (memory_kib iterations parallelism output_len : ℕ)
      → (password salt : Bytes) → Bytes) where
  -- The key of RFC 9106 with the profile's costs.
  abbrev tag_kek : (password : Bytes) → Salt → KdfParams → Kek
  tag_kek password salt params = record {
    key = record {
      expose_secret =
          tag params.memory_kib params.iterations params.parallelism 32 password salt.as_bytes;
    };
  }

  -- What `derive_kek` gives with some costs.
  abbrev Derives : (password : Bytes) → Salt → KdfParams → Type 0
  Derives password salt params = derive_kek A allocates password salt params ≡ (
      if allocates params.memory_kib
      then (if ltb (length password) (2 ^ 32) then ok (tag_kek password salt params) else err kdf)
      else panic)

  derive_kek-run :
      IsArgon2 A tag
      → (password : Bytes) (salt : Salt) (params : KdfParams) → length salt.as_bytes ≡ salt_len
      → params.memory_kib < 2 ^ 32
      → 1 ≤ params.iterations
      → params.iterations < 2 ^ 32
      → params.parallelism ≡ 2
      → 16 ≤ params.memory_kib
      → params.memory_kib % 8 ≡ 0
      → Derives password salt params
  unfolding derive_kek argon2id build_in_place
  derive_kek-run V password salt params hs hm hi hi' hp hl h8 =
      let (q, e) =
        V.accepts params.memory_kib params.iterations params.parallelism 32 (omega arith) hm hi hi'
          (omega arith) (omega arith) (omega arith) (omega arith) in
      let size : A.block_count q ≡ params.memory_kib =
        V.blocks params.memory_kib params.iterations params.parallelism 32 q e
        ∙ ap (λ p. 4 * p * (params.memory_kib / (4 * p))) hp
        ∙ omega arith in
      let room = ap allocates size in
      elim (Bool-cases (allocates params.memory_kib)) [
        | inr none_left ↦
            let none_there = room ∙ none_left in
            rw none_left (rw (argon2id, e) (rw none_there refl))
        | inl given ↦
            let there = room ∙ given in
            elim (Bool-cases (ltb (length password) (2 ^ 32))) [
              | inl short ↦
                  let hashed =
                    V.hashes params.memory_kib params.iterations params.parallelism 32 q password
                      salt.as_bytes (A.block_count q) e (ground arith) (omega arith) (omega arith)
                      (omega arith) in
                  rw (given, short) (rw (argon2id, e) (rw (there, hashed) refl))
              | inr long ↦
                  let refused =
                    V.refuses params.memory_kib params.iterations params.parallelism 32 q password
                      salt.as_bytes (A.block_count q) e (ground arith) in
                  rw (given, long) (rw (argon2id, e) (rw (there, refused) refl))
            ]
      ]

  -- With each of the two profiles and a salt of 32 bytes, `derive_kek` gives the key that RFC 9106
  -- fixes for the profile's costs, the password and the salt, in this order: it aborts the program,
  -- and gives no error, if the allocator does not give the profile's memory, a block for each KiB; it
  -- gives the error of the key derivation if the password has 2^32 bytes or more; it gives the key
  -- otherwise. That the library is the Argon2 of its documentation is assumed.
  pub derive_kek_lem :
      IsArgon2 A tag
      → (password : Bytes) (salt : Salt) (params : KdfParams) → length salt.as_bytes ≡ salt_len
      → (params ≡ mobile) ⊎ (params ≡ desktop)
      → Derives password salt params
  derive_kek_lem V password salt params hs (inl e) = subst (Derives password salt) (sym e) (
      derive_kek-run V password salt mobile hs (omega arith) (omega arith) (omega arith) refl
        (omega arith) refl)
  derive_kek_lem V password salt params hs (inr e) = subst (Derives password salt) (sym e) (
      derive_kek-run V password salt desktop hs (omega arith) (omega arith) (omega arith) refl
        (omega arith) refl)
