-- ===== src/Toy/Argon.antt =====
-- Small arithmetic in place of Argon2id.
use quietwire.Base.{
  ℕ, ◌+◌, ◌*◌, ◌/◌, ◌%◌, ◌^◌, ◌≡◌, refl, sym, ap, subst, inl, inr, true, false, Option, none, some,
  arith, leb, ltb, if◌then◌else◌, length, replicate, Bool-cases,
}
use quietwire.Bytes.{Bytes}
use quietwire.Crypto.Password.{Argon2Library, IsArgon2}
use quietwire.Toy.{sum}

-- Argon2id demands at least eight KiB for each lane.
unfoldable pub params_of :
    (memory_kib iterations parallelism output_len : ℕ) → Option (ℕ × ℕ × ℕ × ℕ)
params_of memory_kib iterations parallelism output_len =
    if leb (8 * parallelism) memory_kib
    then some (memory_kib, iterations, parallelism, output_len)
    else none

params_of-some :
    (memory_kib iterations parallelism output_len : ℕ) {params : ℕ × ℕ × ℕ × ℕ}
    → params_of memory_kib iterations parallelism output_len ≡ some params
    → (memory_kib, iterations, parallelism, output_len) ≡ params
unfolding params_of
params_of-some memory_kib iterations parallelism output_len e =
    elim (Bool-cases (leb (8 * parallelism) memory_kib)) [
      | inl enough ↦ ground arith
      | inr little ↦ ground arith
    ]

abbrev pub toy_tag :
    (memory_kib iterations parallelism output_len : ℕ) → (password salt : Bytes) → Bytes
toy_tag memory_kib iterations parallelism output_len password salt =
    replicate output_len
      ((sum password + sum salt + memory_kib + 3 * iterations + 5 * parallelism) % 256)

abbrev pub toy_hash : ℕ × ℕ × ℕ × ℕ → (password salt : Bytes) → (memory : ℕ) → Option Bytes
toy_hash (m, t, p, n) password salt memory =
    if ltb (length password) (2 ^ 32) then some (toy_tag m t p n password salt) else none

abbrev pub toy_blocks : ℕ × ℕ × ℕ × ℕ → ℕ
toy_blocks (m, t, p, n) = 4 * p * (m / (4 * p))

abbrev pub toy_argon2 : Argon2Library
toy_argon2 = record {
  Params = ℕ × ℕ × ℕ × ℕ;
  params_new = params_of;
  block_count = toy_blocks;
  hash_password = toy_hash;
}

pub toy-IsArgon2 : IsArgon2 toy_argon2 toy_tag
unfolding params_of
toy-IsArgon2 = record {
  accepts = λ m t p n h _ _ _ _ _ _ _.
      let enough : leb (8 * p) m ≡ true = ground arith in ((m, t, p, n), rw enough refl);
  blocks = λ m t p n params e. ap toy_blocks (sym (params_of-some m t p n e));
  hashes = λ m t p n params password salt memory e h _ _ _.
      let short : ltb (length password) (2 ^ 32) ≡ true = ground arith in
      subst (λ q. toy_hash q password salt memory ≡ some (toy_tag m t p n password salt))
        (params_of-some m t p n e) (rw short refl);
  refuses = λ m t p n params password salt memory e h.
      let long : ltb (length password) (2 ^ 32) ≡ false = ground arith in
      subst (λ q. toy_hash q password salt memory ≡ none) (params_of-some m t p n e) (rw long refl);
}
