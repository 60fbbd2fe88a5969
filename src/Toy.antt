-- ===== src/Toy.antt =====
-- Library functions that meet the documented behaviour: small arithmetic in place of cryptography,
-- so that the theorems can be applied and the definitions run. No theorem of the program names them.
pub mod Argon
use quietwire.Base.{
  ℕ, ◌+◌, ◌-◌, ◌*◌, ◌%◌, ◌≤◌, ◌≡◌, refl, ap, true, ◌&&◌, Option, none, some, [], ◌∷◌, ◌++◌, arith,
  leb, length, take, drop, replicate, length-replicate, length-append, take-append, drop-append,
  length-take, if◌then◌else◌,
}
use quietwire.Bytes.{Bytes, beq, beq_refl}
use quietwire.Crypto.{Primitives, HasLengths, OpensSealed, DhCommutes}
use quietwire.Crypto.MlKem.{KemLibrary, Decapsulates}
use quietwire.Crypto.Ed25519.{SignatureLibrary}

abbrev pub sum : Bytes → ℕ
sum [] = 0
sum (b ∷ bs) = b + sum bs

abbrev pub first : Bytes → ℕ
first [] = 0
first (b ∷ bs) = b

unfoldable pub mac : (key nonce aad msg : Bytes) → ℕ
mac key nonce aad msg = (sum key + 3 * sum nonce + 5 * sum aad + 7 * sum msg) % 256

unfoldable pub multiply : (scalar point : Bytes) → Bytes
multiply scalar point = replicate 32 ((first scalar + first point) % 251)

unfoldable pub expand : (salt ikm info : Bytes) → ℕ → Option Bytes
expand salt ikm info n =
    if leb n 16320 then some (replicate n ((sum salt + 3 * sum ikm + sum info) % 256)) else none

unfoldable pub authenticate : (key message : Bytes) → Bytes
authenticate key message = replicate 64 ((sum key + 7 * first message + 1) % 256)

unfoldable pub tag_of : (key nonce aad msg : Bytes) → Bytes
unfolding mac
tag_of key nonce aad msg = replicate 16 (mac key nonce aad msg)

unfoldable pub encrypt : (key nonce aad msg : Bytes) → Option Bytes
encrypt key nonce aad msg = some (msg ++ tag_of key nonce aad msg)

unfoldable pub decrypt : (key nonce aad sealed : Bytes) → Option Bytes
decrypt key nonce aad sealed =
    let msg = take (length sealed - 16) sealed in
    let tag = drop (length sealed - 16) sealed in
    if leb 16 (length sealed) && beq tag (tag_of key nonce aad msg) then some msg else none

unfoldable pub digest : (context input : Bytes) → Bytes
digest context input = replicate 32 ((sum context + sum input) % 256)

abbrev pub toy : Primitives
toy = record {
  x25519 = multiply;
  basepoint = 9 ∷ [];
  hkdf_expand = expand;
  hmac = authenticate;
  aead_encrypt = encrypt;
  aead_decrypt = decrypt;
  blake3_keyed_hash = digest;
  blake3_derive_key = digest;
}

expand_len :
    (salt ikm info : Bytes) (n : ℕ) {okm : Bytes}
    → expand salt ikm info n ≡ some okm
    → length okm ≡ n
unfolding expand
expand_len salt ikm info n e =
    ground (arith, length-replicate n ((sum salt + 3 * sum ikm + sum info) % 256))

expand_total :
    (salt ikm info : Bytes) (n : ℕ)
    → n ≤ 16320
    → (okm : Bytes) × (expand salt ikm info n ≡ some okm)
unfolding expand
expand_total salt ikm info n h =
    (replicate n ((sum salt + 3 * sum ikm + sum info) % 256), ground arith)

length-tag_of : (key nonce aad msg : Bytes) → length (tag_of key nonce aad msg) ≡ 16
unfolding tag_of
length-tag_of key nonce aad msg = refl

encrypt_len :
    (key nonce aad msg : Bytes) {sealed : Bytes}
    → encrypt key nonce aad msg ≡ some sealed
    → length sealed ≡ length msg + 16
unfolding encrypt
encrypt_len key nonce aad msg e =
    ground (arith, length-append msg (tag_of key nonce aad msg), length-tag_of key nonce aad msg)

decrypt_len :
    (key nonce aad sealed : Bytes) {msg : Bytes}
    → decrypt key nonce aad sealed ≡ some msg
    → length sealed ≡ length msg + 16
unfolding decrypt
decrypt_len key nonce aad sealed e = ground (arith, length-take (length sealed - 16) sealed)

decrypt_tagged :
    (key nonce aad msg tag : Bytes)
    → length tag ≡ 16
    → tag_of key nonce aad msg ≡ tag
    → decrypt key nonce aad (msg ++ tag) ≡ some msg
unfolding decrypt
decrypt_tagged key nonce aad msg tag h e = rw (
  size,
  take-append (length msg) msg tag refl,
  drop-append (length msg) msg tag refl,
  e,
  long,
  beq_refl tag,
)
  where
    size : length (msg ++ tag) - 16 ≡ length msg
    size = omega (arith, length-append msg tag)

    long : leb 16 (length (msg ++ tag)) ≡ true
    long = let le : 16 ≤ length (msg ++ tag) = omega (arith, length-append msg tag) in ground arith

decrypt-encrypt :
    (key nonce aad msg : Bytes) {sealed : Bytes}
    → encrypt key nonce aad msg ≡ some sealed
    → decrypt key nonce aad sealed ≡ some msg
unfolding encrypt
decrypt-encrypt key nonce aad msg e = ground (
  arith,
  decrypt_tagged key nonce aad msg (tag_of key nonce aad msg) (length-tag_of key nonce aad msg)
      refl,
)

pub toy-HasLengths : HasLengths toy
toy-HasLengths = record {
  x25519_len = λ s p. unfold multiply in length-replicate 32 ((first s + first p) % 251);
  hkdf_len = λ s i o n e. expand_len s i o n e;
  hkdf_total = expand_total;
  hmac_len = λ k m. unfold authenticate in length-replicate 64 ((sum k + 7 * first m + 1) % 256);
  encrypt_len = λ k n a m e. encrypt_len k n a m e;
  decrypt_len = λ k n a m e. decrypt_len k n a m e;
  derive_key_len = λ c k. unfold digest in length-replicate 32 ((sum c + sum k) % 256);
}

pub toy-OpensSealed : OpensSealed toy
toy-OpensSealed = record {
  seals = λ k n a m h. (m ++ tag_of k n a m, unfold encrypt in refl);
  opens = λ k n a m e. decrypt-encrypt k n a m e;
}

multiply_comm : (a b : Bytes) → multiply a (multiply b (9 ∷ [])) ≡ multiply b (multiply a (9 ∷ []))
unfolding multiply
multiply_comm a b =
    let e : (first a + (first b + 9) % 251) % 251 ≡ (first b + (first a + 9) % 251) % 251 =
      omega arith in
    ap (replicate 32) e

pub toy-DhCommutes : DhCommutes toy
toy-DhCommutes = record { commutes = multiply_comm }

abbrev pub toy_kem : KemLibrary
toy_kem = record {
  Key = Bytes;
  parse = λ bytes. some bytes;
  print = λ key. key;
  public_of = λ seed. seed;
  encapsulate = λ key randomness. (randomness, replicate 32 ((sum key + sum randomness) % 256));
  decapsulate = λ seed ciphertext. replicate 32 ((sum seed + sum ciphertext) % 256);
}

pub toy_kem-Decapsulates : Decapsulates toy_kem
toy_kem-Decapsulates = record { agrees = λ seed randomness. refl }

abbrev pub toy_signature : SignatureLibrary
toy_signature = record {
  Key = Bytes;
  parse = λ bytes. some bytes;
  print = λ key. key;
  public_of = λ seed. seed;
  sign = λ seed message. replicate 64 ((sum seed + sum message) % 256);
  verify_strict =
      λ key message signature. beq signature (replicate 64 ((sum key + sum message) % 256));
}
