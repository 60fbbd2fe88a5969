-- ===== src/Timing/Tests.antt =====
-- The theorems about the timing tool, applied to small draws over the toy cipher.
use quietwire.Base.{
  ◌-◌, ◌≡◌, refl, sym, subst, ap, ap₂, ◌∙◌, true, some, List, [], ◌∷◌, ◌++◌, arith, length, take,
  drop, take-append-drop, All, All-append, All-replicate, replicate,
}
use quietwire.Base.{ok}
use quietwire.Bytes.{Bytes, IsByte, beq, beq→eq}
use quietwire.Crypto.Secret.{SecretKey, key_len, from_slice, secret_eq}
use quietwire.Crypto.Aead.{seal}
use quietwire.Timing.{
  Class, left, right, base, nonce, aad, plaintext, aead_tag, equal_bytes, mutant_eq,
}
use quietwire.Timing.Keys.{all_false, common_prefix, mutant_eq-secret_eq}
use quietwire.Timing.Tags.{Authenticates, aead_tag_lem}
use mathlib.Core.Option.{some-injective}
use quietwire.Toy.{toy, toy-HasLengths, toy-OpensSealed, encrypt, decrypt, tag_of, mac}

decrypt-tag :
    (key nonce aad sealed : Bytes) {msg : Bytes}
    → decrypt key nonce aad sealed ≡ some msg
    → drop (length sealed - 16) sealed ≡ tag_of key nonce aad (take (length sealed - 16) sealed)
unfolding decrypt
decrypt-tag key nonce aad sealed e =
    let same : beq (drop (length sealed - 16) sealed)
          (tag_of key nonce aad (take (length sealed - 16) sealed))
        ≡ true =
      ground arith in
    beq→eq _ _ same

toy-Authenticates : Authenticates toy
unfolding encrypt tag_of mac
toy-Authenticates = record {
  one_tag = λ key nonce aad sealed sealed' len front e e'.
      sym (take-append-drop (length sealed - 16) sealed)
      ∙ ap₂ ◌++◌ front (
          decrypt-tag key nonce aad sealed e
          ∙ ap (tag_of key nonce aad) (front ∙ ap (λ n. take (n - 16) sealed') len)
          ∙ sym (decrypt-tag key nonce aad sealed' e')
          ∙ ap (λ n. drop (n - 16) sealed') (sym len))
      ∙ take-append-drop (length sealed - 16) sealed';
  seals_bytes = λ key nonce aad msg are e. seals key nonce aad msg are e;
}
  where
    seals :
        (key nonce aad msg : Bytes) {sealed : Bytes}
        → All IsByte msg
        → encrypt key nonce aad msg ≡ some sealed
        → All IsByte sealed
    seals key nonce aad msg are e = subst (All IsByte) (some-injective _ _ e) (
        All-append IsByte msg (tag_of key nonce aad msg) are
          (All-replicate IsByte 16 (mac key nonce aad msg) (omega arith)))

abbrev drawn : List Class
drawn = left ∷ right ∷ right ∷ []

aead_tag_lem_example :
    (k : SecretKey) × (sealed : Bytes) × (from_slice base ≡ ok k)
    × (seal toy k nonce aad plaintext ≡ ok sealed)
    × (aead_tag toy drawn ≡ ok (all_false drawn, sealed))
aead_tag_lem_example = aead_tag_lem toy toy-HasLengths toy-OpensSealed toy-Authenticates drawn

abbrev near : SecretKey
near = record { expose_secret = replicate 20 0x2a ++ replicate 12 7 }

abbrev sample : SecretKey
sample = record { expose_secret = base }

mutant_eq-secret_eq_example :
    (mutant_eq sample near ≡ secret_eq sample near)
    × (equal_bytes key_len key_len 0 sample.expose_secret near.expose_secret
        ≡ common_prefix sample.expose_secret near.expose_secret)
mutant_eq-secret_eq_example = mutant_eq-secret_eq sample near refl refl

stops_at : common_prefix sample.expose_secret near.expose_secret ≡ 20
unfolding common_prefix
stops_at = refl
