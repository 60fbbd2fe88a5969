-- ===== src/Timing/Tags.antt =====
-- The bench on the tag of a sealed message.
use quietwire.Base.{
  ℕ, zero, suc, ◌+◌, ◌-◌, ◌≤◌, ◌<◌, ◌≡◌, refl, sym, ap, ◌∙◌, false, some, List, [], ◌∷◌, arith,
  length, take, update, get_elem?, inside, length-update, get_elem?-update_same, update_undo, All,
  All-get_elem?, All-replicate, Option-cases, inl, inr, lt_of_get_elem?,
}
use quietwire.Base.{ok}
use quietwire.Bytes.{Bytes, IsByte, xor_lem, flip_ne}
use quietwire.Crypto.{Primitives, HasLengths, OpensSealed}
use quietwire.Crypto.Secret.{SecretKey, from_slice}
use quietwire.Crypto.Aead.{seal, open_sealed, tag_len}
use quietwire.Timing.{
  Class, left, right, base, nonce, aad, plaintext, key, flip_at, is_ok, tag_loop, aead_tag,
}
use quietwire.Timing.Keys.{all_false}
use Prim.Native.Nat.{bit_xor}
use mathlib.Core.Option.{some-injective}

-- The cipher authenticates: of two messages that differ only in the 16 bytes of the tag, at most one
-- opens. And it seals bytes to bytes.
pub record Authenticates (P : Primitives) : Type 0 where
  pub one_tag :
      (key nonce aad sealed sealed' : Bytes) {msg msg' : Bytes}
      → length sealed ≡ length sealed'
      → take (length sealed - 16) sealed ≡ take (length sealed - 16) sealed'
      → P.aead_decrypt key nonce aad sealed ≡ some msg
      → P.aead_decrypt key nonce aad sealed' ≡ some msg'
      → sealed ≡ sealed'
  pub seals_bytes :
      (key nonce aad msg : Bytes) {sealed : Bytes}
      → All IsByte msg
      → P.aead_encrypt key nonce aad msg ≡ some sealed
      → All IsByte sealed

take-update {ℓ} :
    {A : Type ℓ} (n i : ℕ) (xs : List A) (v : A) → n ≤ i → take n (update xs i v) ≡ take n xs
take-update zero i xs v h = refl
take-update (suc n) i [] v h = refl
take-update (suc n) zero (x ∷ xs) v h = absurd (omega arith)
take-update (suc n) (suc i) (x ∷ xs) v h = ap (◌∷◌ x) (take-update n i xs v (omega arith))

flip_at_lem :
    (at : ℕ) (bytes : Bytes) {byte : ℕ}
    → get_elem? bytes at ≡ some byte
    → flip_at at bytes ≡ ok (update bytes at (bit_xor byte 0xff))
unfolding flip_at
flip_at_lem at bytes e = rw (e, flip_at) refl

-- A byte turned twice is as it was.
flip_twice :
    (at : ℕ) (bytes : Bytes) {byte : ℕ}
    → byte < 256
    → get_elem? bytes at ≡ some byte
    → flip_at at (update bytes at (bit_xor byte 0xff)) ≡ ok bytes
flip_twice at bytes {byte} small e =
    let inside = lt_of_get_elem? bytes at e in
    let again = get_elem?-update_same bytes at (bit_xor byte 0xff) inside in
    flip_at_lem at (update bytes at (bit_xor byte 0xff)) again
    ∙ ap (λ x. ok (update (update bytes at (bit_xor byte 0xff)) at x))
        (xor_lem byte 0xff small (omega arith)).1
    ∙ ap ok (update_undo bytes at (bit_xor byte 0xff) e)

module _ (P : Primitives) (L : HasLengths P) (O : OpensSealed P) (A : Authenticates P)
    (k : SecretKey) where
  -- A sealed message with one byte of its tag turned does not open.
  not_opened :
      (sealed msg : Bytes) (at : ℕ) {byte : ℕ}
      → byte < 256
      → open_sealed P k nonce aad sealed ≡ ok msg
      → length sealed ≤ at + 16
      → get_elem? sealed at ≡ some byte
      → is_ok (open_sealed P k nonce aad (update sealed at (bit_xor byte 0xff))) ≡ false
  unfolding open_sealed
  not_opened sealed msg at {byte} small opens far e =
      let wrong = update sealed at (bit_xor byte 0xff) in
      elim (Option-cases (P.aead_decrypt k.expose_secret nonce.as_bytes aad wrong)) [
        | inl refused ↦ rw refused refl
        | inr (msg', opened) ↦
            let was : P.aead_decrypt k.expose_secret nonce.as_bytes aad sealed ≡ some msg =
              ground arith in
            let same =
              A.one_tag k.expose_secret nonce.as_bytes aad sealed wrong
                (sym (length-update sealed at (bit_xor byte 0xff)))
                (sym (take-update (length sealed - 16) at sealed (bit_xor byte 0xff) (omega arith)))
                was opened in
            let here =
              get_elem?-update_same sealed at (bit_xor byte 0xff) (lt_of_get_elem? sealed at e) in
            absurd (
              flip_ne byte small
                (some-injective _ _ (sym here ∙ ap (λ s. get_elem? s at) (sym same) ∙ e)))
      ]

  tag_loop_lem :
      (first last : ℕ) (drawn : List Class) (sealed msg : Bytes)
      → open_sealed P k nonce aad sealed ≡ ok msg
      → All IsByte sealed
      → length sealed ≤ first + 16
      → first < length sealed
      → length sealed ≤ last + 16
      → last < length sealed
      → tag_loop P k first last drawn sealed ≡ ok (all_false drawn, sealed)
  unfolding tag_loop
  tag_loop_lem first last [] sealed msg opens are a b c d = refl
  tag_loop_lem first last (left ∷ drawn) sealed msg opens are a b c d =
      let (byte, e) = inside sealed first b in
      let small = All-get_elem? IsByte sealed first are e in
      rw
        (
          flip_at_lem first sealed e,
          flip_twice first sealed small e,
          tag_loop_lem first last drawn sealed msg opens are a b c d,
          not_opened sealed msg first small opens a e,
        )
        refl
  tag_loop_lem first last (right ∷ drawn) sealed msg opens are a b c d =
      let (byte, e) = inside sealed last d in
      let small = All-get_elem? IsByte sealed last are e in
      rw
        (
          flip_at_lem last sealed e,
          flip_twice last sealed small e,
          tag_loop_lem first last drawn sealed msg opens are a b c d,
          not_opened sealed msg last small opens c e,
        )
        refl

module _ (P : Primitives) where
  -- The bench on tags never panics. In every sample, whatever is drawn, the message with a wrong byte,
  -- the first of its tag or the last, does not open, and in the end the buffer holds the sealed message
  -- again. The libraries' lengths and the cipher's round trip are assumed, and that it
  -- authenticates: of two messages that differ only in the tag at most one opens.
  pub aead_tag_lem :
      HasLengths P
      → OpensSealed P
      → Authenticates P
      → (drawn : List Class)
      → (k : SecretKey) × (sealed : Bytes) × (from_slice base ≡ ok k)
        × (seal P k nonce aad plaintext ≡ ok sealed)
        × (aead_tag P drawn ≡ ok (all_false drawn, sealed))
  unfolding aead_tag key from_slice seal
  aead_tag_lem L O A drawn =
      let k : SecretKey = record { expose_secret = base } in
      let (sealed, e) = O.seals base nonce.as_bytes aad plaintext (omega arith) in
      let size : length sealed ≡ 468 = L.encrypt_len base nonce.as_bytes aad plaintext e in
      let opens : open_sealed P k nonce aad sealed ≡ ok plaintext =
        unfold open_sealed in rw (O.opens base nonce.as_bytes aad plaintext e) refl in
      let are =
        A.seals_bytes base nonce.as_bytes aad plaintext
          (All-replicate IsByte 452 0x11 (omega arith)) e in
      (
        k,
        sealed,
        refl,
        rw e refl,
        rw (e, aead_tag)
            (tag_loop_lem P L O A k (length sealed - tag_len) (length sealed - 1) drawn sealed
              plaintext opens are (omega arith) (omega arith) (omega arith) (omega arith)),
      )
