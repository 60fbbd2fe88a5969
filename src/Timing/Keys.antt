-- ===== src/Timing/Keys.antt =====
-- The comparisons of keys.
use quietwire.Base.{
  ℕ, zero, suc, ◌≡◌, refl, ap, ap₂, sym, subst, ◌∙◌, ◌++◌, replicate, Bool, true, false, ◌&&◌, List,
  [], ◌∷◌, map, arith, length, ltb, ◌==◌, if◌then◌else◌, Bool-cases, inl, inr,
}
use quietwire.Base.{ok}
use quietwire.Bytes.{Bytes, beq}
use quietwire.Crypto.Secret.{SecretKey, key_len, secret_eq, from_slice}
use quietwire.Timing.{
  Class, left, right, pick, base, same_byte, equal_bytes, mutant_eq, secret_key_eq,
  mutant_secret_key_eq, key, differing_at,
}

-- How many bytes two strings have in common at their front.
unfoldable pub common_prefix : Bytes → Bytes → ℕ
common_prefix [] b = 0
common_prefix (x ∷ a) [] = 0
common_prefix (x ∷ a) (y ∷ b) = let rest = common_prefix a b in if x == y then suc rest else 0

equal_bytes-shift :
    (len fuel index x y : ℕ) (a b : Bytes)
    → equal_bytes (suc len) fuel (suc index) (x ∷ a) (y ∷ b) ≡ suc (equal_bytes len fuel index a b)
unfolding equal_bytes
equal_bytes-shift len zero index x y a b = refl
equal_bytes-shift len (suc fuel) index x y a b =
    let same : ltb (suc index) (suc len) ≡ ltb index len = ground arith in
    elim (Bool-cases (ltb index len && same_byte a b index)) [
      | inl go ↦ rw (equal_bytes, same, go) (equal_bytes-shift len fuel (suc index) x y a b)
      | inr stop ↦ rw (equal_bytes, same, stop) refl
    ]

equal_bytes-common_prefix :
    (a b : Bytes)
    → length a ≡ length b
    → equal_bytes (length a) (length a) 0 a b ≡ common_prefix a b
unfolding equal_bytes common_prefix
equal_bytes-common_prefix [] b h = refl
equal_bytes-common_prefix (x ∷ a) [] h = absurd (omega arith)
equal_bytes-common_prefix (x ∷ a) (y ∷ b) h = elim (Bool-cases (x == y)) [
  | inl same ↦
      let first : ltb 0 (suc (length a)) ≡ true = ground arith in
      rw (equal_bytes, first, same)
        (equal_bytes-shift (length a) (length a) 0 x y a b
          ∙ ap suc (equal_bytes-common_prefix a b (omega arith)))
  | inr other ↦
      let first : ltb 0 (suc (length a)) ≡ true = ground arith in
      rw (equal_bytes, first, other) refl
]

common_prefix-beq : (a b : Bytes) → length a ≡ length b → (common_prefix a b == length a) ≡ beq a b
unfolding common_prefix beq
common_prefix-beq [] [] h = refl
common_prefix-beq [] (y ∷ b) h = absurd (omega arith)
common_prefix-beq (x ∷ a) [] h = absurd (omega arith)
common_prefix-beq (x ∷ a) (y ∷ b) h = ground (arith, common_prefix-beq a b)

-- On any two keys of 32 bytes the comparison of the deliberate mutant answers as the constant-time
-- one does, but its loop stops after as many bytes as the keys have in common at their front.
pub mutant_eq-secret_eq :
    (a b : SecretKey)
    → length a.expose_secret ≡ key_len
    → length b.expose_secret ≡ key_len
    → (mutant_eq a b ≡ secret_eq a b)
      × (equal_bytes key_len key_len 0 a.expose_secret b.expose_secret
          ≡ common_prefix a.expose_secret b.expose_secret)
unfolding mutant_eq secret_eq
mutant_eq-secret_eq a b ha hb =
    let same : length a.expose_secret ≡ length b.expose_secret = omega arith in
    let stops : equal_bytes key_len key_len 0 a.expose_secret b.expose_secret
        ≡ common_prefix a.expose_secret b.expose_secret =
      subst
        (λ n.
          equal_bytes n n 0 a.expose_secret b.expose_secret
          ≡ common_prefix a.expose_secret b.expose_secret)
        ha (equal_bytes-common_prefix a.expose_secret b.expose_secret same) in
    (
      ap (λ n. n == key_len) stops
          ∙ ap (λ n. common_prefix a.expose_secret b.expose_secret == n) (sym ha)
          ∙ common_prefix-beq a.expose_secret b.expose_secret same,
      stops,
    )

-- Every sample with the answer `false`.
abbrev pub all_false : List Class → List (Class × Bool)
all_false [] = []
all_false (class ∷ drawn) = (class, false) ∷ all_false drawn

abbrev answered :
    (SecretKey → SecretKey → Bool) → (a b c : SecretKey) → List Class → List (Class × Bool)
answered compare a b c drawn = map (λ class. (class, compare a (pick class b c))) drawn

answers_false :
    (compare : SecretKey → SecretKey → Bool) (a b c : SecretKey) (drawn : List Class)
    → compare a b ≡ false
    → compare a c ≡ false
    → answered compare a b c drawn ≡ all_false drawn
answers_false compare a b c [] eb ec = refl
answers_false compare a b c (left ∷ drawn) eb ec =
    ap₂ ◌∷◌ (λ i. (left, eb i)) (answers_false compare a b c drawn eb ec)
answers_false compare a b c (right ∷ drawn) eb ec =
    ap₂ ◌∷◌ (λ i. (right, ec i)) (answers_false compare a b c drawn eb ec)

early : SecretKey
early = record { expose_secret = 0xd5 ∷ replicate 31 0x2a }

late : SecretKey
late = record { expose_secret = replicate 31 0x2a ++ 0xd5 ∷ [] }

-- The bench on keys and the deliberate mutant never panic, and in every sample, whatever is drawn,
-- they compare unequal keys.
pub key_benches_lem :
    (drawn : List Class)
    → (secret_key_eq drawn ≡ ok (all_false drawn))
      × (mutant_secret_key_eq drawn ≡ ok (all_false drawn))
unfolding secret_key_eq mutant_secret_key_eq key from_slice differing_at secret_eq mutant_eq beq
    early late
key_benches_lem drawn = (
  ap ok (answers_false secret_eq (record { expose_secret = base }) early late drawn refl refl),
  ap ok (answers_false mutant_eq (record { expose_secret = base }) early late drawn refl refl),
)
