-- ===== src/Cell/Parse.antt =====
-- `Cell512::from_bytes` on every input.
use quietwire.Base.{
  ℕ, ◌≤◌, ◌<◌, ◌≡◌, ◌≢◌, refl, sym, ap, subst, ◌∙◌, [], ◌∷◌, ◌++◌, arith, lt→ltb, le→not_ltb,
  length, take, drop, length-take, length-drop, take-append-drop, drop-drop,
}
use quietwire.Base.{Result, ok, err, ◌>>=◌}
use quietwire.Bytes.{Bytes}
use quietwire.Cell.{
  Error, invalid_length, unsupported_version, ttl_out_of_range, copies_out_of_range, Cell512,
  cell_len, version, max_ttl, max_copies, new_hops, from_bytes, to_bytes, byte_at, version_at,
  ttl_at, copies_at,
}
use quietwire.Cell.Wire.{
  IsCell, read, from_bytes_of_short, from_bytes_of_version, from_bytes_of_hops, new_hops_lem,
}
use native.Mathlib.Decide.{dec_lt, ℕ_discrete}

-- What `from_bytes` answers, with what the answer says of the input.
pub data Parsed (bytes : Bytes) (r : Result Error Cell512) : Type 0 where
  bad_length : length bytes ≢ cell_len → r ≡ err invalid_length → Parsed bytes r
  bad_version :
      length bytes ≡ cell_len
      → byte_at version_at bytes ≢ version
      → r ≡ err (unsupported_version (byte_at version_at bytes))
      → Parsed bytes r
  bad_ttl :
      length bytes ≡ cell_len
      → byte_at version_at bytes ≡ version
      → max_ttl < byte_at ttl_at bytes
      → r ≡ err (ttl_out_of_range (byte_at ttl_at bytes))
      → Parsed bytes r
  bad_copies :
      length bytes ≡ cell_len
      → byte_at version_at bytes ≡ version
      → byte_at ttl_at bytes ≤ max_ttl
      → max_copies < byte_at copies_at bytes
      → r ≡ err (copies_out_of_range (byte_at copies_at bytes))
      → Parsed bytes r
  cell : (c : Cell512) → r ≡ ok c → IsCell c → to_bytes c ≡ bytes → Parsed bytes r

module _ (flags ttl copies : ℕ) (rest : Bytes) (size : length rest ≡ 508) where
  whole : Bytes
  whole = version ∷ flags ∷ ttl ∷ copies ∷ rest

  length-whole : length whole ≡ cell_len
  unfolding whole
  length-whole = omega arith

  read-IsCell :
      ttl ≤ max_ttl
      → copies ≤ max_copies
      → IsCell (read flags (record { ttl = ttl; copies = copies }) rest)
  read-IsCell h k = record {
    tag_size = omega (arith, length-take 16 rest);
    nonce_size = omega (arith, length-take 24 (drop 16 rest), length-drop 16 rest);
    ciphertext_size = omega (arith, length-take 452 (drop 40 rest), length-drop 40 rest);
    mac_size = omega (arith, length-drop 492 rest);
    ttl_bound = h;
    copies_bound = k;
  }

  -- The four slices are the whole rest.
  slices :
      take 16 rest ++ (take 24 (drop 16 rest) ++ (take 452 (drop 40 rest) ++ drop 492 rest)) ≡ rest
  slices =
      ap (λ t. take 16 rest ++ (take 24 (drop 16 rest) ++ t)) last
      ∙ ap (λ t. take 16 rest ++ t) middle
      ∙ take-append-drop 16 rest
    where
      last : take 452 (drop 40 rest) ++ drop 492 rest ≡ drop 40 rest
      last =
          ap (λ t. take 452 (drop 40 rest) ++ t) (sym (drop-drop 40 452 rest))
          ∙ take-append-drop 452 (drop 40 rest)

      middle : take 24 (drop 16 rest) ++ drop 40 rest ≡ drop 16 rest
      middle =
          ap (λ t. take 24 (drop 16 rest) ++ t) (sym (drop-drop 16 24 rest))
          ∙ take-append-drop 24 (drop 16 rest)

  whole-Parsed : Parsed whole (from_bytes whole)
  unfolding whole
  whole-Parsed = elim (dec_lt max_ttl ttl) [
    | yes over ↦
        bad_ttl length-whole refl over (from ∙ unfold new_hops in rw (lt→ltb max_ttl ttl over))
    | no ttl_fits ↦ elim (dec_lt max_copies copies) [
      | yes over ↦ bad_copies length-whole refl (omega arith) over (
          from
          ∙ unfold new_hops in
            rw (le→not_ltb max_ttl ttl (omega arith), lt→ltb max_copies copies over))
      | no copies_fit ↦
          cell (read flags (record { ttl = ttl; copies = copies }) rest)
            (from
              ∙ ap (λ r. r >>= λ hops. ok (read flags hops rest))
                  (new_hops_lem ttl copies (omega arith) (omega arith)))
            (read-IsCell (omega arith) (omega arith))
            (unfold to_bytes in ap (λ t. version ∷ flags ∷ ttl ∷ copies ∷ t) slices)
    ]
  ]
    where
      from :
          from_bytes (version ∷ flags ∷ ttl ∷ copies ∷ rest)
          ≡ (new_hops ttl copies >>= λ hops. ok (read flags hops rest))
      from = from_bytes_of_hops flags ttl copies rest size

long-Parsed :
    (v flags ttl copies : ℕ) (rest : Bytes)
    → let bytes = v ∷ flags ∷ ttl ∷ copies ∷ rest in Parsed bytes (from_bytes bytes)
unfolding whole
long-Parsed v flags ttl copies rest = elim (ℕ_discrete (length rest) 508) [
  | no h ↦
      let other : length (v ∷ flags ∷ ttl ∷ copies ∷ rest) ≢ cell_len = λ e. h (omega arith) in
      bad_length other (from_bytes_of_short (v ∷ flags ∷ ttl ∷ copies ∷ rest) other)
  | yes size ↦ elim (ℕ_discrete v version) [
    | yes e ↦
        subst (λ w. let bytes = w ∷ flags ∷ ttl ∷ copies ∷ rest in Parsed bytes (from_bytes bytes))
          (sym e) (whole-Parsed flags ttl copies rest size)
    | no other ↦
        bad_version (omega arith) other (from_bytes_of_version v flags ttl copies rest size other)
  ]
]

short-Parsed : (bytes : Bytes) → length bytes < 4 → Parsed bytes (from_bytes bytes)
short-Parsed bytes h = bad_length (omega arith) (from_bytes_of_short bytes (omega arith))

-- On every byte string `from_bytes` answers in one of five ways, checked in this order: a length other
-- than 512, a version other than 1, more than 64 hops, more than 15 copies, each an error with the
-- offending byte; otherwise a cell within the bounds whose bytes are exactly the input.
pub from_bytes-Parsed : (bytes : Bytes) → Parsed bytes (from_bytes bytes)
from_bytes-Parsed [] = short-Parsed [] (omega arith)
from_bytes-Parsed (a ∷ []) = short-Parsed (a ∷ []) (omega arith)
from_bytes-Parsed (a ∷ b ∷ []) = short-Parsed (a ∷ b ∷ []) (omega arith)
from_bytes-Parsed (a ∷ b ∷ c ∷ []) = short-Parsed (a ∷ b ∷ c ∷ []) (omega arith)
from_bytes-Parsed (a ∷ b ∷ c ∷ d ∷ rest) = long-Parsed a b c d rest
