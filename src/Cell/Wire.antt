-- ===== src/Cell/Wire.antt =====
-- The wire layout: reading and writing a cell are inverse, and which inputs are refused.
use quietwire.Base.{
  ℕ, ◌≤◌, ◌≡◌, ◌≢◌, sym, ap, ◌∙◌, ◌∷◌, ◌++◌, arith, ==_iff, ne→not_==, le→not_ltb, length, take,
  drop, length-append, take-append, drop-append, drop-drop,
}
use quietwire.Base.{ok, err, ◌>>=◌}
use quietwire.Bytes.{Bytes}
use quietwire.Cell.{
  invalid_length, unsupported_version, Hops, Cell512, cell_len, version, tag_len, nonce_len,
  ciphertext_len, mac_len, max_ttl, max_copies, new_hops, from_bytes, to_bytes,
}

-- The sizes that the array types fix, and the hop bounds that `Hops::new` checks.
pub record IsCell (c : Cell512) : Type 0 where
  pub tag_size : length c.header.tag ≡ tag_len
  pub nonce_size : length c.header.nonce ≡ nonce_len
  pub ciphertext_size : length c.body.ciphertext ≡ ciphertext_len
  pub mac_size : length c.body.mac ≡ mac_len
  pub ttl_bound : c.hops.ttl ≤ max_ttl
  pub copies_bound : c.hops.copies ≤ max_copies

pub new_hops_lem :
    (ttl copies : ℕ)
    → ttl ≤ max_ttl
    → copies ≤ max_copies
    → new_hops ttl copies ≡ ok (record { ttl = ttl; copies = copies })
unfolding new_hops
new_hops_lem ttl copies h k = rw (le→not_ltb max_ttl ttl h, le→not_ltb max_copies copies k)

-- The fields that `from_bytes` reads behind the four leading bytes.
abbrev pub read : (flags : ℕ) → Hops → Bytes → Cell512
read flags hops rest = record {
  header = record { flags = flags; tag = take 16 rest; nonce = take 24 (drop 16 rest) };
  hops = hops;
  body = record { ciphertext = take 452 (drop 40 rest); mac = drop 492 rest };
}

pub from_bytes_of_short :
    (bytes : Bytes) → length bytes ≢ cell_len → from_bytes bytes ≡ err invalid_length
unfolding from_bytes
from_bytes_of_short bytes h = ground arith

pub from_bytes_of_version :
    (v flags ttl copies : ℕ) (rest : Bytes)
    → length rest ≡ 508
    → v ≢ version
    → from_bytes (v ∷ flags ∷ ttl ∷ copies ∷ rest) ≡ err (unsupported_version v)
unfolding from_bytes
from_bytes_of_version v flags ttl copies rest h other =
    let size : length (v ∷ flags ∷ ttl ∷ copies ∷ rest) ≡ cell_len = omega arith in
    rw (
      (==_iff (length (v ∷ flags ∷ ttl ∷ copies ∷ rest)) cell_len).1 size,
      ne→not_== v version other,
    )

pub from_bytes_of_hops :
    (flags ttl copies : ℕ) (rest : Bytes)
    → length rest ≡ 508
    → from_bytes (version ∷ flags ∷ ttl ∷ copies ∷ rest)
      ≡ (new_hops ttl copies >>= λ hops. ok (read flags hops rest))
unfolding from_bytes
from_bytes_of_hops flags ttl copies rest h =
    let size : length (version ∷ flags ∷ ttl ∷ copies ∷ rest) ≡ cell_len = omega arith in
    rw ((==_iff (length (version ∷ flags ∷ ttl ∷ copies ∷ rest)) cell_len).1 size)

module _ (c : Cell512) (v : IsCell c) where
  open c use {header, body}

  rest : Bytes
  rest = header.tag ++ (header.nonce ++ (body.ciphertext ++ body.mac))

  length-rest : length rest ≡ 508
  unfolding rest
  length-rest = omega (
    arith,
    length-append header.tag (header.nonce ++ (body.ciphertext ++ body.mac)),
    length-append header.nonce (body.ciphertext ++ body.mac),
    length-append body.ciphertext body.mac,
    v.tag_size,
    v.nonce_size,
    v.ciphertext_size,
    v.mac_size,
  )

  pub length-to_bytes : length (to_bytes c) ≡ cell_len
  unfolding to_bytes rest
  length-to_bytes = omega (arith, length-rest)

  behind_tag : drop 16 rest ≡ header.nonce ++ (body.ciphertext ++ body.mac)
  unfolding rest
  behind_tag = drop-append 16 header.tag _ v.tag_size

  behind_nonce : drop 40 rest ≡ body.ciphertext ++ body.mac
  behind_nonce =
      sym (drop-drop 16 24 rest)
      ∙ ap (drop 24) behind_tag
      ∙ drop-append 24 header.nonce _ v.nonce_size

  behind_ciphertext : drop 492 rest ≡ body.mac
  behind_ciphertext =
      sym (drop-drop 40 452 rest)
      ∙ ap (drop 452) behind_nonce
      ∙ drop-append 452 body.ciphertext body.mac v.ciphertext_size

  read_again : read header.flags c.hops rest ≡ c
  unfolding rest
  read_again = λ i. record {
    header = record {
      flags = header.flags;
      tag = take-append 16 header.tag (header.nonce ++ (body.ciphertext ++ body.mac)) v.tag_size i;
      nonce = nonce i;
    };
    hops = c.hops;
    body = record { ciphertext = ciphertext i; mac = behind_ciphertext i };
  }
    where
      nonce : take 24 (drop 16 rest) ≡ header.nonce
      nonce = ap (take 24) behind_tag ∙ take-append 24 header.nonce _ v.nonce_size

      ciphertext : take 452 (drop 40 rest) ≡ body.ciphertext
      ciphertext =
          ap (take 452) behind_nonce ∙ take-append 452 body.ciphertext body.mac v.ciphertext_size

  -- Reading a cell that was written gives it back, for a cell of the right sizes within the hop bounds.
  pub from_bytes-to_bytes : from_bytes (to_bytes c) ≡ ok c
  unfolding to_bytes rest
  from_bytes-to_bytes =
      from_bytes_of_hops header.flags c.hops.ttl c.hops.copies rest length-rest
      ∙ ap (λ r. r >>= λ hops. ok (read header.flags hops rest))
          (new_hops_lem c.hops.ttl c.hops.copies v.ttl_bound v.copies_bound)
      ∙ ap ok read_again
