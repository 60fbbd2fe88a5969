-- ===== src/Cell/Relay.antt =====
-- What a relay does to a cell, and what the end-to-end associated data covers.
use quietwire.Base.{
  ℕ, zero, suc, ◌-◌, ◌≤◌, ◌<◌, ◌≡◌, refl, sym, ap, ◌∙◌, ◌⊎◌, inl, inr, Option, none, some, ◌∷◌,
  ◌++◌, arith, lt→ltb, le→not_ltb, length, take, drop, take-append, append_assoc, length-append,
}
use quietwire.Bytes.{Bytes, slice}
use quietwire.Cell.{Hops, Cell512, aad_len, aad, header_aad, to_bytes, from_bytes, forwarded, spent}
use quietwire.Cell.Wire.{IsCell, from_bytes-to_bytes}
use quietwire.Base.{ok}
use native.Mathlib.Decide.{dec_lt}

-- For a cell within the bounds the associated data is 42 bytes of the wire: the first two and those
-- from 4 to 44, which is all of the head but the two hop fields.
pub aad-wire :
    (c : Cell512)
    → IsCell c
    → (aad c ≡ slice 0 2 (to_bytes c) ++ slice 4 44 (to_bytes c)) × (length (aad c) ≡ aad_len)
unfolding aad header_aad to_bytes
aad-wire c v = (
  ap (λ t. 1 ∷ c.header.flags ∷ t) (sym (ap (take 40) (sym whole) ∙ take-append 40 head tail size)),
  omega (arith, size),
)
  where
    head : Bytes
    head = c.header.tag ++ c.header.nonce

    tail : Bytes
    tail = c.body.ciphertext ++ c.body.mac

    whole : head ++ tail ≡ c.header.tag ++ (c.header.nonce ++ tail)
    whole = append_assoc c.header.tag c.header.nonce tail

    size : length head ≡ 40
    size = omega (arith, length-append c.header.tag c.header.nonce, v.tag_size, v.nonce_size)

-- The hop fields a relay can rewrite.
abbrev pub with_hops : Cell512 → Hops → Cell512
with_hops c hops = record c { hops = hops }

forwarded_cases :
    (c : Cell512)
    → ((c.hops.ttl ≡ 0) × (forwarded c ≡ none))
      ⊎ ((0 < c.hops.ttl)
          × (forwarded c
              ≡ some (with_hops c (record { ttl = c.hops.ttl - 1; copies = c.hops.copies }))))
unfolding forwarded
forwarded_cases c = elim (dec_lt c.hops.ttl 1) [
  | yes h ↦ inl (omega arith, rw (lt→ltb c.hops.ttl 1 h, forwarded, spent))
  | no h ↦ inr (omega arith, rw (le→not_ltb c.hops.ttl 1 (omega arith), forwarded, spent))
]

-- `n` relays in a row.
unfoldable pub forwarded_times : ℕ → Cell512 → Option Cell512
forwarded_times zero c = some c
forwarded_times (suc n) c = elim (forwarded c) [ none ↦ none | some c' ↦ forwarded_times n c' ]

-- A cell survives exactly as many relays as it has hops left: with fewer hops than relays it is
-- dropped, and otherwise it arrives with as many hops less as there were relays, and with everything
-- else as it was.
pub forwarded_times-ttl :
    (n : ℕ) (c : Cell512)
    → ((c.hops.ttl < n) × (forwarded_times n c ≡ none))
      ⊎ ((n ≤ c.hops.ttl)
          × (forwarded_times n c
              ≡ some (with_hops c (record { ttl = c.hops.ttl - n; copies = c.hops.copies }))))
unfolding forwarded_times
forwarded_times-ttl zero c = inr (omega arith, same_ttl c.hops.ttl (c.hops.ttl - 0) (omega arith))
  where
    same_ttl :
        (a b : ℕ)
        → a ≡ b
        → some (with_hops c (record { ttl = a; copies = c.hops.copies }))
          ≡ some (with_hops c (record { ttl = b; copies = c.hops.copies }))
    same_ttl a b e = ap (λ t. some (with_hops c (record { ttl = t; copies = c.hops.copies }))) e
forwarded_times-ttl (suc n) c = elim (forwarded_cases c) [
  | inl (e, dropped) ↦ inl (omega arith, rw (dropped, forwarded_times))
  | inr (left, passed) ↦
      elim (forwarded_times-ttl n
        (with_hops c (record { ttl = c.hops.ttl - 1; copies = c.hops.copies }))) [
          | inl (few, dropped) ↦ inl (omega arith, rw (passed, forwarded_times) dropped)
          | inr (enough, arrived) ↦ inr (
            omega arith,
            rw (passed, forwarded_times)
                (arrived
                  ∙ ap (λ t. some (with_hops c (record { ttl = t; copies = c.hops.copies })))
                      (minus_one c.hops.ttl)),
          )
        ]
]
  where
    minus_one : (t : ℕ) → t - 1 - n ≡ t - suc n
    minus_one t = omega arith

-- After at most as many relays as it has hops, a cell within the bounds is read back from its bytes as
-- it was forwarded. On the wire every byte but the third is unchanged, which is the hops, and so is the
-- associated data, so that the end-to-end seal still holds.
pub forwarded_times-wire :
    (n : ℕ) (c : Cell512)
    → IsCell c
    → n ≤ c.hops.ttl
    → (c' : Cell512) × (forwarded_times n c ≡ some c')
      × (from_bytes (to_bytes c') ≡ ok c')
      × (to_bytes c' ≡ slice 0 2 (to_bytes c) ++ ((c.hops.ttl - n) ∷ drop 3 (to_bytes c)))
      × (aad c' ≡ aad c)
unfolding to_bytes aad
forwarded_times-wire n c v h = elim (forwarded_times-ttl n c) [
  | inl (few, _) ↦ absurd (omega arith)
  | inr (enough, arrived) ↦
      let c' : Cell512 = with_hops c (record { ttl = c.hops.ttl - n; copies = c.hops.copies }) in
      let v' : IsCell c' = record {
        tag_size = v.tag_size;
        nonce_size = v.nonce_size;
        ciphertext_size = v.ciphertext_size;
        mac_size = v.mac_size;
        ttl_bound = omega (arith, v.ttl_bound);
        copies_bound = v.copies_bound;
      } in
      (c', arrived, from_bytes-to_bytes c' v', refl, refl)
]
