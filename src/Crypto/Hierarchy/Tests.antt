-- ===== src/Crypto/Hierarchy/Tests.antt =====
-- The theorems about the key hierarchy, applied to sample keys.
use quietwire.Base.{ℕ, ◌≡◌, refl, ◌⊎◌, inl, ltb, none, some, [], ◌∷◌, length, replicate}
use quietwire.Base.{ok, err}
use quietwire.Crypto.{rng, authentication}
use quietwire.Crypto.Hierarchy.{
  Kek, Dek, WrappedDek, field, wrapped_dek_len, wrap_with, unwrap_with,
}
use quietwire.Crypto.Hierarchy.Wrapping.{
  unwrap_with-wrap_with, unwrap_with-cases, subkey_info-injective,
}
use quietwire.Crypto.Password.{Salt, mobile, derive_kek, derive_kek_lem}
use quietwire.Toy.{toy, toy-HasLengths, toy-OpensSealed}
use quietwire.Toy.Argon.{toy_argon2, toy_tag, toy-IsArgon2}

abbrev salt : Salt
salt = record { as_bytes = replicate 32 9 }

abbrev dek : Dek
dek = record { key = record { expose_secret = replicate 32 1 } }

abbrev kek : Kek
kek = record { key = record { expose_secret = replicate 32 2 } }

unwrap_with-wrap_with_example :
    (wrap_with toy dek kek none ≡ err rng)
    × ((wrapped : WrappedDek) × (wrap_with toy dek kek (some (replicate 24 3)) ≡ ok wrapped)
        × (length wrapped.to_bytes ≡ wrapped_dek_len)
        × (unwrap_with toy wrapped kek ≡ ok dek))
unwrap_with-wrap_with_example =
    unwrap_with-wrap_with toy toy-HasLengths toy-OpensSealed dek kek (replicate 24 3) refl refl

abbrev forged : WrappedDek
forged = record { to_bytes = replicate wrapped_dek_len 7 }

unwrap_with-cases_example :
    (unwrap_with toy forged kek ≡ err authentication)
    ⊎ ((opened : Dek) × (unwrap_with toy forged kek ≡ ok opened)
        × (length opened.key.expose_secret ≡ 32))
unwrap_with-cases_example = unwrap_with-cases toy toy-HasLengths forged kek refl

subkey_info-injective_example : field ≡ field
subkey_info-injective_example = subkey_info-injective field field refl

-- With enough memory for the mobile profile.
derive_kek_lem_example :
    derive_kek toy_argon2 (λ (blocks : ℕ). ltb blocks 300000) (1 ∷ 2 ∷ []) salt mobile
    ≡ ok (record {
      key = record { expose_secret = toy_tag 262144 4 2 32 (1 ∷ 2 ∷ []) (replicate 32 9) };
    })
derive_kek_lem_example =
    derive_kek_lem toy_argon2 (λ (blocks : ℕ). ltb blocks 300000) toy_tag toy-IsArgon2 (1 ∷ 2 ∷ [])
      salt mobile refl (inl refl)
