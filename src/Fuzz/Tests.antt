-- ===== src/Fuzz/Tests.antt =====
-- The theorems about the fuzz targets, applied to small inputs over the toy library functions.
use quietwire.Base.{
  ℕ, ◌%◌, ◌≡◌, true, none, some, [], ◌∷◌, arith, replicate, length-replicate, All-replicate,
}
use quietwire.Base.{ok}
use quietwire.Bytes.{IsByte}
use quietwire.Crypto.X25519.{PrivateKey, public_key}
use quietwire.Crypto.MlKem.{KemLibrary, DecapsulationKey, encapsulation_key}
use quietwire.Fuzz.{genuine, PeerIdentity, Party}
use quietwire.Fuzz.Targets.{Bundle, Input, x3dh_bundle, x3dh_initial_message}
use quietwire.Fuzz.Passing.{PrintsArrays, x3dh_bundle_passes, x3dh_initial_message_passes}
use quietwire.Toy.{toy, toy-HasLengths, toy_signature}

-- Keys that are a number, printed as an array of the size of ML-KEM's.
abbrev numbered_kem : KemLibrary
numbered_kem = record {
  Key = ℕ;
  parse = λ bytes. some 5;
  print = λ key. replicate 1184 (key % 256);
  public_of = λ seed. 7;
  encapsulate = λ key randomness. (randomness, replicate 32 (key % 256));
  decapsulate = λ seed ciphertext. replicate 32 7;
}

numbered_kem-PrintsArrays : PrintsArrays numbered_kem
numbered_kem-PrintsArrays = record {
  print_array = λ key.
      (length-replicate 1184 (key % 256), All-replicate IsByte 1184 (key % 256) (omega arith));
}

abbrev private_key : ℕ → PrivateKey
private_key n = record { secret = record { expose_secret = replicate 32 n } }

abbrev kem : DecapsulationKey
kem = record {
  d = record { expose_secret = replicate 32 1 };
  z = record { expose_secret = replicate 32 2 };
}

abbrev party : Party toy numbered_kem toy_signature
party = record {
  identity = record {
    sign = record { inner = replicate 32 3 };
    dh = public_key toy (private_key 17);
    kem = encapsulation_key numbered_kem kem;
  };
  identity_dh = private_key 17;
  kem = kem;
  signed_prekey = private_key 7;
  one_time_prekey = private_key 23;
}

abbrev peer : PeerIdentity
peer = record {
  sign = replicate 32 4;
  dh = replicate 32 5;
  kem = genuine (record { at = 2000; xor = 16 } ∷ []);
}

abbrev input : Bundle
input = record { identity = peer; signed_prekey = replicate 32 6; one_time_prekey = none }

x3dh_bundle_passes_example :
    x3dh_bundle toy numbered_kem toy_signature
      (record { inner = 9 })
      party
      input
      (some (replicate 32 29))
      (some (replicate 32 3))
    ≡ ok tt
x3dh_bundle_passes_example =
    x3dh_bundle_passes toy numbered_kem toy_signature numbered_kem-PrintsArrays
      (record { inner = 9 }) toy-HasLengths party input (replicate 32 29) (replicate 32 3)
      (omega arith)

abbrev first_message : Input
first_message = record {
  initiator = peer;
  ephemeral = replicate 32 8;
  kem_ciphertext = replicate 1088 0;
  with_one_time_prekey = true;
}

x3dh_initial_message_passes_example :
    x3dh_initial_message toy numbered_kem toy_signature (record { inner = 9 }) party first_message
    ≡ ok tt
x3dh_initial_message_passes_example =
    x3dh_initial_message_passes toy numbered_kem toy_signature numbered_kem-PrintsArrays
      (record { inner = 9 }) toy-HasLengths party first_message (omega arith)
