-- ===== src/Fuzz/Reheadered/Resolve.antt =====
-- What an input of the fuzz target of the header resolves to, and its size.
use quietwire.Base.{
  ℕ, ◌<◌, ◌≡◌, refl, ◌∙◌, Option, none, some, ◌++◌, arith, length, take, drop, length-take,
  length-drop, length-append, length-reverse,
}
use quietwire.Base.{ok}
use quietwire.Bytes.{beq, beq_refl, beq→eq, length-to_le_bytes, to_le_bytes}
use quietwire.Bytes as Base
use quietwire.Crypto.Aead
use quietwire.Crypto.Aead.{Nonce}
use quietwire.Crypto.X25519
use quietwire.Crypto.X25519.{PrivateKey, PublicKey, public_key}
use quietwire.Ratchet.{SealedFrame, frame_len, header_len}
use quietwire.Fuzz.Edits.{edited_total}
use quietwire.Fuzz.Reheadered.{
  to_be_bytes, chain_len_at, Bytes, genuine, raw, resolve_bytes, FrameBody, whole, reheadered,
  with_key, resolve_frame, Input, peer_frame,
}

-- The raw bytes of an input have the sizes of their arrays.
abbrev pub IsSized : ℕ → Bytes → Type 0
IsSized n (genuine edits) = Unit {0}
IsSized n (raw bytes) = length bytes ≡ n

abbrev pub IsBody : FrameBody → Type 0
IsBody (whole bytes) = IsSized frame_len bytes
IsBody (reheadered none previous_chain_len message_number) = Unit {0}
IsBody (reheadered (some key) previous_chain_len message_number) =
    length key ≡ X25519.public_key_len

length-to_be_bytes : (n : ℕ) → length (to_be_bytes n) ≡ 4
length-to_be_bytes n = length-reverse (to_le_bytes 4 n) ∙ length-to_le_bytes 4 n

resolve_bytes_total :
    (input : Bytes) (n : ℕ) (bytes : Base.Bytes)
    → 0 < n
    → length bytes ≡ n
    → IsSized n input
    → (bytes' : Base.Bytes) × (resolve_bytes input bytes ≡ ok bytes') × (length bytes' ≡ n)
unfolding resolve_bytes
resolve_bytes_total (genuine edits) n bytes pos h v =
    let (bytes', e, size) = edited_total edits bytes (omega arith) in (bytes', e, size ∙ h)
resolve_bytes_total (raw bytes') n bytes pos h v = (bytes', refl, v)

length-with_key :
    (key : Option Base.Bytes) (frame : Base.Bytes) (previous number : ℕ)
    → length frame ≡ frame_len
    → IsBody (reheadered key previous number)
    → length (with_key key frame) ≡ frame_len
length-with_key none frame previous number h v = h
length-with_key (some key) frame previous number h v = omega (
  arith,
  length-append key (drop X25519.public_key_len frame),
  length-drop X25519.public_key_len frame,
)

resolve_frame_total :
    (input : FrameBody) (frame : Base.Bytes)
    → length frame ≡ frame_len
    → IsBody input
    → (frame' : Base.Bytes) × (resolve_frame input frame ≡ ok frame') × (length frame' ≡ frame_len)
unfolding resolve_frame
resolve_frame_total (whole bytes) frame h v =
    resolve_bytes_total bytes frame_len frame (omega arith) h v
resolve_frame_total (reheadered key previous number) frame h v =
    let keyed = length-with_key key frame previous number h v in
    let tail = to_be_bytes number ++ drop header_len frame in
    (
      take chain_len_at (with_key key frame) ++ (to_be_bytes previous ++ tail),
      refl,
      omega (
        arith,
        keyed,
        h,
        length-append (take chain_len_at (with_key key frame)) (to_be_bytes previous ++ tail),
        length-append (to_be_bytes previous) tail,
        length-append (to_be_bytes number) (drop header_len frame),
        length-to_be_bytes previous,
        length-to_be_bytes number,
        length-take chain_len_at (with_key key frame),
        length-drop header_len frame,
      ),
    )

pub peer_frame_total :
    (input : Input) (own : SealedFrame)
    → length own.nonce.as_bytes ≡ Aead.nonce_len
    → length own.frame ≡ frame_len
    → IsSized Aead.nonce_len input.nonce
    → IsBody input.frame
    → (peer : SealedFrame) × (peer_frame input own ≡ ok peer) × (length peer.frame ≡ frame_len)
unfolding peer_frame
peer_frame_total input own hn hf vn vf =
    let (nonce, e, _) =
      resolve_bytes_total input.nonce Aead.nonce_len own.nonce.as_bytes (omega arith) hn vn in
    let (frame, e', size) = resolve_frame_total input.frame own.frame hf vf in
    (
      record { nonce = record { as_bytes = nonce }; frame = frame },
      rw (peer_frame, e, e') refl,
      size,
    )
