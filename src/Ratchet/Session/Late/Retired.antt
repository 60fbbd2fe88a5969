-- ===== src/Ratchet/Session/Late/Retired.antt =====
-- The ratchet step retires a chain: the keys of its frames that have not arrived are kept.
use quietwire.Base.{
  ℕ, suc, ◌+◌, ◌-◌, ◌≤◌, ◌<◌, ◌≡◌, refl, sym, ap, ◌∙◌, subst, Bool, true, false, Option, some, List,
  ◌∷◌, ◌++◌, map, arith, length, length-append, length-map, All, ltb, leb, ◌&&◌, if◌then◌else◌,
  Bool-cases, inl, inr,
}
use quietwire.Base.{Result, ok}
use quietwire.Bytes.{Bytes}
use quietwire.Crypto.{Primitives, HasLengths}
use quietwire.Crypto.Secret.{SecretKey}
use quietwire.Crypto.X25519.{PrivateKey, PublicKey, public_key}
use quietwire.Ratchet.{Key, Error, SealedFrame, max_skip_per_chain}
use quietwire.Ratchet.Header.{parse}
use quietwire.Ratchet.Chain.{Cursor, at, kdf_root}
use quietwire.Ratchet.Chain.Schedule.{advance, skipped_by, skip_to_lem, keys_from, length-keys_from}
use quietwire.Ratchet.Chain.Keys.{keys_from-scheduled}
use quietwire.Ratchet.Skipped.{same_ratchet, with_ratchet, extend}
use quietwire.Ratchet.Skipped.Bounds.{extend-All}
use quietwire.Ratchet.Skipped.Matches.{matches, matches-append, extend_small, matches-keys_from}
use quietwire.Ratchet.Session.{Session, skip_previous, is_remote, extend_previous}
use quietwire.Ratchet.Session.Steps.{chain_at, kdf_root-length}
use quietwire.Ratchet.Session.Delivery.{IsScheduled, IsScheduled-keys, IsFrame}
use quietwire.Ratchet.Session.Exchange.{Turn, CatchesUp}
use quietwire.Ratchet.Session.Exchange.Cross.{cross, other_keys}
use quietwire.Ratchet.Session.Mirrors.{mark, pending, Mirrors}
use quietwire.Ratchet.Session.Retains.{Retains, matches-KeptAfter}
use quietwire.Ratchet.Session.Crossing.{none_taken, Crossed-Mirrors}
use quietwire.Ratchet.Session.Bursts.{NextRatchet}
use quietwire.Ratchet.Session.Late.{
  same_ratchet-other, decrypt_each, Arrivals, decrypt_each-Arrivals,
}

pending-until :
    (taken : ℕ → Bool) (next until j : ℕ)
    → (taken j ≡ true → j < next)
    → next ≤ until
    → pending taken next j + (if leb next j && ltb j (next + (until - next)) then 1 else 0)
      ≡ pending taken until j
pending-until taken next until j seen le = elim (Bool-cases (taken j)) [
  | inl t ↦ let lt = seen t in ground arith
  | inr f ↦ ground arith
]

module _ (P : Primitives) where
  module _ (L : HasLengths P) (old : Key) (remote : PublicKey) (base next until : ℕ)
      (taken : ℕ → Bool) (b : Session) (v : Mirrors P old remote base next taken b)
      (le : next ≤ until) (near : CatchesUp P b.receiving until) where
    abbrev left : List (ℕ × Key)
    left = keys_from P (advance P old next) next (until - next)

    -- The keys of the chain that the ratchet step keeps.
    caught_up :
        (previous : Option Cursor)
        → skip_previous P b.receiving until ≡ ok previous
        → extend_previous P previous b.remote_ratchet b.skipped ≡ extend remote left b.skipped
    unfolding at
    caught_up previous e =
        let near' = subst (λ o. CatchesUp P o until) v.follows.receiving near in
        let chain = chain_at (advance P old next) next in
        let run : skip_previous P b.receiving until
            ≡ ok (some (skipped_by P (at chain) (until - next))) =
          rw (v.follows.receiving, skip_to_lem P (at chain) until near'.0 near'.1 near'.2) refl in
        let same : previous ≡ some (skipped_by P (at chain) (until - next)) = cc in
        rw (same, v.follows.remote) refl

    Retains-extend :
        (ratchet : PublicKey) (keys : List (ℕ × Key)) (s : Session)
        → length b.skipped + until + length keys ≤ max_skip_per_chain
        → same_ratchet remote ratchet ≡ false
        → s.skipped ≡ extend ratchet keys (extend remote left b.skipped)
        → Retains P old remote until taken s
    Retains-extend ratchet keys s fits other e =
        let size = length-keys_from P (advance P old next) next (until - next) in
        let once = extend_small remote left b.skipped (omega (arith, size)) in
        let twice = extend_small ratchet keys (b.skipped ++ map (with_ratchet remote) left) (
          omega (
            arith,
            size,
            length-append b.skipped (map (with_ratchet remote) left),
            length-map left (with_ratchet remote),
          )) in
        let back = same_ratchet-other remote ratchet other in
        record {
          kept = subst (All (IsScheduled P old remote)) (sym e) (
              extend-All (IsScheduled P old remote) ratchet keys _
                (extend-All (IsScheduled P old remote) remote left b.skipped v.follows.kept (
                  IsScheduled-keys P old remote left next (next + (until - next))
                    (keys_from-scheduled P old next (until - next))))
                (other_keys P L old remote ratchet keys back));
          waits = λ h from.
              matches-KeptAfter ratchet h
                (subst (λ r. same_ratchet ratchet r ≡ false) (sym from) back)
                (b.skipped ++ map (with_ratchet remote) left) s.skipped
                (inr (keys, e ∙ ap (extend ratchet keys) once ∙ twice))
              ∙ matches-append h b.skipped (map (with_ratchet remote) left)
              ∙ ap (λ r. matches h b.skipped + matches h (map (with_ratchet r) left)) (sym from)
              ∙ (λ i.
                  v.waits h from i
                  + matches-keys_from P h (advance P old next) next (until - next) i)
              ∙ pending-until taken next until h.message_number (v.seen h.message_number) le;
        }

  -- When the first frame of a new chain arrives, the frames of the previous chain that have not
  -- arrived are not lost: they still open to their plaintexts, each once, in any order and among the
  -- frames of the new chain, which open to theirs and are refused as not authentic when they come
  -- again. The receiver has taken some numbers of the previous chain below `next`, of which it keeps
  -- the other keys, and the sender says in the header that it sent `next` frames there or more. The
  -- keys kept before, the previous chain and the new one have at most 1 000 frames together, and the
  -- ratchet key that the receiver draws is not refused. The libraries' lengths are assumed.
  pub late_frames :
      HasLengths P
      → (old : Key) (remote : PublicKey) (base next : ℕ) (taken : ℕ → Bool) (start : Key) (n hi : ℕ)
        (a b : Session) (own : PrivateKey) (sealed : SealedFrame) (plaintext : Bytes)
        (root : SecretKey) (sending_key : Key) (arrivals : List (SealedFrame × NextRatchet))
        (answers : List (Result Error Bytes))
      → Mirrors P old remote base next taken b
      → next ≤ a.previous_sending_len
      → Turn P start n a b
      → IsFrame P start (public_key P a.own_ratchet) n plaintext sealed
      → (parse sealed.frame).previous_chain_len ≡ a.previous_sending_len
      → n < hi
      → length b.skipped + a.previous_sending_len + hi ≤ max_skip_per_chain
      → kdf_root P a.root_key own (public_key P a.own_ratchet) ≡ ok (root, sending_key)
      → Arrivals P old remote a.previous_sending_len start
          (public_key P a.own_ratchet)
          hi
          taken
          (mark n none_taken)
          arrivals
          answers
      → decrypt_each P ((sealed, ok own) ∷ arrivals) b ≡ ok plaintext ∷ answers
  unfolding decrypt_each
  late_frames L old remote base next taken start n hi a b own sealed plaintext root sending_key
        arrivals answers v le t f until lt fits second more =
      let ratchet = public_key P a.own_ratchet in
      let len = kdf_root-length P L a.root_key own ratchet root sending_key second in
      let c =
        cross P L start n a b own sealed plaintext root sending_key (omega arith) t f until len.1
          second in
      let m =
        Crossed-Mirrors P L start n a b own sealed plaintext root sending_key hi fits lt t c in
      let other = subst (λ o. is_remote o ratchet ≡ false) v.follows.remote t.ready.fresh in
      let keeps =
        c.keeps
        ∙ ap (extend ratchet (keys_from P start 0 n)) (
            caught_up L old remote base next a.previous_sending_len taken b v le t.ready.caught_up
              c.previous c.caught) in
      let retains =
        Retains-extend L old remote base next a.previous_sending_len taken b v le t.ready.caught_up
          ratchet (keys_from P start 0 n) c.after (omega (arith, length-keys_from P start 0 n))
          other keeps in
      rw (decrypt_each, c.opens)
        (ap (λ answers. ok plaintext ∷ answers)
          (decrypt_each-Arrivals P old remote a.previous_sending_len start ratchet hi L other
            (length b.skipped + a.previous_sending_len) fits arrivals answers taken
            (mark n none_taken) (suc n) c.after (omega arith) more retains m))
