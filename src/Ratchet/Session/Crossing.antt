-- ===== src/Ratchet/Session/Crossing.antt =====
-- The first frame of a chain that arrives: after its ratchet step the receiver has opened that frame
-- and keeps the keys of those before it.
use quietwire.Base.{
  ℕ, suc, ◌+◌, ◌≤◌, ◌<◌, ◌≡◌, sym, ap, ◌∙◌, subst, Bool, false, Option, none, some, List, map,
  arith, length, length-append, length-map, ltb, leb, ◌==◌, ◌&&◌, if◌then◌else◌, Bool-cases, All,
  inl, inr,
}
use quietwire.Bytes.{Bytes}
use quietwire.Crypto.{Primitives, HasLengths}
use quietwire.Crypto.Secret.{SecretKey}
use quietwire.Crypto.X25519.{PrivateKey, PublicKey, public_key}
use quietwire.Ratchet.{Key, SealedFrame, max_skip_per_chain}
use quietwire.Ratchet.Header.{Header}
use quietwire.Ratchet.Chain.{Cursor}
use quietwire.Ratchet.Chain.Schedule.{keys_from, length-keys_from}
use quietwire.Ratchet.Skipped.{SkippedKey, with_ratchet, same_ratchet}
use quietwire.Ratchet.Skipped.Position.{none_of_All}
use quietwire.Ratchet.Skipped.Matches.{
  matches, matches-append, matches-position, extend_small, matches-keys_from,
}
use quietwire.Ratchet.Session.{Session, extend_previous, is_remote}
use quietwire.Ratchet.Session.Replay.{previous_keys}
use quietwire.Ratchet.Session.Exchange.{keys_of, Turn, fresh-position}
use quietwire.Ratchet.Session.Exchange.Cross.{Crossed}
use quietwire.Ratchet.Session.Mirrors.{mark, pending, Mirrors}

abbrev pub none_taken : ℕ → Bool
none_taken n = false

pending_crossed :
    (n j : ℕ)
    → 0 + (if leb 0 j && ltb j (0 + n) then 1 else 0) ≡ pending (mark n none_taken) (suc n) j
pending_crossed n j = elim (Bool-cases (j == n)) [
  | inl same ↦ ground arith
  | inr other ↦ ground arith
]

module _ (P : Primitives) where
  length-extend_previous-le :
      (previous : Option Cursor) (remote : Option PublicKey) (ks : List SkippedKey)
      → length ks + length (keys_of P previous) ≤ max_skip_per_chain
      → length (extend_previous P previous remote ks) ≤ length ks + length (keys_of P previous)
  length-extend_previous-le none remote ks h = omega arith
  length-extend_previous-le (some c) none ks h = omega arith
  length-extend_previous-le (some c) (some r) ks h = omega (
    arith,
    ap length (extend_small r c.skipped ks h),
    length-append ks (map (with_ratchet r) c.skipped),
    length-map c.skipped (with_ratchet r),
  )

  module _ (L : HasLengths P) (start : Key) (n : ℕ) (a b : Session) (own : PrivateKey)
      (sealed : SealedFrame) (plaintext : Bytes) (root : SecretKey) (sending_key : Key) where
    pub Crossed-Mirrors :
        (hi : ℕ)
        → length b.skipped + a.previous_sending_len + hi ≤ max_skip_per_chain
        → n < hi
        → Turn P start n a b
        → (c : Crossed P L start n a b own sealed plaintext root sending_key)
        → Mirrors P start
            (public_key P a.own_ratchet)
            (length b.skipped + a.previous_sending_len)
            (suc n)
            (mark n none_taken)
            c.after
    Crossed-Mirrors hi fits lt t c =
        let ratchet = public_key P a.own_ratchet in
        let old = extend_previous P c.previous b.remote_ratchet b.skipped in
        let few = c.previous_few in
        let old_few =
          length-extend_previous-le c.previous b.remote_ratchet b.skipped (omega arith) in
        let size = length-keys_from P start 0 n in
        let whole = c.keeps ∙ extend_small ratchet (keys_from P start 0 n) old (omega arith) in
        record {
          follows = c.follows;
          seen = λ j taken. let same : j ≡ n = ground arith in omega arith;
          waits = λ h e.
              ap (matches h) whole
              ∙ matches-append h old (map (with_ratchet ratchet) (keys_from P start 0 n))
              ∙ ap (λ r. matches h old + matches h (map (with_ratchet r) (keys_from P start 0 n)))
                  (sym e)
              ∙ (λ i. none_old h e i + matches-keys_from P h start 0 n i)
              ∙ pending_crossed n h.message_number;
          room = omega (
            arith,
            size,
            ap length whole,
            length-append old (map (with_ratchet ratchet) (keys_from P start 0 n)),
            length-map (keys_from P start 0 n) (with_ratchet ratchet),
          );
        }
      where
        none_old :
            (h : Header)
            → h.ratchet ≡ public_key P a.own_ratchet
            → matches h (extend_previous P c.previous b.remote_ratchet b.skipped) ≡ 0
        none_old h e = matches-position _ h (
            previous_keys P h b.receiving c.previous b.remote_ratchet b.skipped
              (subst (λ r. is_remote b.remote_ratchet r ≡ false) (sym e) t.ready.fresh)
              (none_of_All b.skipped h (
                fresh-position P h b.skipped (
                  subst (λ r. All (λ k. same_ratchet k.ratchet r ≡ false) b.skipped) (sym e)
                    t.ready.none_kept))))
