-- ===== src/Fuzz/Dialogue/Ends.antt =====
-- How an action of a conversation ends: it passes, or the ratchet has broken a promise.
use quietwire.Base.{
  refl, sym, ap, ◌∙◌, lt_of_get_elem?, ℕ, suc, ◌%◌, ◌≤◌, ◌<◌, ◌≡◌, ◌≢◌, ◌⊎◌, inl, inr, Bool, true,
  false, none, some, if◌then◌else◌, arith, length, get_elem?,
}
use quietwire.Base.{Result, ok, err, panic}
use quietwire.Crypto.{Primitives, HasLengths, OpensSealed, authentication}
use quietwire.Crypto.Secret.{Draw}
use quietwire.Ratchet.{Error, crypto, chain_limit}
use quietwire.Ratchet.Session.{decrypt}
use quietwire.Fuzz.Dialogue.{
  Action, send, deliver, tamper, InFlight, Conversation, Party, session, inbox, apply,
}
use quietwire.Fuzz.Dialogue.Journal.{
  Journal, numbers, seen, member, see, note, promised, IsInbox, Follows,
}
use quietwire.Fuzz.Dialogue.Notes.{
  inbox-IsInbox, note-idle, note-deliver, see-again, opened_by-sent, opened_by-session,
  opened_by-Follows,
}
use quietwire.Fuzz.Dialogue.Sends.{send_from-Passed}
use quietwire.Fuzz.Dialogue.Receives as Receives
use quietwire.Fuzz.Dialogue.Receives.{Delivery, deliver_to-Delivery}
use quietwire.Fuzz.Dialogue.Tampers as Tampers
use quietwire.Fuzz.Dialogue.Tampers.{Tampered, Tampering, tamper_with-Tampering}
use quietwire.Fuzz.Dialogue.Promises.{IsDrawn, IsRecorded, Attempt, Kept, Broken}

module _ (P : Primitives) where
  module _ (L : HasLengths P) (O : OpensSealed P) where
    -- An action passes, and the ratchet has kept its promise, or it fails, and has not.
    abbrev pub Ends : Action → Draw → Journal → Conversation → Result Error Conversation → Type 0
    Ends action draw j c r =
        ((c' : Conversation) × (r ≡ ok c')
          × IsRecorded (note action j) c'
          × (c'.sent ≤ suc c.sent)
          × Kept P action draw j c c')
        ⊎ ((r ≡ panic) × Broken P action draw j c)

    send-Ends :
        (from : Party) (draw : Draw) (j : Journal) (c : Conversation)
        → IsDrawn (send from, draw)
        → IsRecorded j c
        → c.sent < chain_limit
        → Ends (send from) draw j c (apply P (send from) draw c)
    unfolding apply
    send-Ends from none j c d h lt = absurd d
    send-Ends from (some bytes) j c d h lt =
        let p = send_from-Passed P L O from bytes c d lt h.conversation in
        inl (
          p.after,
          p.passes,
          record { conversation = p.again; follows = p.noted j h.follows },
          omega (arith, p.counted),
          p.sends,
        )

    module _ (to : Party) (pick : ℕ) (draw : Draw) (j : Journal) (c : Conversation)
        (h : IsRecorded j c) where
      ins : IsInbox (numbers to j) (seen to j) (inbox to c)
      ins = inbox-IsInbox to j c h.follows

      abbrev attempt :
          (i : ℕ) (frame : InFlight)
          → i ≡ pick % length (inbox to c)
          → get_elem? (inbox to c) i ≡ some frame
          → (decrypt P frame.sealed draw (session to c)).0 ≢ panic
          → Attempt P to pick draw j c
      attempt i frame at here calm = record {
        index = i;
        frame = frame;
        number = (ins.each i frame here).0;
        picked = at ∙ ap (λ n. pick % n) ins.size;
        here = here;
        numbered = (ins.each i frame here).1;
        calm = calm;
      }

      -- What the mark on a frame says is what the journal says.
      promise :
          (i : ℕ) (frame : InFlight) (b : Bool) (here : get_elem? (inbox to c) i ≡ some frame)
          → frame.opened ≡ b
          → promised (ins.each i frame here).0 i (seen to j)
            ≡ (if b then err (crypto authentication) else ok frame.plaintext)
      promise i frame b here e =
          let (number, numbered, plain, flag) = ins.each i frame here in
          let is : member i (seen to j) ≡ b = sym flag ∙ e in rw (is, plain) refl

      noted :
          (i : ℕ) (frame : InFlight) (c' : Conversation)
          → i ≡ pick % length (inbox to c)
          → get_elem? (inbox to c) i ≡ some frame
          → Follows (see to i j) c'
          → Follows (note (deliver to pick) j) c'
      noted i frame c' at here v =
          note-deliver to pick i j c' (at ∙ ap (λ n. pick % n) ins.size)
            (omega (arith, lt_of_get_elem? (inbox to c) i here, ins.size)) v

      Delivery-Ends :
          (r : Result Error Conversation)
          → Delivery P L to pick draw c r
          → Ends (deliver to pick) draw j c r
      Delivery-Ends r (Receives.idle none_there e) =
          let zero_there = sym ins.size ∙ none_there in
          inl (
            c,
            e,
            record {
              conversation = h.conversation;
              follows = note-idle to pick j c zero_there h.follows;
            },
            omega arith,
            inl (zero_there, refl),
          )
      Delivery-Ends r (Receives.again i frame at here before answer e) =
          let is = sym (ins.each i frame here).3 ∙ before in
          inl (
            c,
            e,
            record {
              conversation = h.conversation;
              follows = noted i frame c at here (see-again to i j c is h.follows);
            },
            omega arith,
            inr (
              attempt i frame at here (rw answer cc),
              answer ∙ ap (λ a. (a, session to c)) (sym (promise i frame true here before)),
            ),
          )
      Delivery-Ends r (Receives.opens i frame s at here fresh answer e v) = inl (
        _,
        e,
        record {
          conversation = v;
          follows = noted i frame _ at here (opened_by-Follows to i frame s j c here h.follows);
        },
        omega (arith, opened_by-sent to i frame s c),
        inr (
          attempt i frame at here (rw answer cc),
          answer
              ∙ sym (λ k. (promise i frame false here fresh k, opened_by-session to i frame s c k)),
        ),
      )
      Delivery-Ends r (Receives.unread i frame at here fresh calm other e) =
          inr
            (e, (attempt i frame at here calm, λ is. other (is ∙ promise i frame false here fresh)))
      Delivery-Ends r (Receives.reopened i frame at here before calm other e) =
          inr
            (e, (attempt i frame at here calm, λ is. other (is ∙ promise i frame true here before)))

    Tampering-Ends :
        (to : Party) (pick at xor : ℕ) (draw : Draw) (j : Journal) (c : Conversation)
        (r : Result Error Conversation)
        → IsRecorded j c
        → Tampering P L to pick at xor draw c r
        → Ends (tamper to pick at xor) draw j c r
    Tampering-Ends to pick at xor draw j c r h (Tampers.untouched (inl none_there) e) =
        let zero_there = sym (inbox-IsInbox to j c h.follows).size ∙ none_there in
        inl (c, e, h, omega arith, (refl, inl (inl zero_there)))
    Tampering-Ends to pick at xor draw j c r h (Tampers.untouched (inr same) e) =
        inl (c, e, h, omega arith, (refl, inl (inr same)))
    Tampering-Ends to pick at xor draw j c r h (Tampers.refused t x answer e) =
        inl (c, e, h, omega arith, (refl, inr (t, x, answer)))
    Tampering-Ends to pick at xor draw j c r h (Tampers.forged t plaintext answer e) =
        inr (e, (t, plaintext, answer))

    pub apply-Ends :
        (action : Action) (draw : Draw) (j : Journal) (c : Conversation)
        → IsDrawn (action, draw)
        → IsRecorded j c
        → c.sent < chain_limit
        → Ends action draw j c (apply P action draw c)
    unfolding apply
    apply-Ends (send from) draw j c d h lt = send-Ends from draw j c d h lt
    apply-Ends (deliver to pick) draw j c d h lt =
        Delivery-Ends to pick draw j c h _ (deliver_to-Delivery P L to pick draw c h.conversation)
    apply-Ends (tamper to pick at xor) draw j c d h lt =
        Tampering-Ends to pick at xor draw j c _ h
          (tamper_with-Tampering P L to pick at xor draw c h.conversation)
