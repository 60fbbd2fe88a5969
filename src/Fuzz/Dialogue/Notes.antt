-- ===== src/Fuzz/Dialogue/Notes.antt =====
-- The journal keeps up with the conversation: what each action notes.
use quietwire.Base.{
  ℕ, suc, ◌%◌, ◌<◌, ◌≡◌, refl, sym, ap, ◌∙◌, subst, Bool, true, false, some, List, [], ◌∷◌, ◌++◌,
  get_elem?, update, arith, length, if◌then◌else◌,
}
use quietwire.Ratchet.{SealedFrame}
use quietwire.Ratchet.Session.{Session}
use quietwire.Fuzz.Dialogue.{
  InFlight, Conversation, Party, alice, bob, session, inbox, send, deliver, numbered_plaintext,
}
use quietwire.Fuzz.Dialogue.Journal.{
  Journal, numbers, seen, member, is_some, see, note, IsInbox, Follows,
}
use quietwire.Fuzz.Dialogue.Inboxes.{IsInbox-push, IsInbox-again, member-is_some, IsInbox-see}

if-Follows :
    (b : Bool) (j j' : Journal) (c : Conversation)
    → (b ≡ true → Follows j c)
    → (b ≡ false → Follows j' c)
    → Follows (if b then j else j') c
if-Follows true j j' c h h' = h refl
if-Follows false j j' c h h' = h' refl

-- What the initiator sends is noted for the responder.
pub send_alice-Follows :
    (j : Journal) (c : Conversation) (s : Session) (sealed : SealedFrame)
    → Follows j c
    → Follows (note (send alice) j) (record c {
      alice_session = s;
      to_bob =
          c.to_bob
          ++ (record { sealed = sealed; plaintext = numbered_plaintext c.sent; opened = false }
              ∷ []);
      sent = suc c.sent;
    })
send_alice-Follows j c s sealed h = record {
  counted = ap suc h.counted;
  alice_inbox = h.alice_inbox;
  bob_inbox =
      IsInbox-push j.for_bob j.seen_bob c.to_bob j.sent _ (ap numbered_plaintext h.counted) refl
        h.bob_inbox;
  received = h.received;
}

pub send_bob-Follows :
    (j : Journal) (c : Conversation) (s : Session) (sealed : SealedFrame)
    → c.bob_has_received ≡ true
    → Follows j c
    → Follows (note (send bob) j) (record c {
      bob_session = s;
      to_alice =
          c.to_alice
          ++ (record { sealed = sealed; plaintext = numbered_plaintext c.sent; opened = false }
              ∷ []);
      sent = suc c.sent;
    })
send_bob-Follows j c s sealed answers h =
    if-Follows (is_some j.seen_bob) _ _ _
      (λ _. record {
        counted = ap suc h.counted;
        alice_inbox =
            IsInbox-push j.for_alice j.seen_alice c.to_alice j.sent _
              (ap numbered_plaintext h.counted) refl h.alice_inbox;
        bob_inbox = h.bob_inbox;
        received = h.received;
      })
      (λ silent. let same = sym h.received ∙ answers in absurd (cc))

pub send_blocked-Follows :
    (j : Journal) (c : Conversation)
    → c.bob_has_received ≡ false
    → Follows j c
    → Follows (note (send bob) j) (record c { sent = suc c.sent })
send_blocked-Follows j c waits h =
    if-Follows (is_some j.seen_bob) _ _ _
      (λ answers. let same = sym h.received ∙ waits in absurd (cc))
      (λ _. record {
        counted = ap suc h.counted;
        alice_inbox = h.alice_inbox;
        bob_inbox = h.bob_inbox;
        received = h.received;
      })

pub inbox-IsInbox :
    (to : Party) (j : Journal) (c : Conversation)
    → Follows j c
    → IsInbox (numbers to j) (seen to j) (inbox to c)
unfolding inbox
inbox-IsInbox alice j c h = h.alice_inbox
inbox-IsInbox bob j c h = h.bob_inbox

-- Nothing is noted when there is nothing to deliver, and an index when there is.
pub note-idle :
    (to : Party) (pick : ℕ) (j : Journal) (c : Conversation)
    → length (numbers to j) ≡ 0
    → Follows j c
    → Follows (note (deliver to pick) j) c
note-idle to pick j c e h =
    if-Follows (is_some (numbers to j)) _ _ c (λ more. absurd (empty (numbers to j) more e))
      (λ _. h)
  where
    empty : (ks : List ℕ) → is_some ks ≡ true → length ks ≡ 0 → ⊥
    empty [] t e = cc
    empty (k ∷ ks) t e = omega arith

pub note-deliver :
    (to : Party) (pick i : ℕ) (j : Journal) (c : Conversation)
    → i ≡ pick % length (numbers to j)
    → i < length (numbers to j)
    → Follows (see to i j) c
    → Follows (note (deliver to pick) j) c
note-deliver to pick i j c e lt h =
    if-Follows (is_some (numbers to j)) _ _ c (λ _. subst (λ k. Follows (see to k j) c) e h)
      (λ none_there. absurd (some_there (numbers to j) none_there lt))
  where
    some_there : (ks : List ℕ) → is_some ks ≡ false → i < length ks → ⊥
    some_there [] t lt = omega arith
    some_there (k ∷ ks) t lt = cc

pub see-again :
    (to : Party) (i : ℕ) (j : Journal) (c : Conversation)
    → member i (seen to j) ≡ true
    → Follows j c
    → Follows (see to i j) c
see-again alice i j c e h = record {
  counted = h.counted;
  alice_inbox = IsInbox-again j.for_alice j.seen_alice c.to_alice i e h.alice_inbox;
  bob_inbox = h.bob_inbox;
  received = h.received;
}
see-again bob i j c e h = record {
  counted = h.counted;
  alice_inbox = h.alice_inbox;
  bob_inbox = IsInbox-again j.for_bob j.seen_bob c.to_bob i e h.bob_inbox;
  received = h.received ∙ member-is_some i j.seen_bob e;
}

-- The conversation after a frame has opened and is marked.
abbrev pub opened_by : Party → ℕ → InFlight → Session → Conversation → Conversation
opened_by alice i frame s c = record c {
  alice_session = s;
  to_alice = update c.to_alice i (record frame { opened = true });
}
opened_by bob i frame s c = record c {
  bob_session = s;
  to_bob = update c.to_bob i (record frame { opened = true });
  bob_has_received = true;
}

-- A frame that has opened is noted.
pub opened_by-Follows :
    (to : Party) (i : ℕ) (frame : InFlight) (s : Session) (j : Journal) (c : Conversation)
    → get_elem? (inbox to c) i ≡ some frame
    → Follows j c
    → Follows (see to i j) (opened_by to i frame s c)
unfolding inbox
opened_by-Follows alice i frame s j c here h = record {
  counted = h.counted;
  alice_inbox = IsInbox-see j.for_alice j.seen_alice c.to_alice i frame here h.alice_inbox;
  bob_inbox = h.bob_inbox;
  received = h.received;
}
opened_by-Follows bob i frame s j c here h = record {
  counted = h.counted;
  alice_inbox = h.alice_inbox;
  bob_inbox = IsInbox-see j.for_bob j.seen_bob c.to_bob i frame here h.bob_inbox;
  received = refl;
}

pub opened_by-session :
    (to : Party) (i : ℕ) (frame : InFlight) (s : Session) (c : Conversation)
    → session to (opened_by to i frame s c) ≡ s
unfolding session
opened_by-session alice i frame s c = refl
opened_by-session bob i frame s c = refl

pub opened_by-sent :
    (to : Party) (i : ℕ) (frame : InFlight) (s : Session) (c : Conversation)
    → (opened_by to i frame s c).sent ≡ c.sent
opened_by-sent alice i frame s c = refl
opened_by-sent bob i frame s c = refl
