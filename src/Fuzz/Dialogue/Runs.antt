-- ===== src/Fuzz/Dialogue/Runs.antt =====
-- Whole runs of the fuzz target: it fails only where the ratchet breaks a promise.
use quietwire.Base.{
  ◌+◌, ◌≤◌, ◌≡◌, refl, ap, ◌⊎◌, inl, inr, List, [], ◌∷◌, ◌++◌, arith, length, take, length-take,
  All, All-take,
}
use quietwire.Base.{Result, ok, panic}
use quietwire.Crypto.{Primitives, HasLengths, OpensSealed}
use quietwire.Crypto.Secret.{Draw}
use quietwire.Ratchet.{Error, chain_limit}
use quietwire.Fuzz.Dialogue.{
  Action, Conversation, apply, run, opening, ratchet_session, max_actions,
}
use quietwire.Fuzz.Dialogue.Opening.{opening-IsConversation}
use quietwire.Fuzz.Dialogue.Journal.{Journal, blank, note, journal}
use quietwire.Fuzz.Dialogue.Promises.{IsDrawn, IsRecorded, Kept, Broken}
use quietwire.Fuzz.Dialogue.Ends.{apply-Ends}

module _ (P : Primitives) where
  -- Every action has passed, as the journal has it, and the ratchet has kept the promise that it tested.
  abbrev pub AllKept : List (Action × Draw) → Journal → (c c' : Conversation) → Type 0
  AllKept [] j c c' = c ≡ c'
  AllKept ((action, draw) ∷ actions) j c c' =
      (next : Conversation) × (apply P action draw c ≡ ok next)
      × IsRecorded (note action j) next
      × Kept P action draw j c next
      × AllKept actions (note action j) next c'

  -- A run has stopped at an action that broke a promise, after the actions before it had passed.
  pub record Broke (actions : List (Action × Draw)) (j : Journal) (c : Conversation) : Type 0 where
    pub before : List (Action × Draw)
    pub action : Action
    pub draw : Draw
    pub rest : List (Action × Draw)
    pub reached : Conversation
    pub split : actions ≡ before ++ ((action, draw) ∷ rest)
    pub passed : run P before c ≡ ok reached
    pub kept : AllKept before j c reached
    pub recorded : IsRecorded (journal before j) reached
    pub broken : Broken P action draw (journal before j) reached

  module _ (L : HasLengths P) (O : OpensSealed P) where
    -- A run passes and the ratchet has kept every promise, or it fails where one was broken.
    abbrev pub RunEnds :
        List (Action × Draw) → Journal → Conversation → Result Error Conversation → Type 0
    RunEnds actions j c r =
        ((c' : Conversation) × (r ≡ ok c')
          × IsRecorded (journal actions j) c'
          × AllKept actions j c c')
        ⊎ ((r ≡ panic) × Broke actions j c)

    Broke-cons :
        (action : Action) (draw : Draw) (actions : List (Action × Draw)) (j : Journal)
        (c c' : Conversation)
        → apply P action draw c ≡ ok c'
        → IsRecorded (note action j) c'
        → Kept P action draw j c c'
        → Broke actions (note action j) c'
        → Broke ((action, draw) ∷ actions) j c
    unfolding run
    Broke-cons action draw actions j c c' e h' k b = record {
      before = (action, draw) ∷ b.before;
      action = b.action;
      draw = b.draw;
      rest = b.rest;
      reached = b.reached;
      split = ap (λ t. (action, draw) ∷ t) b.split;
      passed = rw (e, run) b.passed;
      kept = (c', e, h', k, b.kept);
      recorded = b.recorded;
      broken = b.broken;
    }

    pub run-RunEnds :
        (actions : List (Action × Draw)) (j : Journal) (c : Conversation)
        → All IsDrawn actions
        → IsRecorded j c
        → c.sent + length actions ≤ chain_limit
        → RunEnds actions j c (run P actions c)
    unfolding run
    run-RunEnds [] j c d h le = inl (c, refl, h, refl)
    run-RunEnds ((action, draw) ∷ actions) j c d h le =
        elim (apply-Ends P L O action draw j c d.0 h (omega arith)) [
          | inr (e, broken) ↦ inr (
            rw (e, run) refl,
            record {
              before = [];
              action = action;
              draw = draw;
              rest = actions;
              reached = c;
              split = refl;
              passed = refl;
              kept = refl;
              recorded = h;
              broken = broken;
            },
          )
          | inl (c', e, h', more, k) ↦
              elim (run-RunEnds actions (note action j) c' d.1 h' (omega (arith, more))) [
                | inl (c'', e', h'', all) ↦ inl (c'', rw (e, run) e', h'', (c', e, h', k, all))
                | inr (e', b) ↦ inr (rw (e, run) e', Broke-cons action draw actions j c c' e h' k b)
              ]
        ]

    -- The fuzz target of a conversation, once it has started its sessions, ends in one of two ways. It
    -- passes, and the ratchet has kept every promise: each sending gave a frame, or was blocked at a
    -- responder that had received nothing; each frame opened to its plaintext when it was delivered
    -- first and was refused as not authentic when it was delivered again; each tampered frame was
    -- refused; and the inboxes and their marks are as the journal of the actions has them. Or it fails
    -- at the first action, a delivery or a tampered frame, where the ratchet, without a panic, gave
    -- another answer than the promised one. Which frames were delivered before is read off the
    -- journal of the actions, not off the target's own marks. The generator draws a nonce of 24 bytes
    -- for each frame; the libraries' lengths and the cipher's round trip are assumed.
    pub ratchet_session_lem :
        (first second : Draw) (actions : List (Action × Draw)) (c : Conversation)
        → opening P first second ≡ ok c
        → All IsDrawn actions
        → RunEnds (take max_actions actions) blank c (ratchet_session P first second actions)
    unfolding ratchet_session
    ratchet_session_lem first second actions c e d =
        let (h, follows) = opening-IsConversation P L first second c e in
        let none_sent = follows.counted in
        let most = length-take max_actions actions in
        rw (e, ratchet_session)
          (run-RunEnds (take max_actions actions) blank c (All-take IsDrawn max_actions actions d)
            (record { conversation = h; follows = follows }) (omega arith))
