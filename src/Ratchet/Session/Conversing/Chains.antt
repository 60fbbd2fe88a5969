-- ===== src/Ratchet/Session/Conversing/Chains.antt =====
-- The chains that are known in a conversation, and what a new key finds.
use quietwire.Base.{ℕ, ◌≤◌, ◌≡◌, refl, false, Option, none, some, List, [], ◌∷◌, arith, All}
use quietwire.Crypto.{Primitives}
use quietwire.Crypto.X25519.{PublicKey}
use quietwire.Ratchet.{max_skip_per_chain}
use quietwire.Ratchet.Chain.{Chain, Cursor}
use quietwire.Ratchet.Skipped.{SkippedKey, same_ratchet}
use quietwire.Ratchet.Skipped.Bounds.{extend-All}
use quietwire.Ratchet.Session.{is_remote, extend_previous}
use quietwire.Ratchet.Session.Invariant.{IsChain?}
use quietwire.Ratchet.Session.Exchange.{CatchesUp}
use quietwire.Ratchet.Session.Keeping.{KnowsChains, with_ratchet-KnowsChains}
use quietwire.Ratchet.Session.Conversing.{IsNew, Known, KnowsRemote}

module _ (known : List PublicKey) (x : PublicKey) where
  pub KnowsChains-more :
      (ks : List SkippedKey) → KnowsChains (Known known) ks → KnowsChains (Known (x ∷ known)) ks
  KnowsChains-more [] h = tt
  KnowsChains-more (k ∷ ks) h = ((λ key v. h.0 key v.1), KnowsChains-more ks h.1)

  pub KnowsRemote-more : (o : Option PublicKey) → KnowsRemote known o → KnowsRemote (x ∷ known) o
  KnowsRemote-more none h = tt
  KnowsRemote-more (some r) h = λ key v. h key v.1

module _ (known : List PublicKey) (key : PublicKey) (new : IsNew known key) where
  pub KnowsRemote-fresh : (o : Option PublicKey) → KnowsRemote known o → is_remote o key ≡ false
  KnowsRemote-fresh none h = refl
  KnowsRemote-fresh (some r) h = h key new

  pub KnowsChains-fresh :
      (ks : List SkippedKey)
      → KnowsChains (Known known) ks
      → All (λ k. same_ratchet k.ratchet key ≡ false) ks
  KnowsChains-fresh [] h = tt
  KnowsChains-fresh (k ∷ ks) h = (h.0 key new, KnowsChains-fresh ks h.1)

pub CatchesUp-few :
    (P : Primitives) (o : Option Chain) (until : ℕ)
    → IsChain? o
    → until ≤ max_skip_per_chain
    → CatchesUp P o until
CatchesUp-few P none until v h = tt
CatchesUp-few P (some chain) until v h = (v.within, omega arith, omega arith)

pub extend_previous-KnowsChains :
    (P : Primitives) (known : List PublicKey) (previous : Option Cursor) (remote : Option PublicKey)
    (ks : List SkippedKey)
    → KnowsRemote known remote
    → KnowsChains (Known known) ks
    → KnowsChains (Known known) (extend_previous P previous remote ks)
extend_previous-KnowsChains P known none remote ks r h = h
extend_previous-KnowsChains P known (some c) none ks r h = h
extend_previous-KnowsChains P known (some c) (some key) ks r h =
    extend-All (λ k. Known known k.ratchet) key c.skipped ks h
      (with_ratchet-KnowsChains (Known known) key c.skipped r)
