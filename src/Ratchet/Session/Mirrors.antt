-- ===== src/Ratchet/Session/Mirrors.antt =====
-- A receiver as the set of the numbers that it has opened.
use quietwire.Base.{
  ℕ, suc, ◌+◌, ◌≤◌, ◌<◌, ◌≡◌, sym, ◌∙◌, subst, ◌⊎◌, map, ◌++◌, inl, inr, Bool, true, false, not,
  ◌&&◌, ◌||◌, arith, length, ltb, List, ap, some, get_elem?, leb, ◌==◌, if◌then◌else◌, Bool-cases,
}
use quietwire.Crypto.{Primitives}
use quietwire.Crypto.X25519.{PublicKey}
use quietwire.Ratchet.{Key}
use quietwire.Ratchet.Header.{Header}
use quietwire.Ratchet.Skipped.{SkippedKey, same_ratchet, with_ratchet, remove}
use quietwire.Ratchet.Skipped.Position.{is_for}
use quietwire.Ratchet.Skipped.Matches.{matches, matches-remove}
use quietwire.Ratchet.Session.{Session}
use quietwire.Ratchet.Session.Delivery.{Follows}

-- The numbers opened so far, and one more.
abbrev pub mark : ℕ → (ℕ → Bool) → ℕ → Bool
mark n taken j = (j == n) || taken j

-- A number that was passed over and not opened waits with its key.
abbrev pub pending : (ℕ → Bool) → ℕ → ℕ → ℕ
pending taken next n = if ltb n next && not (taken n) then 1 else 0

pub pending-ahead :
    (taken : ℕ → Bool) (next m j : ℕ)
    → (taken j ≡ true → j < next)
    → pending taken next j + (if leb next j && ltb j (next + m) then 1 else 0)
      ≡ pending (mark (next + m) taken) (suc (next + m)) j
pending-ahead taken next m j seen = elim (Bool-cases (taken j)) [
  | inl t ↦ let lt = seen t in ground arith
  | inr f ↦ ground arith
]

pub pending-kept :
    (taken : ℕ → Bool) (next n j : ℕ)
    → taken n ≡ false
    → n < next
    → (if n == j then 1 else 0) + pending (mark n taken) next j ≡ pending taken next j
pending-kept taken next n j fresh lt = elim (Bool-cases (n == j)) [
  | inl same ↦
      let e : n ≡ j = ground arith in
      let here : taken j ≡ false = subst (λ k. taken k ≡ false) e fresh in ground arith
  | inr other ↦ let back : (j == n) ≡ false = ground arith in ground arith
]

-- One kept key of the chain was used, or keys of the chain were added.
abbrev pub KeptAfter : PublicKey → List SkippedKey → List SkippedKey → Type 0
KeptAfter ratchet ks ks' =
    ((index : ℕ) × (k : SkippedKey) × (get_elem? ks index ≡ some k)
      × (same_ratchet k.ratchet ratchet ≡ true)
      × (ks' ≡ remove ks index))
    ⊎ ((keys : List (ℕ × Key)) × (ks' ≡ ks ++ map (with_ratchet ratchet) keys))

module _ (P : Primitives) (start : Key) (ratchet : PublicKey) where
  -- The session follows the chain up to `next`, has opened the numbers that are taken, keeps a key for
  -- each other number and no key twice, and `base` more at most.
  pub record Mirrors (base next : ℕ) (taken : ℕ → Bool) (s : Session) : Type 0 where
    pub follows : Follows P start ratchet next s
    pub seen : (n : ℕ) → taken n ≡ true → n < next
    pub waits :
        (h : Header)
        → h.ratchet ≡ ratchet
        → matches h s.skipped ≡ pending taken next h.message_number
    pub room : length s.skipped ≤ base + next

  -- A key for a frame of the chain is for the frames with the same number.
  pub is_for-same :
      (h h' : Header) (k : SkippedKey)
      → h.ratchet ≡ ratchet
      → h'.ratchet ≡ ratchet
      → is_for h k ≡ true
      → is_for h' k ≡ (h.message_number == h'.message_number)
  is_for-same h h' k e e' hit =
      let same : same_ratchet k.ratchet h.ratchet ≡ true = ground arith in
      let number : k.number ≡ h.message_number = ground arith in
      let there : same_ratchet k.ratchet h'.ratchet ≡ true =
        subst (λ r. same_ratchet k.ratchet r ≡ true) (e ∙ sym e') same in
      ground (arith, there, number)

  -- Once the key for a waiting number is removed, that number is taken.
  pub pending-remove :
      (ks : List SkippedKey) (next n index : ℕ) (taken : ℕ → Bool) (k : SkippedKey) (h h' : Header)
      → n < next
      → taken n ≡ false
      → h.ratchet ≡ ratchet
      → h.message_number ≡ n
      → get_elem? ks index ≡ some k
      → is_for h k ≡ true
      → h'.ratchet ≡ ratchet
      → matches h' ks ≡ pending taken next h'.message_number
      → matches h' (remove ks index) ≡ pending (mark n taken) next h'.message_number
  pending-remove ks next n index taken k h h' lt fresh e number found hit e' waits =
      let same = is_for-same h h' k e e' hit ∙ ap (λ t. t == h'.message_number) number in
      cancel (if n == h'.message_number then 1 else 0) _ _ (
        ap (λ (b : Bool). (if b then 1 else 0) + matches h' (remove ks index)) (sym same)
        ∙ matches-remove h' ks index found
        ∙ waits
        ∙ sym (pending-kept taken next n h'.message_number fresh lt))
    where
      cancel : (a b c : ℕ) → a + b ≡ a + c → b ≡ c
      cancel a b c h = omega arith
