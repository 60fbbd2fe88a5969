-- ===== src/Fuzz/Dialogue/Inboxes.antt =====
-- What sending and delivering do to an inbox that is as the journal has it.
use quietwire.Base.{
  ℕ, zero, suc, ◌+◌, ◌≡◌, ◌≢◌, refl, sym, ap, ◌∙◌, subst, ◌⊎◌, inl, inr, true, false, ◌||◌, some,
  List, [], ◌∷◌, ◌++◌, get_elem?, update, arith, length, length-append, length-update,
  get_elem?-update_same, get_elem?-update_ne, lt_of_get_elem?, ◌==◌, Bool-cases,
}
use quietwire.Fuzz.Dialogue.{InFlight, numbered_plaintext}
use quietwire.Fuzz.Dialogue.Journal.{member, is_some, IsInbox}

module _ {A : Type 0} where
  get_elem?-push :
      (xs : List A) (b : A) (i : ℕ) {x : A}
      → get_elem? (xs ++ (b ∷ [])) i ≡ some x
      → (get_elem? xs i ≡ some x) ⊎ ((i ≡ length xs) × (b ≡ x))
  get_elem?-push [] b zero e = inr (refl, cc)
  get_elem?-push [] b (suc i) e = absurd (cc)
  get_elem?-push (x ∷ xs) b zero e = inl e
  get_elem?-push (x ∷ xs) b (suc i) e = elim (get_elem?-push xs b i e) [
    | inl before ↦ inl before
    | inr (last, same) ↦ inr (ap suc last, same)
  ]

  get_elem?-push_before :
      (xs : List A) (b : A) (i : ℕ) {x : A}
      → get_elem? xs i ≡ some x
      → get_elem? (xs ++ (b ∷ [])) i ≡ some x
  get_elem?-push_before [] b i e = cc
  get_elem?-push_before (x ∷ xs) b zero e = e
  get_elem?-push_before (x ∷ xs) b (suc i) e = get_elem?-push_before xs b i e

  get_elem?-push_last : (xs : List A) (b : A) → get_elem? (xs ++ (b ∷ [])) (length xs) ≡ some b
  get_elem?-push_last [] b = refl
  get_elem?-push_last (x ∷ xs) b = get_elem?-push_last xs b

pub member-is_some : (i : ℕ) (ks : List ℕ) → member i ks ≡ true → is_some ks ≡ true
member-is_some i [] e = cc
member-is_some i (k ∷ ks) e = refl

-- A new frame, which nobody has seen.
pub IsInbox-push :
    (ns ks : List ℕ) (frames : List InFlight) (number : ℕ) (frame : InFlight)
    → frame.plaintext ≡ numbered_plaintext number
    → frame.opened ≡ false
    → IsInbox ns ks frames
    → IsInbox (ns ++ (number ∷ [])) ks (frames ++ (frame ∷ []))
IsInbox-push ns ks frames number frame same fresh h = record {
  size =
      length-append frames (frame ∷ [])
      ∙ ap (λ n. n + 1) h.size
      ∙ sym (length-append ns (number ∷ []));
  within = λ i e. omega (arith, h.within i e, length-append ns (number ∷ []));
  each = λ i f e. elim (get_elem?-push frames frame i e) [
    | inl before ↦
        let (k, here, plain, flag) = h.each i f before in
        (k, get_elem?-push_before ns number i here, plain, flag)
    | inr (last, is) ↦
        let at_end : i ≡ length ns = last ∙ h.size in
        (
          number,
          subst (λ k. get_elem? (ns ++ (number ∷ [])) k ≡ some number) (sym at_end)
              (get_elem?-push_last ns number),
          sym (ap (λ (g : InFlight). g.plaintext) is) ∙ same,
          sym (ap (λ (g : InFlight). g.opened) is)
              ∙ fresh
              ∙ sym (unseen i at_end (Bool-cases (member i ks))),
        )
  ];
}
  where
    unseen :
        (i : ℕ) → i ≡ length ns → (member i ks ≡ true) ⊎ (member i ks ≡ false) → member i ks ≡ false
    unseen i e (inl t) = let lt = h.within i t in absurd (omega arith)
    unseen i e (inr f) = f

-- A delivered frame is marked.
pub IsInbox-see :
    (ns ks : List ℕ) (frames : List InFlight) (i : ℕ) (frame : InFlight)
    → get_elem? frames i ≡ some frame
    → IsInbox ns ks frames
    → IsInbox ns (i ∷ ks) (update frames i (record frame { opened = true }))
IsInbox-see ns ks frames i frame here h = record {
  size = length-update frames i (record frame { opened = true }) ∙ h.size;
  within = λ k e. elim (Bool-cases (k == i)) [
    | inl same ↦
        let eq : k ≡ i = ground arith in omega (arith, lt_of_get_elem? frames i here, h.size)
    | inr other ↦ h.within k (ground arith)
  ];
  each = λ k f e. elim (Bool-cases (k == i)) [
    | inl same ↦
        let eq : i ≡ k = ground arith in
        let at_i =
          subst (λ t. get_elem? (update frames i (record frame { opened = true })) t ≡ some f)
            (sym eq) e in
        let there =
          get_elem?-update_same frames i (record frame { opened = true })
            (lt_of_get_elem? frames i here) in
        let is : record frame { opened = true } ≡ f = cc in
        let (number, numbered, plain, flag) = h.each i frame here in
        (
          number,
          subst (λ t. get_elem? ns t ≡ some number) eq numbered,
          sym (ap (λ (g : InFlight). g.plaintext) is) ∙ plain,
          sym (ap (λ (g : InFlight). g.opened) is) ∙ rw same refl,
        )
    | inr other ↦
        let ne : i ≢ k = ground arith in
        let before = sym (get_elem?-update_ne frames i k (record frame { opened = true }) ne) ∙ e in
        let (number, numbered, plain, flag) = h.each k f before in
        (number, numbered, plain, flag ∙ rw other refl)
  ];
}

-- A frame comes again.
pub IsInbox-again :
    (ns ks : List ℕ) (frames : List InFlight) (i : ℕ)
    → member i ks ≡ true
    → IsInbox ns ks frames
    → IsInbox ns (i ∷ ks) frames
IsInbox-again ns ks frames i e h = record {
  size = h.size;
  within = λ k t. h.within k (sym (same k) ∙ t);
  each = λ k f here.
      let (number, numbered, plain, flag) = h.each k f here in
      (number, numbered, plain, flag ∙ sym (same k));
}
  where
    same : (k : ℕ) → ((k == i) || member k ks) ≡ member k ks
    same k = elim (Bool-cases (k == i)) [
      | inl eq ↦
          let is : i ≡ k = ground arith in
          let there = subst (λ t. member t ks ≡ true) is e in rw (eq, there) refl
      | inr other ↦ rw other refl
    ]
