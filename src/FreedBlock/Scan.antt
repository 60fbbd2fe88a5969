-- ===== src/FreedBlock/Scan.antt =====
-- The scan against the block's contents.
use quietwire.Base.{
  ℕ, zero, suc, ◌+◌, ◌-◌, ◌≤◌, ◌<◌, ◌≡◌, ◌↔◌, refl, sym, ap, ap₂, ◌∙◌, inl, inr, true, [], ◌∷◌,
  ◌++◌, arith, ltb, lt→ltb, length, replicate, length-append, Bool-cases,
}
use quietwire.Bytes.{Bytes}
use quietwire.FreedBlock.{
  FreedBlock, byte, zero_from, is_all_zero, matches_at, matches_from, contains,
}
use native.Mathlib.Decide.{dec_lt}

module _ (load_byte : ℕ → ℕ) where
  -- The bytes of a stretch of memory.
  unfoldable pub contents_from : (count address : ℕ) → Bytes
  contents_from zero address = []
  contents_from (suc count) address = load_byte address ∷ contents_from count (suc address)

  length-contents_from : (n a : ℕ) → length (contents_from n a) ≡ n
  unfolding contents_from
  length-contents_from zero a = refl
  length-contents_from (suc n) a = ap suc (length-contents_from n (suc a))

  module _ (block : FreedBlock) where
    unfoldable pub contents : Bytes
    unfolding contents_from
    contents = contents_from block.len block.start

    abbrev behind : ℕ → Bytes
    behind s = contents_from (block.len - s) (block.start + s)

    behind-nil : (s : ℕ) → block.len ≤ s → behind s ≡ []
    unfolding contents_from
    behind-nil s h = let e : block.len - s ≡ 0 = omega arith in rw e

    behind-cons : (s : ℕ) → s < block.len → behind s ≡ load_byte (block.start + s) ∷ behind (suc s)
    unfolding contents_from
    behind-cons s h =
        let e : block.len - s ≡ suc (block.len - suc s) = omega arith in
        let f : suc (block.start + s) ≡ block.start + suc s = omega arith in rw (e, f)

    matches_at_sound :
        (s : ℕ) (pattern : Bytes)
        → matches_at load_byte block s pattern ≡ true
        → (post : Bytes) × (behind s ≡ pattern ++ post)
    unfolding matches_at byte
    matches_at_sound s [] h = (behind s, refl)
    matches_at_sound s (e ∷ pattern) h = elim (dec_lt s block.len) [
      | no out ↦ absurd (ground arith)
      | yes within ↦
          let head : load_byte (block.start + s) ≡ e = ground arith in
          let rest : matches_at load_byte block (suc s) pattern ≡ true = ground arith in
          let (post, found) = matches_at_sound (suc s) pattern rest in
          (post, behind-cons s within ∙ ap₂ ◌∷◌ head found)
    ]

    matches_at_complete :
        (s : ℕ) (pattern post : Bytes)
        → behind s ≡ pattern ++ post
        → matches_at load_byte block s pattern ≡ true
    unfolding matches_at byte
    matches_at_complete s [] post h = refl
    matches_at_complete s (e ∷ pattern) post h = elim (dec_lt s block.len) [
      | no out ↦ let empty : behind s ≡ [] = behind-nil s (omega arith) in absurd (cc)
      | yes within ↦
          let shape = behind-cons s within in
          let head : load_byte (block.start + s) ≡ e = cc in
          let rest : behind (suc s) ≡ pattern ++ post = cc in
          ground (arith, matches_at_complete (suc s) pattern post rest)
    ]

    matches_from_sound :
        (n s : ℕ) (pattern : Bytes)
        → matches_from load_byte block n s pattern ≡ true
        → s + n ≤ suc block.len
        → (pre post : Bytes) × (behind s ≡ pre ++ (pattern ++ post))
    unfolding matches_from
    matches_from_sound (suc n) s pattern h fits =
        elim (Bool-cases (matches_at load_byte block s pattern)) [
          | inl here ↦ let (post, found) = matches_at_sound s pattern here in ([], post, found)
          | inr elsewhere ↦
              let later : matches_from load_byte block n (suc s) pattern ≡ true = ground arith in
              let (pre, post, found) = matches_from_sound n (suc s) pattern later (omega arith) in
              elim (dec_lt s block.len) [
                | yes within ↦ (
                  load_byte (block.start + s) ∷ pre,
                  post,
                  behind-cons s within ∙ ap (◌∷◌ (load_byte (block.start + s))) found,
                )
                | no out ↦ (
                  pre,
                  post,
                  behind-nil s (omega arith) ∙ sym (behind-nil (suc s) (omega arith)) ∙ found,
                )
              ]
        ]
    matches_from_sound zero s pattern h fits = absurd (cc)

    matches_from_complete :
        (n s : ℕ) (pattern pre post : Bytes)
        → length pre < n
        → behind s ≡ pre ++ (pattern ++ post)
        → matches_from load_byte block n s pattern ≡ true
    unfolding matches_from
    matches_from_complete zero s pattern pre post h e = absurd (omega arith)
    matches_from_complete (suc n) s pattern [] post h e =
        ground (arith, matches_at_complete s pattern post e)
    matches_from_complete (suc n) s pattern (b ∷ pre) post h e = elim (dec_lt s block.len) [
      | no out ↦ let empty : behind s ≡ [] = behind-nil s (omega arith) in absurd (cc)
      | yes within ↦
          let shape = behind-cons s within in
          let rest : behind (suc s) ≡ pre ++ (pattern ++ post) = cc in
          ground (arith, matches_from_complete n (suc s) pattern pre post (omega arith) rest)
    ]

    -- The scan finds a pattern exactly when it stands somewhere in the block's contents, also at its
    -- end, or is empty, whatever lies behind the block.
    pub contains_iff :
        (pattern : Bytes)
        → (contains load_byte block pattern ≡ true)
          ↔ ((pre post : Bytes) × (contents ≡ pre ++ (pattern ++ post)))
    unfolding contains contents
    contains_iff pattern = (sound, complete)
      where
        whole : behind 0 ≡ contents_from block.len block.start
        whole =
            let count : block.len - 0 ≡ block.len = omega arith in
            let address : block.start + 0 ≡ block.start = omega arith in
            ap₂ contents_from count address

        sound :
            contains load_byte block pattern ≡ true
            → (pre post : Bytes) × (contents_from block.len block.start ≡ pre ++ (pattern ++ post))
        sound h = elim (dec_lt block.len (length pattern)) [
          | yes long ↦ absurd (ground arith)
          | no fits ↦
              let found : matches_from load_byte block (suc (block.len - length pattern)) 0 pattern
                  ≡ true =
                ground arith in
              let (pre, post, e) =
                matches_from_sound (suc (block.len - length pattern)) 0 pattern found
                  (omega arith) in
              (pre, post, sym whole ∙ e)
        ]

        complete :
            ((pre post : Bytes) × (contents_from block.len block.start ≡ pre ++ (pattern ++ post)))
            → contains load_byte block pattern ≡ true
        complete (pre, post, e) =
            let sizes : length (contents_from block.len block.start)
                ≡ length (pre ++ (pattern ++ post)) =
              ap length e in
            let size : block.len ≡ length pre + (length pattern + length post) = omega (
              arith,
              length-contents_from block.len block.start,
              sizes,
              length-append pre (pattern ++ post),
              length-append pattern post,
            ) in
            ground (
              arith,
              matches_from_complete (suc (block.len - length pattern)) 0 pattern pre post
                  (omega arith) (whole ∙ e),
            )

    zero_from_sound :
        (n s : ℕ)
        → s + n ≤ block.len
        → zero_from load_byte block n s ≡ true
        → contents_from n (block.start + s) ≡ replicate n 0
    unfolding zero_from byte contents_from
    zero_from_sound zero s h e = refl
    zero_from_sound (suc n) s h e =
        let within : ltb s block.len ≡ true = lt→ltb s block.len (omega arith) in
        let head : load_byte (block.start + s) ≡ 0 = ground arith in
        let rest : zero_from load_byte block n (suc s) ≡ true = ground arith in
        let address : suc (block.start + s) ≡ block.start + suc s = omega arith in
        ap₂ ◌∷◌ head (ap (contents_from n) address ∙ zero_from_sound n (suc s) (omega arith) rest)

    zero_from_complete :
        (n s : ℕ)
        → s + n ≤ block.len
        → contents_from n (block.start + s) ≡ replicate n 0
        → zero_from load_byte block n s ≡ true
    unfolding zero_from byte contents_from
    zero_from_complete zero s h e = refl
    zero_from_complete (suc n) s h e =
        let within : ltb s block.len ≡ true = lt→ltb s block.len (omega arith) in
        let head : load_byte (block.start + s) ≡ 0 = cc in
        let address : block.start + suc s ≡ suc (block.start + s) = omega arith in
        let rest : contents_from n (suc (block.start + s)) ≡ replicate n 0 = cc in
        ground
          (arith, zero_from_complete n (suc s) (omega arith) (ap (contents_from n) address ∙ rest))

    -- A block is all zero exactly when its contents are as many zeroes as it has bytes.
    pub is_all_zero_iff : (is_all_zero load_byte block ≡ true) ↔ (contents ≡ replicate block.len 0)
    unfolding is_all_zero contents
    is_all_zero_iff =
        let address : block.start + 0 ≡ block.start = omega arith in
        (
          (λ h.
              ap (contents_from block.len) (sym address)
              ∙ zero_from_sound block.len 0 (omega arith) h),
          (λ h.
              zero_from_complete block.len 0 (omega arith)
                (ap (contents_from block.len) address ∙ h)),
        )
