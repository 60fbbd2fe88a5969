-- ===== src/Fuzz/Edits.antt =====
-- Edits by exclusive or: what they keep of an array, and that the reverse edits undo them.
use quietwire.Base.{
  ℕ, zero, suc, ◌%◌, ◌<◌, ◌≡◌, refl, sym, ap, ◌∙◌, subst, some, List, [], ◌∷◌, ◌++◌, arith, length,
  update, get_elem?, get_elem?-update_same, update_undo, lt_of_get_elem?, length-update, All,
  reverse, reverse-cons, All-get_elem?, inside,
}
use quietwire.Base.{ok, err, panic, ◌>>=◌}
use quietwire.Bytes.{Bytes, IsByte, IsArray, xor_lem}
use quietwire.Fuzz.{Edit, apply_edit, edited}
use Prim.Native.Nat.{bit_xor}

abbrev pub IsEdit : Edit → Type 0
IsEdit edit = IsByte edit.xor

All-update_byte : (bs : Bytes) (i b : ℕ) → All IsByte bs → IsByte b → All IsByte (update bs i b)
All-update_byte [] i b h v = tt
All-update_byte (x ∷ xs) zero b h v = (v, h.1)
All-update_byte (x ∷ xs) (suc i) b h v = (h.0, All-update_byte xs i b h.1 v)

get_elem?-IsByte : (bs : Bytes) (i b : ℕ) → All IsByte bs → get_elem? bs i ≡ some b → IsByte b
get_elem?-IsByte bs i b h e = All-get_elem? IsByte bs i h e

apply_edit_at :
    (edit : Edit) (bs : Bytes) (i : ℕ) {b : ℕ}
    → i ≡ edit.at % length bs
    → get_elem? bs i ≡ some b
    → apply_edit edit bs ≡ ok (update bs i (bit_xor b edit.xor))
unfolding apply_edit
apply_edit_at edit bs i {b} same e =
    let e' = subst (λ j. get_elem? bs j ≡ some b) same e in rw (same, e', apply_edit) refl

-- One edit of an array keeps it an array and undoes itself.
apply_edit_lem :
    (edit : Edit) (n : ℕ) (bs : Bytes)
    → 0 < n
    → IsEdit edit
    → IsArray n bs
    → (bs' : Bytes) × (apply_edit edit bs ≡ ok bs') × IsArray n bs' × (apply_edit edit bs' ≡ ok bs)
apply_edit_lem edit n bs pos v h =
    let i = edit.at % length bs in
    let (b, e) = inside bs i (grind (arith, h.0)) in
    let xors = xor_lem b edit.xor (get_elem?-IsByte bs i b h.1 e) v in
    let bs' = update bs i (bit_xor b edit.xor) in
    let size = length-update bs i (bit_xor b edit.xor) in
    let there = get_elem?-update_same bs i (bit_xor b edit.xor) (lt_of_get_elem? bs i e) in
    (
      bs',
      apply_edit_at edit bs i refl e,
      (size ∙ h.0, All-update_byte bs i _ h.1 xors.0),
      apply_edit_at edit bs' i (ap (λ n. edit.at % n) (sym size)) there
          ∙ ap ok (ap (update bs' i) xors.1 ∙ update_undo bs i (bit_xor b edit.xor) e),
    )

edited-append :
    (edits more : List Edit) (bs : Bytes)
    → edited bs (edits ++ more) ≡ (edited bs edits >>= λ bs'. edited bs' more)
unfolding edited
edited-append [] more bs = refl
edited-append (edit ∷ edits) more bs =
    elim (apply_edit edit bs)
      as (λ r.
        (r >>= λ bs'. edited bs' (edits ++ more))
        ≡ (r >>= (λ bs'. edited bs' edits) >>= λ bs'. edited bs' more)) [
          | ok bs' ↦ edited-append edits more bs'
          | err e ↦ refl
          | panic ↦ refl
        ]

-- Editing an array of bytes that is not empty never panics and gives an array of the same length,
-- and the edits in the opposite order give back the original.
pub edited_undone :
    (edits : List Edit) (n : ℕ) (bs : Bytes)
    → 0 < n
    → All IsEdit edits
    → IsArray n bs
    → (bs' : Bytes) × (edited bs edits ≡ ok bs')
      × IsArray n bs'
      × (edited bs' (reverse edits) ≡ ok bs)
unfolding edited
edited_undone [] n bs pos v h = (bs, refl, h, refl)
edited_undone (edit ∷ edits) n bs pos v h =
    let (bs1, e1, h1, back1) = apply_edit_lem edit n bs pos v.0 h in
    let (bs', e, h', back) = edited_undone edits n bs1 pos v.1 h1 in
    let undone : edited bs' (reverse (edit ∷ edits)) ≡ ok bs =
      ap (edited bs') (reverse-cons edit edits)
      ∙ edited-append (reverse edits) (edit ∷ []) bs'
      ∙ ap (λ r. r >>= λ bs2. edited bs2 (edit ∷ [])) back
      ∙ ap (λ r. r >>= λ bs2. edited bs2 []) back1 in
    (bs', rw (e1, edited) e, h', undone)

-- Whatever the values, edits never panic on an array that is not empty, and keep its length.
pub edited_total :
    (edits : List Edit) (bs : Bytes)
    → 0 < length bs
    → (bs' : Bytes) × (edited bs edits ≡ ok bs') × (length bs' ≡ length bs)
unfolding edited
edited_total [] bs pos = (bs, refl, refl)
edited_total (edit ∷ edits) bs pos =
    let i = edit.at % length bs in
    let (b, e) = inside bs i (grind arith) in
    let bs1 = update bs i (bit_xor b edit.xor) in
    let size = length-update bs i (bit_xor b edit.xor) in
    let (bs', e', size') = edited_total edits bs1 (omega (arith, size)) in
    (bs', rw (apply_edit_at edit bs i refl e, edited) e', size' ∙ size)
