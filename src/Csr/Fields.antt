-- ===== src/Csr/Fields.antt =====
-- The field macros of riscv-csr.h against one another.
use caliptra_ss.Base.{
  ◌+◌, ◌*◌, ◌^◌, ◌≤◌, ◌≡◌, refl, Bool, true, ◌&&◌, List, [], ◌∷◌, arith, ◌==◌, leb, All,
}
use caliptra_ss.Csr.Block.{Block, Field, xlen}
use caliptra_ss.Csr.Blocks.{all_blocks}

-- The mask is the field's bits in place, and the all-set mask is its bits shifted to 0.
record IsField (f : Field) : Type 0 where
  pub in_place : f.mask ≡ f.all_set * 2 ^ f.offset
  pub all_ones : f.all_set + 1 ≡ 2 ^ f.width
  pub fits : f.offset + f.width ≤ xlen

check_field : Field → Bool
check_field f =
    f.mask == f.all_set * 2 ^ f.offset
    && (f.all_set + 1 == 2 ^ f.width && leb (f.offset + f.width) xlen)

check_fields : List Field → Bool
unfolding check_field
check_fields [] = true
check_fields (f ∷ fs) = check_field f && check_fields fs

check_blocks : List Block → Bool
unfolding check_fields
check_blocks [] = true
check_blocks (b ∷ bs) = check_fields b.fields && check_blocks bs

both : (a b : Bool) → (a && b) ≡ true → (a ≡ true) × (b ≡ true)
both a b e = ground arith

check_field_sound : (f : Field) → check_field f ≡ true → IsField f
unfolding check_field
check_field_sound f e = ground arith

check_fields_sound : (fs : List Field) → check_fields fs ≡ true → All IsField fs
unfolding check_fields
check_fields_sound [] e = tt
check_fields_sound (f ∷ fs) e =
    let (here, rest) = both (check_field f) (check_fields fs) e in
    (check_field_sound f here, check_fields_sound fs rest)

check_blocks_sound : (bs : List Block) → check_blocks bs ≡ true → All (λ b. All IsField b.fields) bs
unfolding check_blocks
check_blocks_sound [] e = tt
check_blocks_sound (b ∷ bs) e =
    let (here, rest) = both (check_fields b.fields) (check_blocks bs) e in
    (check_fields_sound b.fields here, check_blocks_sound bs rest)

-- In every section, each field whose macros are plain numbers, and each interrupt bit of a cause
-- register, is described consistently by its four macros.
fields_consistent : All (λ b. All IsField b.fields) all_blocks
fields_consistent = check_blocks_sound all_blocks checked
  where
    checked : check_blocks all_blocks ≡ true
    checked = unfold check_blocks in refl
