-- ===== src/Reloc/Steps.antt =====
-- The steps of a move of src/uld_reloc.c: the lock of the flash and the memory behind each.
use uld_fdpic.Common.{
  ℕ, zero, suc, ◌+◌, ◌<◌, ◌≤◌, ◌≡◌, refl, ◌∙◌, ap, arith, ◌⊎◌, inl, inr, false, Option, none, some,
  ℤ, pos, negsuc, is_zero, Bool-cases,
}
use uld_fdpic.Mem.{Mem, w32, read32, write32}
use uld_fdpic.File.{UldFile}
use uld_fdpic.Sal.{Section}
use uld_fdpic.Sal.Crc.{uld_crc_update_fse, uld_crc_update_fst}
use uld_fdpic.Sal.Crc.Verify.{with_both}
use uld_fdpic.Cpu.{Flash, when_unlocked, cpu_flash_write, cpu_flash_write_word}
use uld_fdpic.Reloc.{
  uld_reloc_prepare_flash_fixups, overlaps, then_step, fix_moved, update_crcs, move_created,
}

-- Two areas of `size` bytes that do not wrap round: the test of the move is whether they meet.
overlaps-false :
    (m : Mem) (fse new_base : ℕ)
    → 0 < read32 m (fse + 8)
    → read32 m fse + read32 m (fse + 8) < w32
    → new_base + read32 m (fse + 8) < w32
    → overlaps m fse new_base ≡ false
    → (read32 m fse + read32 m (fse + 8) ≤ new_base)
      ⊎ (new_base + read32 m (fse + 8) ≤ read32 m fse)
unfolding overlaps
overlaps-false m fse new_base size fits fits' e = ground arith

then_step-free :
    (next : Flash → ℤ × Flash) (r : ℤ × Flash)
    → ((g : Flash) → g.locked ≡ false → (next g).1.locked ≡ false)
    → r.1.locked ≡ false
    → (then_step next r).1.locked ≡ false
then_step-free next r step h = elim (Bool-cases (is_zero r.0)) [
  | inl fine ↦ rw fine (step r.1 h)
  | inr failed ↦ rw failed h
]

then_step-success :
    (next : Flash → ℤ × Flash) (r : ℤ × Flash)
    → (then_step next r).0 ≡ pos 0
    → (r.0 ≡ pos 0) × (then_step next r ≡ next r.1)
then_step-success next (pos zero, f) e = (refl, refl)
then_step-success next (pos (suc n), f) e = absurd (ground arith)
then_step-success next (negsuc n, f) e = absurd (ground arith)

when_unlocked-free : (f : Flash) (m : Mem) → f.locked ≡ false → (when_unlocked f m).1.locked ≡ false
unfolding when_unlocked
when_unlocked-free f m free = rw free refl

when_unlocked-memory : (f : Flash) (m : Mem) → f.locked ≡ false → (when_unlocked f m).1.memory ≡ m
unfolding when_unlocked
when_unlocked-memory f m free = rw free refl

module _ (pstore : ℕ) (blank : Section) (fse new_base : ℕ) where
  update_crcs-free : (f : Flash) → f.locked ≡ false → (update_crcs pstore fse f).1.locked ≡ false
  unfolding update_crcs uld_crc_update_fse uld_crc_update_fst cpu_flash_write_word
  update_crcs-free f free = when_unlocked-free _ _ (when_unlocked-free f _ free)

  update_crcs-memory :
      (f : Flash)
      → f.locked ≡ false
      → (update_crcs pstore fse f).1.memory ≡ with_both f.memory pstore fse
  unfolding update_crcs uld_crc_update_fse uld_crc_update_fst cpu_flash_write_word
  update_crcs-memory f free =
      when_unlocked-memory _ _ (when_unlocked-free f _ free)
      ∙ rw (when_unlocked-memory f _ free) refl

  fix_moved-free :
      (u : Option UldFile) (f : Flash)
      → f.locked ≡ false
      → (fix_moved blank new_base u f).1.locked ≡ false
  unfolding fix_moved
  fix_moved-free none f free = free
  fix_moved-free (some u) f free = free

  module _ (u : UldFile) (f : Flash) (free : f.locked ≡ false) where
    abbrev fix_step : Flash → ℤ × Flash
    fix_step g = fix_moved blank new_base (uld_reloc_prepare_flash_fixups g.memory (some u)) g

    abbrev base_step : Flash → ℤ × Flash
    base_step g = cpu_flash_write_word g fse new_base

    abbrev written : ℤ × Flash
    written = cpu_flash_write f new_base (read32 f.memory fse) (read32 f.memory (fse + 8))

    abbrev based : ℤ × Flash
    based = then_step base_step (then_step fix_step written)

    fixed-free : (then_step fix_step written).1.locked ≡ false
    unfolding cpu_flash_write
    fixed-free =
        then_step-free fix_step written (λ g h. fix_moved-free _ g h) (when_unlocked-free f _ free)

    based-free : based.1.locked ≡ false
    unfolding cpu_flash_write_word
    based-free =
        then_step-free base_step (then_step fix_step written) (λ g h. when_unlocked-free g _ h)
          fixed-free

    pub move_created-free : (move_created pstore blank fse new_base u f).1.locked ≡ false
    unfolding move_created
    move_created-free =
        then_step-free (update_crcs pstore fse) based (λ g h. update_crcs-free g h) based-free

    -- The last steps of a move that succeeds: the new base, then the CRCs.
    pub move_created-memory :
        (move_created pstore blank fse new_base u f).0 ≡ pos 0
        → (g : Mem) × ((move_created pstore blank fse new_base u f).1.memory
            ≡ with_both (write32 g fse new_base) pstore fse)
    unfolding move_created cpu_flash_write_word
    move_created-memory e =
        let fixed = then_step fix_step written in
        let last = then_step-success (update_crcs pstore fse) based e in
        let before = then_step-success base_step fixed last.0 in
        (
          fixed.1.memory,
          ap (λ r. r.1.memory) last.1
              ∙ update_crcs-memory based.1 based-free
              ∙ ap (λ m. with_both m pstore fse)
                  (ap (λ r. r.1.memory) before.1 ∙ when_unlocked-memory fixed.1 _ fixed-free),
        )
