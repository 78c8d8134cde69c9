-- ===== src/Reloc/Moved.antt =====
-- What a move of a file leaves behind.
use uld_fdpic.Common.{
  ℕ, ◌<◌, ◌≡◌, refl, ◌∙◌, ap, sym, arith, ◌⊎◌, inl, inr, Bool, true, false, ◌||◌, ◌==◌,
  if◌then◌else◌, ℤ, pos, negsuc, Bool-cases,
}
use mathlib.Core.Path.{subst}
use uld_fdpic.Mem.{Mem, null, w32, read32, write32}
use uld_fdpic.Mem.Laws.{read32-write32_self}
use uld_fdpic.File.{UldFile}
use uld_fdpic.Sal.{Section}
use uld_fdpic.Sal.Crc.{uld_crc_verify_fse, uld_crc_verify_fst}
use uld_fdpic.Sal.Crc.Verify.{IsStore, with_both, entry_word, with_both-verify}
use uld_fdpic.Load.{uld_load_create_file}
use uld_fdpic.Cpu.{Flash, cpu_flash_is_locked, cpu_flash_unlock}
use uld_fdpic.Reloc.{overlaps, move_created, unlock_if, uld_reloc_move_fse}
use uld_fdpic.Reloc.Steps.{move_created-free, move_created-memory}

goes_on :
    (a b c : Bool) (x y : ℤ × Flash)
    → a || b || c ≡ false
    → (if a || b then x else if c then x else y) ≡ y
goes_on a b c x y e = ground arith

stops :
    (a b c : Bool) (x y : ℤ × Flash)
    → a || b || c ≡ true
    → (if a || b then x else if c then x else y) ≡ x
stops a b c x y e = ground arith

module _ (f : Flash) (pstore : ℕ) (blank : Section) (fse new_base : ℕ) where
  abbrev moved : ℤ × Flash
  moved = uld_reloc_move_fse f pstore blank fse new_base

  abbrev refused : Bool
  refused = (fse == null) || (new_base == null) || overlaps f.memory fse new_base

  unlock_if-free :
      (g : Flash) (b : Bool) → (b ≡ false → g.locked ≡ false) → (unlock_if b g).locked ≡ false
  unfolding cpu_flash_unlock
  unlock_if-free g true h = refl
  unlock_if-free g false h = h refl

  unlock_if-memory : (g : Flash) (b : Bool) → (unlock_if b g).memory ≡ g.memory
  unfolding cpu_flash_unlock
  unlock_if-memory g true = refl
  unlock_if-memory g false = refl

  no_success : ¬ (negsuc 0 ≡ pos 0)
  no_success e = ground arith

  -- A move that is not refused: the steps between unlocking and unlocking again.
  moved-eq :
      refused ≡ false
      → (u : UldFile) × (moved ≡ (
        (move_created pstore blank fse new_base u (unlock_if f.locked f)).0,
        unlock_if f.locked (move_created pstore blank fse new_base u (unlock_if f.locked f)).1,
      ))
  unfolding uld_reloc_move_fse uld_load_create_file cpu_flash_is_locked
  moved-eq e = (_, goes_on (fse == null) (new_base == null) (overlaps f.memory fse new_base) _ _ e)

  refused-eq : refused ≡ true → moved ≡ (negsuc 0, f)
  unfolding uld_reloc_move_fse
  refused-eq e = stops (fse == null) (new_base == null) (overlaps f.memory fse new_base) _ _ e

  unlocked-free : (unlock_if f.locked f).locked ≡ false
  unlocked-free = unlock_if-free f f.locked (λ e. e)

  -- A move is refused, with -1 and no change, if the entry or the new base is NULL or the areas
  -- overlap. Else the flash is unlocked in the end, whatever the outcome, even if it was locked
  -- at the start.
  pub move_fse_unlocks :
      ((refused ≡ true) × (moved ≡ (negsuc 0, f))) ⊎ ((refused ≡ false) × (moved.1.locked ≡ false))
  move_fse_unlocks = elim (Bool-cases refused) [
    | inl stop ↦ inl (stop, refused-eq stop)
    | inr goes ↦
        let (u, e) = moved-eq goes in
        inr (
          goes,
          ap (λ r. r.1.locked) e
              ∙ unlock_if-free _ f.locked (λ b.
                move_created-free pstore blank fse new_base u (unlock_if f.locked f) unlocked-free),
        )
  ]

  moved-memory :
      moved.0 ≡ pos 0 → (g : Mem) × (moved.1.memory ≡ with_both (write32 g fse new_base) pstore fse)
  moved-memory done = elim (Bool-cases refused) [
    | inl stop ↦ absurd (no_success (sym (ap (λ r. r.0) (refused-eq stop)) ∙ done))
    | inr goes ↦
        let (u, e) = moved-eq goes in
        let created =
          move_created-memory pstore blank fse new_base u (unlock_if f.locked f) unlocked-free
            (sym (ap (λ r. r.0) e) ∙ done) in
        (created.0, ap (λ r. r.1.memory) e ∙ unlock_if-memory _ f.locked ∙ created.1)
  ]

  -- A move that returns 0: in the end the entry has the new base, and both the CRC of the moved
  -- file and that of the table of files verify. The file's area has neither the entry's nor the
  -- store's CRC, the table does not have the store's CRC, and entry and store are apart.
  pub move_fse-verify :
      moved.0 ≡ pos 0
      → new_base < w32
      → IsStore moved.1.memory pstore fse
      → (read32 moved.1.memory fse ≡ new_base)
        × ((uld_crc_verify_fse moved.1.memory fse).0 ≡ true)
        × ((uld_crc_verify_fst moved.1.memory pstore).0 ≡ true)
  move_fse-verify done low store =
      let (g, e) = moved-memory done in
      let after = write32 g fse new_base in
      let store' = subst (λ m. IsStore m pstore fse) e store in
      let both = with_both-verify after pstore fse store' in
      subst
        (λ m.
          (read32 m fse ≡ new_base)
          × ((uld_crc_verify_fse m fse).0 ≡ true)
          × ((uld_crc_verify_fst m pstore).0 ≡ true))
        (sym e)
        (
          entry_word after pstore fse store' fse (omega arith) (omega arith)
              ∙ read32-write32_self g fse new_base low,
          ap (λ r. r.0) both.0,
          ap (λ r. r.0) both.1,
        )
