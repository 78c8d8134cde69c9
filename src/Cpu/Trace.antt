-- ===== src/Cpu/Trace.antt =====
-- Sequences of the operations of src/cpu.c, and where they change memory.
use uld_fdpic.Common.{
  ℕ, ◌≡◌, refl, ◌∙◌, ◌⊎◌, inl, inr, Bool, true, false, List, [], ◌∷◌, Bool-cases,
}
use uld_fdpic.Mem.{Mem}
use uld_fdpic.Libc.Copy.{inside, memmove_lem, memset_lem}
use uld_fdpic.Cpu.{
  Flash, cpu_flash_unlock, cpu_flash_lock, when_unlocked, cpu_flash_erase, cpu_flash_write,
}

pub data FlashOp : Type 0 where
  unlock lock : FlashOp
  erase : ℕ → ℕ → FlashOp
  write : ℕ → ℕ → ℕ → FlashOp

pub perform : FlashOp → Flash → Flash
perform unlock f = (cpu_flash_unlock f).1
perform lock f = (cpu_flash_lock f).1
perform (erase s n) f = (cpu_flash_erase f s n).1
perform (write dest src n) f = (cpu_flash_write f dest src n).1

pub perform_all : List FlashOp → Flash → Flash
perform_all [] f = f
perform_all (op ∷ ops) f = perform_all ops (perform op f)

-- The operation's target has the address.
abbrev pub covers : FlashOp → ℕ → Bool
covers unlock a = false
covers lock a = false
covers (erase s n) a = inside s n a
covers (write dest src n) a = inside dest n a

-- Some operation has the address in its target, and finds the flash unlocked.
abbrev pub IsHit : ℕ → Flash → List FlashOp → Type 0
IsHit a f [] = ⊥
IsHit a f (op ∷ ops) = ((f.locked ≡ false) × (covers op a ≡ true)) ⊎ IsHit a (perform op f) ops

when_unlocked-memory :
    (f : Flash) (m : Mem) (a : ℕ) (b : Bool)
    → (b ≡ false → m a ≡ f.memory a)
    → ((when_unlocked f m).1.memory a ≡ f.memory a) ⊎ ((f.locked ≡ false) × (b ≡ true))
unfolding when_unlocked
when_unlocked-memory f m a true h = elim (Bool-cases f.locked) [
  | inl locked ↦ inl (rw locked refl)
  | inr free ↦ inr (free, refl)
]
when_unlocked-memory f m a false h = elim (Bool-cases f.locked) [
  | inl locked ↦ inl (rw locked refl)
  | inr free ↦ inl (rw free (h refl))
]

perform-covers :
    (op : FlashOp) (f : Flash) (a : ℕ)
    → ((perform op f).memory a ≡ f.memory a) ⊎ ((f.locked ≡ false) × (covers op a ≡ true))
unfolding perform cpu_flash_unlock cpu_flash_lock cpu_flash_erase cpu_flash_write
perform-covers unlock f a = inl refl
perform-covers lock f a = inl refl
perform-covers (erase s n) f a =
    when_unlocked-memory f _ a (inside s n a) (λ e. (memset_lem f.memory s 0 n a).1 ∙ rw e refl)
perform-covers (write dest src n) f a =
    when_unlocked-memory f _ a (inside dest n a)
      (λ e. (memmove_lem f.memory dest src n a).1 ∙ rw e refl)

-- After any sequence of erasing, writing, locking and unlocking, a byte is as before, unless one
-- of the operations had its address in its target and found the flash unlocked.
pub perform_all-IsHit :
    (ops : List FlashOp) (f : Flash) (a : ℕ)
    → ((perform_all ops f).memory a ≡ f.memory a) ⊎ IsHit a f ops
unfolding perform_all
perform_all-IsHit [] f a = inl refl
perform_all-IsHit (op ∷ ops) f a = elim (perform-covers op f a) [
  | inr hit ↦ inr (inl hit)
  | inl same ↦ elim (perform_all-IsHit ops (perform op f) a) [
    | inl rest ↦ inl (rest ∙ same)
    | inr hit ↦ inr (inr hit)
  ]
]
