-- ===== src/Libc/Copy.antt =====
-- What `memcpy`, `memmove` and `memset` leave at every address.
use uld_fdpic.Common.{
  ℕ, zero, suc, ◌+◌, ◌-◌, ◌%◌, ◌≤◌, ◌≡◌, refl, arith, ◌⊎◌, Bool, ◌&&◌, ltb, leb, if◌then◌else◌,
}
use uld_fdpic.Mem.{Mem, update}
use uld_fdpic.Libc.{copy_up, copy_down, fill, memcpy, memmove, memset}

-- `a` is one of the `n` addresses from `d` on.
abbrev pub inside : ℕ → ℕ → ℕ → Bool
inside d n a = leb d a && ltb a (d + n)

copy_up_lem :
    (n d s : ℕ) (m : Mem) (a : ℕ)
    → (d ≤ s) ⊎ (s + n ≤ d)
    → copy_up n d s m a ≡ (if inside d n a then m (s + (a - d)) else m a)
unfolding copy_up
copy_up_lem zero d s m a h = ground arith
copy_up_lem (suc n) d s m a h =
    ground (arith, copy_up_lem n (d + 1) (s + 1) (update m d (m s)) a (ground arith))

-- Backwards from the ends `e` and `f`.
copy_down_lem :
    (n d s e f : ℕ) (m : Mem) (a : ℕ)
    → s ≤ d
    → e ≡ d + n
    → f ≡ s + n
    → copy_down n e f m a ≡ (if inside d n a then m (s + (a - d)) else m a)
unfolding copy_down
copy_down_lem zero d s e f m a h p q = ground arith
copy_down_lem (suc n) d s e f m a h p q =
    let e' : e - 1 ≡ d + n = omega arith in
    let f' : f - 1 ≡ s + n = omega arith in
    ground
      (arith, e', f', copy_down_lem n d s (e - 1) (f - 1) (update m (e - 1) (m (f - 1))) a h e' f')

fill_lem : (n p c : ℕ) (m : Mem) (a : ℕ) → fill n p c m a ≡ (if inside p n a then c else m a)
unfolding fill
fill_lem zero p c m a = ground arith
fill_lem (suc n) p c m a = ground (arith, fill_lem n (p + 1) c (update m p c) a)

-- `memmove` returns `dest`, and every address then holds the byte that the source held for it
-- before the call, or its own, however the two areas overlap.
pub memmove_lem :
    (m : Mem) (dest src n a : ℕ)
    → ((memmove m dest src n).0 ≡ dest)
      × ((memmove m dest src n).1 a ≡ (if inside dest n a then m (src + (a - dest)) else m a))
unfolding memmove
memmove_lem m dest src n a =
    ground (arith, copy_up_lem n dest src m a, copy_down_lem n dest src (dest + n) (src + n) m a)

-- `memcpy` does the same for two areas that share no address.
pub memcpy_lem :
    (m : Mem) (dest src n a : ℕ)
    → (dest + n ≤ src) ⊎ (src + n ≤ dest)
    → ((memcpy m dest src n).0 ≡ dest)
      × ((memcpy m dest src n).1 a ≡ (if inside dest n a then m (src + (a - dest)) else m a))
unfolding memcpy
memcpy_lem m dest src n a h = (refl, copy_up_lem n dest src m a (ground arith))

-- `memset` returns `s`, stores the low byte of `c` at the `n` addresses from `s` on, and changes
-- no other.
pub memset_lem :
    (m : Mem) (s c n a : ℕ)
    → ((memset m s c n).0 ≡ s) × ((memset m s c n).1 a ≡ (if inside s n a then c % 256 else m a))
unfolding memset
memset_lem m s c n a = (refl, fill_lem n s (c % 256) m a)
