-- ===== src/Libc.antt =====
-- The string and memory routines of src/libc.c (`_uld_memcpy` to `_uld_strnlen`), on the address
-- space. A loop that looks for a NUL takes fuel, and `none` means that it ran out.
pub mod Copy
pub mod Strings
pub mod Stdio
use uld_fdpic.Common.{
  ℕ, zero, suc, ◌+◌, ◌-◌, ◌%◌, ◌≡◌, Bool, true, false, not, ◌&&◌, Option, none, some, ◌==◌, ltb,
  leb, if◌then◌else◌, ℤ, pos, negsuc,
}
use uld_fdpic.Mem.{Mem, update}

unfoldable pub copy_up : ℕ → ℕ → ℕ → Mem → Mem
copy_up zero d s m = m
copy_up (suc n) d s m = copy_up n (d + 1) (s + 1) (update m d (m s))

unfoldable pub copy_down : ℕ → ℕ → ℕ → Mem → Mem
copy_down zero d s m = m
copy_down (suc n) d s m = copy_down n (d - 1) (s - 1) (update m (d - 1) (m (s - 1)))

fill : ℕ → ℕ → ℕ → Mem → Mem
fill zero p c m = m
fill (suc n) p c m = fill n (p + 1) c (update m p c)

unfoldable pub memcpy : Mem → ℕ → ℕ → ℕ → ℕ × Mem
unfolding copy_up
memcpy m dest src n = (dest, copy_up n dest src m)

unfoldable pub memmove : Mem → ℕ → ℕ → ℕ → ℕ × Mem
unfolding copy_up copy_down
memmove m dest src n =
    if ltb dest src
    then (dest, copy_up n dest src m)
    else if ltb src dest
    then (dest, copy_down n (dest + n) (src + n) m)
    else (dest, m)

unfoldable pub memset : Mem → ℕ → ℕ → ℕ → ℕ × Mem
unfolding fill
memset m s c n = (s, fill n s (c % 256) m)

-- The difference of two bytes as an int.
abbrev pub byte_diff : ℕ → ℕ → ℤ
byte_diff a b = if leb b a then pos (a - b) else negsuc (b - a - 1)

unfoldable pub strcmp : ℕ → Mem → ℕ → ℕ → Option ℤ
strcmp zero m s1 s2 = none
strcmp (suc k) m s1 s2 = elim (not (m s1 == 0) && (m s1 == m s2)) [
  | true ↦ strcmp k m (s1 + 1) (s2 + 1)
  | false ↦ some (byte_diff (m s1) (m s2))
]

strcpy_loop : ℕ → Mem → ℕ → ℕ → Option Mem
strcpy_loop zero m d s = none
strcpy_loop (suc k) m d s =
    let m' = update m d (m s) in
    let rest = strcpy_loop k m' (d + 1) (s + 1) in if m s == 0 then some m' else rest

unfoldable pub strcpy : ℕ → Mem → ℕ → ℕ → Option (ℕ × Mem)
unfolding strcpy_loop
strcpy k m dest src = elim (strcpy_loop k m dest src) [ none ↦ none | some m' ↦ some (dest, m') ]

-- The pointer behind the NUL.
strlen_loop : ℕ → Mem → ℕ → Option ℕ
strlen_loop zero m s = none
strlen_loop (suc k) m s = elim (m s == 0) [ true ↦ some (s + 1) | false ↦ strlen_loop k m (s + 1) ]

unfoldable pub strlen : ℕ → Mem → ℕ → Option ℕ
unfolding strlen_loop
strlen k m s = elim (strlen_loop k m s) [ none ↦ none | some e ↦ some (e - s - 1) ]

-- `while (*s++ && maxlen--)`: the pointer after the loop.
strnlen_loop : Mem → ℕ → ℕ → ℕ
strnlen_loop m s zero = s + 1
strnlen_loop m s (suc n) = elim (m s == 0) [ true ↦ s + 1 | false ↦ strnlen_loop m (s + 1) n ]

unfoldable pub strnlen : Mem → ℕ → ℕ → ℕ
unfolding strnlen_loop
strnlen m s maxlen = strnlen_loop m s maxlen - s - 1
