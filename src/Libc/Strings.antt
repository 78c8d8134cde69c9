-- ===== src/Libc/Strings.antt =====
-- What the string loops return for texts that end in a NUL.
use uld_fdpic.Common.{
  ℕ, zero, suc, ◌+◌, ◌<◌, ◌≡◌, ◌≢◌, refl, arith, some, List, [], ◌∷◌, ◌==◌, if◌then◌else◌, length,
  All, bytes_eq, ℤ, pos, is_zero, min,
}
use uld_fdpic.Mem.{Mem, IsCstr}
use uld_fdpic.Libc.{byte_diff, strcmp, strlen_loop, strlen, strnlen_loop, strnlen}

-- The order of two texts by their first difference, the NULs included.
abbrev pub compare_texts : List ℕ → List ℕ → ℤ
compare_texts [] [] = pos 0
compare_texts [] (y ∷ ys) = byte_diff 0 y
compare_texts (x ∷ xs) [] = byte_diff x 0
compare_texts (x ∷ xs) (y ∷ ys) = if x == y then compare_texts xs ys else byte_diff x y

-- On two texts that end in a NUL `strcmp` returns, with any fuel above the first one's length,
-- the difference of the first bytes that differ.
pub strcmp-compare_texts :
    (k : ℕ) (m : Mem) (s1 s2 : ℕ) (xs ys : List ℕ)
    → IsCstr m s1 xs
    → IsCstr m s2 ys
    → length xs < k
    → strcmp k m s1 s2 ≡ some (compare_texts xs ys)
unfolding strcmp
strcmp-compare_texts zero m s1 s2 xs ys h1 h2 lt = absurd (omega arith)
strcmp-compare_texts (suc k) m s1 s2 [] [] h1 h2 lt = ground arith
strcmp-compare_texts (suc k) m s1 s2 [] (y ∷ ys) h1 h2 lt = ground arith
strcmp-compare_texts (suc k) m s1 s2 (x ∷ xs) [] h1 h2 lt = ground arith
strcmp-compare_texts (suc k) m s1 s2 (x ∷ xs) (y ∷ ys) h1 h2 lt =
    ground (arith, strcmp-compare_texts k m (s1 + 1) (s2 + 1) xs ys h1.2 h2.2 (omega arith))

-- The test `!strcmp(a, b)` of the callers.
pub compare_texts-is_zero :
    (xs ys : List ℕ)
    → All (λ x. x ≢ 0) xs
    → All (λ y. y ≢ 0) ys
    → is_zero (compare_texts xs ys) ≡ bytes_eq xs ys
compare_texts-is_zero [] [] h k = refl
compare_texts-is_zero [] (y ∷ ys) h k = ground arith
compare_texts-is_zero (x ∷ xs) [] h k = ground arith
compare_texts-is_zero (x ∷ xs) (y ∷ ys) h k = ground (arith, compare_texts-is_zero xs ys h.1 k.1)

strlen_loop-IsCstr :
    (k : ℕ) (m : Mem) (s : ℕ) (xs : List ℕ)
    → IsCstr m s xs
    → length xs < k
    → strlen_loop k m s ≡ some (s + length xs + 1)
unfolding strlen_loop
strlen_loop-IsCstr zero m s xs h lt = absurd (omega arith)
strlen_loop-IsCstr (suc k) m s [] h lt = ground arith
strlen_loop-IsCstr (suc k) m s (x ∷ xs) h lt =
    ground (arith, strlen_loop-IsCstr k m (s + 1) xs h.2 (omega arith))

-- `strlen` of a text that ends in a NUL is the number of the bytes before it, with any fuel
-- above that number.
pub strlen-length :
    (k : ℕ) (m : Mem) (s : ℕ) (xs : List ℕ)
    → IsCstr m s xs
    → length xs < k
    → strlen k m s ≡ some (length xs)
unfolding strlen
strlen-length k m s xs h lt = ground (arith, strlen_loop-IsCstr k m s xs h lt)

strnlen_loop-IsCstr :
    (m : Mem) (s n : ℕ) (xs : List ℕ)
    → IsCstr m s xs
    → strnlen_loop m s n ≡ s + min (length xs) n + 1
unfolding strnlen_loop
strnlen_loop-IsCstr m s zero xs h = omega arith
strnlen_loop-IsCstr m s (suc n) [] h = ground arith
strnlen_loop-IsCstr m s (suc n) (x ∷ xs) h = ground (arith, strnlen_loop-IsCstr m (s + 1) n xs h.2)

-- `strnlen` of a text is its length, cut off at `maxlen`.
pub strnlen-length :
    (m : Mem) (s maxlen : ℕ) (xs : List ℕ)
    → IsCstr m s xs
    → strnlen m s maxlen ≡ min (length xs) maxlen
unfolding strnlen
strnlen-length m s maxlen xs h = omega (arith, strnlen_loop-IsCstr m s maxlen xs h)
