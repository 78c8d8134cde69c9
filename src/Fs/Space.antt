-- ===== src/Fs/Space.antt =====
-- The space that `uld_fs_find_free_space` finds.
use uld_fdpic.Common.{
  ℕ, ◌+◌, ◌/◌, ◌*◌, ◌^◌, ◌<◌, ◌≤◌, ◌≡◌, ◌≢◌, sym, arith, ◌⊎◌, inl, inr, true, false, some, List, [],
  ◌∷◌, All, Bool-cases,
}
use mathlib.Core.Path.{subst}
use uld_fdpic.Mem.{null, align, sle, sub32, add32}
use uld_fdpic.Fs.{FsEntry, Pstore, sort_fses, scan_gaps, uld_fs_find_free_space}
use uld_fdpic.Fs.Sorted.{
  Clear, IsApart, Ordered, All-sort_fses, of_All-sort_fses, All-mono, sort_fses-Ordered,
}

-- The scan's result is NULL, or fits between `ptr` and `limit` and clears all files ahead.
abbrev Fits : ℕ → ℕ → ℕ → List FsEntry → ℕ → Type 0
Fits size lo limit xs p = (lo ≤ p) × (p + size ≤ limit) × All (Clear p size) xs

module _ (size limit : ℕ) (small : size < 2 ^ 31) (low : limit < 2 ^ 31) where
  module _ (x : FsEntry) (xs : List FsEntry) (ptr : ℕ) where
    scan_gaps-hit : sle size (sub32 x.base ptr) ≡ true → scan_gaps size limit (x ∷ xs) ptr ≡ ptr
    unfolding scan_gaps
    scan_gaps-hit room = rw room

    scan_gaps-miss :
        sle size (sub32 x.base ptr) ≡ false
        → x.base + x.size ≤ limit
        → scan_gaps size limit (x ∷ xs) ptr ≡ scan_gaps size limit xs (x.base + x.size)
    unfolding scan_gaps
    scan_gaps-miss full top =
        let next : add32 x.base x.size ≡ x.base + x.size = omega arith in rw (full, next)

  abbrev Outcome : ℕ → List FsEntry → ℕ → Type 0
  Outcome lo xs p = (p ≡ null) ⊎ Fits size lo limit xs p

  scan_gaps-Fits :
      (xs : List FsEntry) (ptr : ℕ)
      → ptr ≤ limit
      → Ordered limit xs
      → All (λ f. ptr ≤ f.base) xs
      → (scan_gaps size limit xs ptr ≡ null) ⊎ Fits size ptr limit xs (scan_gaps size limit xs ptr)
  scan_gaps-Fits [] ptr lim h ahead = unfold scan_gaps in ground arith
  scan_gaps-Fits (x ∷ xs) ptr lim h ahead = elim (Bool-cases (sle size (sub32 x.base ptr))) [
    | inl room ↦
        let gap : ptr + size ≤ x.base = ground (arith, ahead.0) in
        subst (Outcome ptr (x ∷ xs)) (sym (scan_gaps-hit x xs ptr room))
          (inr (omega arith, omega arith, (inl gap, All-mono xs (λ f k. inl (omega arith)) h.2)))
    | inr full ↦
        subst (Outcome ptr (x ∷ xs)) (sym (scan_gaps-miss x xs ptr full h.1))
          (later (scan_gaps-Fits xs (x.base + x.size) h.1 h.3 h.2))
  ]
    where
      later :
          {p : ℕ}
          → (p ≡ null) ⊎ Fits size (x.base + x.size) limit xs p
          → (p ≡ null) ⊎ Fits size ptr limit (x ∷ xs) p
      later (inl e) = inl e
      later (inr f) = inr (omega (arith, ahead.0), f.1, (inr f.0, f.2))

  scan_gaps-ne-null :
      (xs : List FsEntry) (ptr q : ℕ)
      → 0 < ptr
      → ptr ≤ q
      → q + size ≤ limit
      → Ordered limit xs
      → All (λ f. ptr ≤ f.base) xs
      → All (Clear q size) xs
      → scan_gaps size limit xs ptr ≢ null
  scan_gaps-ne-null [] ptr q pos le top h ahead clear = unfold scan_gaps in ground arith
  scan_gaps-ne-null (x ∷ xs) ptr q pos le top h ahead clear =
      elim (Bool-cases (sle size (sub32 x.base ptr))) [
        | inl room ↦ rw (scan_gaps-hit x xs ptr room) (λ e. omega arith)
        | inr full ↦
            let behind : x.base + x.size ≤ q = ground (arith, ahead.0, clear.0) in
            rw (scan_gaps-miss x xs ptr full h.1)
              (scan_gaps-ne-null xs (x.base + x.size) q (omega arith) behind top h.3 h.2 clear.1)
      ]

-- A store whose files are apart, inside the area that the store names, in the low half of memory.
pub record IsStore (ps : Pstore) : Type 0 where
  pub base_pos : 0 < ps.files_base
  pub area : ps.files_base + ps.files_size < 2 ^ 31
  pub apart : IsApart (ps.files_base + ps.files_size) ps.files
  pub above : All (λ f. ps.files_base ≤ f.base) ps.files

-- `size` rounded up to a multiple of 8.
abbrev pub rounded : ℕ → ℕ
rounded size = (size + 7) / 8 * 8

module _ (ps : Pstore) (size : ℕ) (h : IsStore ps) (pos : 0 < size)
    (small : size + 8 < 2 ^ 31) where
  abbrev found : ℕ
  found = uld_fs_find_free_space (some ps) size

  abbrev limit : ℕ
  limit = ps.files_base + ps.files_size

  abbrev sorted : List FsEntry
  sorted = sort_fses ps.files []

  found-scan_gaps : found ≡ scan_gaps (rounded size) limit sorted ps.files_base
  unfolding uld_fs_find_free_space
  found-scan_gaps =
      let up : align size 3 ≡ rounded size = omega arith in
      let top : add32 ps.files_base ps.files_size ≡ limit = omega (arith, h.area) in
      rw (up, top) (ground arith)

  sorted_above : All (λ f. ps.files_base ≤ f.base) sorted
  sorted_above = All-sort_fses (λ f. ps.files_base ≤ f.base) ps.files [] h.above tt

  sorted-Ordered : Ordered limit sorted
  sorted-Ordered = sort_fses-Ordered limit ps.files [] h.apart (none_yet ps.files) tt
    where
      none_yet : (es : List FsEntry) → All (λ e. All (Clear e.base e.size) []) es
      none_yet [] = tt
      none_yet (e ∷ es) = (tt, none_yet es)

  -- For a store whose files are not empty, apart and in the area for files, whose area starts
  -- above address 0 and ends below 2 ^ 31, and a size from 1 on with `size + 8` below 2 ^ 31: any
  -- space that `uld_fs_find_free_space` returns has room for `size` rounded up to a multiple of 8,
  -- lies in the area and shares no byte with a file.
  pub find_free_space_sound :
      (found ≡ null)
      ⊎ (ps.files_base ≤ found)
        × (found + rounded size ≤ limit)
        × All (Clear found (rounded size)) ps.files
  find_free_space_sound =
      subst (λ p. (p ≡ null) ⊎ Fits (rounded size) ps.files_base limit ps.files p)
        (sym found-scan_gaps) (restore fits)
    where
      fits :
          (scan_gaps (rounded size) limit sorted ps.files_base ≡ null)
          ⊎ Fits
              (rounded size)
              ps.files_base
              limit
              sorted
              (scan_gaps (rounded size) limit sorted ps.files_base)
      fits =
          scan_gaps-Fits (rounded size) limit (omega arith) h.area sorted ps.files_base
            (omega arith) sorted-Ordered sorted_above

      restore :
          {p : ℕ}
          → (p ≡ null) ⊎ Fits (rounded size) ps.files_base limit sorted p
          → (p ≡ null) ⊎ Fits (rounded size) ps.files_base limit ps.files p
      restore (inl e) = inl e
      restore {p} (inr f) =
          inr (f.0, f.1, (of_All-sort_fses (Clear p (rounded size)) ps.files [] f.2).0)

  -- For a store whose files are not empty, apart and in the area for files, whose area starts
  -- above address 0 and ends below 2 ^ 31, and a size from 1 on with `size + 8` below 2 ^ 31: if
  -- some place in the area has room for `size` rounded up to a multiple of 8, clear of all files,
  -- then `uld_fs_find_free_space` does not return NULL.
  pub find_free_space_complete :
      (q : ℕ)
      → ps.files_base ≤ q
      → q + rounded size ≤ limit
      → All (Clear q (rounded size)) ps.files
      → found ≢ null
  find_free_space_complete q lo top clear = rw found-scan_gaps (
      scan_gaps-ne-null (rounded size) limit (omega arith) h.area sorted ps.files_base q h.base_pos
        lo top sorted-Ordered sorted_above
        (All-sort_fses (Clear q (rounded size)) ps.files [] clear tt))
