-- ===== src/Fs/Sorted.antt =====
-- Files that lie apart, and the order in which `uld_fs_find_free_space` looks at them.
use uld_fdpic.Common.{ℕ, ◌+◌, ◌<◌, ◌≤◌, arith, ◌⊎◌, inl, inr, List, [], ◌∷◌, All, ltb, Bool-cases}
use uld_fdpic.Fs.{FsEntry, insert_fse, sort_fses}

-- The `n` bytes from `p` on share none with the file.
abbrev pub Clear : ℕ → ℕ → FsEntry → Type 0
Clear p n e = (p + n ≤ e.base) ⊎ (e.base + e.size ≤ p)

-- Files that hold at least one byte each, lie below `limit`, and share no byte.
abbrev pub IsApart : ℕ → List FsEntry → Type 0
IsApart limit [] = Unit
IsApart limit (e ∷ es) =
    (0 < e.size)
    × (e.base + e.size ≤ limit)
    × All (λ f. Clear e.base e.size f) es
    × IsApart limit es

-- As `IsApart`, with each file below all those behind it.
abbrev pub Ordered : ℕ → List FsEntry → Type 0
Ordered limit [] = Unit
Ordered limit (e ∷ es) =
    (0 < e.size)
    × (e.base + e.size ≤ limit)
    × All (λ f. e.base + e.size ≤ f.base) es
    × Ordered limit es

module _ (P : FsEntry → Type 0) where
  pub All-insert_fse : (e : FsEntry) (xs : List FsEntry) → P e → All P xs → All P (insert_fse e xs)
  unfolding insert_fse
  All-insert_fse e [] p h = (p, tt)
  All-insert_fse e (x ∷ xs) p h = ground (arith, All-insert_fse e xs p h.1)

  pub of_All-insert_fse :
      (e : FsEntry) (xs : List FsEntry) → All P (insert_fse e xs) → P e × All P xs
  unfolding insert_fse
  of_All-insert_fse e [] h = (h.0, tt)
  of_All-insert_fse e (x ∷ xs) h = ground (arith, of_All-insert_fse e xs)

  pub All-sort_fses :
      (es sorted : List FsEntry) → All P es → All P sorted → All P (sort_fses es sorted)
  unfolding sort_fses
  All-sort_fses [] sorted h k = k
  All-sort_fses (e ∷ es) sorted h k =
      All-sort_fses es (insert_fse e sorted) h.1 (All-insert_fse e sorted h.0 k)

  pub of_All-sort_fses :
      (es sorted : List FsEntry) → All P (sort_fses es sorted) → All P es × All P sorted
  unfolding sort_fses
  of_All-sort_fses [] sorted h = (tt, h)
  of_All-sort_fses (e ∷ es) sorted h =
      let (rest, both) = of_All-sort_fses es (insert_fse e sorted) h in
      let (here, old) = of_All-insert_fse e sorted both in ((here, rest), old)

pub All-mono :
    {P Q : FsEntry → Type 0} (xs : List FsEntry) → ((e : FsEntry) → P e → Q e) → All P xs → All Q xs
All-mono [] f h = tt
All-mono (x ∷ xs) f h = (f x h.0, All-mono xs f h.1)

pub insert_fse-Ordered :
    (limit : ℕ) (e : FsEntry) (xs : List FsEntry)
    → 0 < e.size
    → e.base + e.size ≤ limit
    → All (Clear e.base e.size) xs
    → Ordered limit xs
    → Ordered limit (insert_fse e xs)
unfolding insert_fse
insert_fse-Ordered limit e [] pos top clear h = (pos, top, tt, tt)
insert_fse-Ordered limit e (x ∷ xs) pos top clear h = elim (Bool-cases (ltb e.base x.base)) [
  | inl lt ↦
      let below : e.base + e.size ≤ x.base = ground (arith, clear.0) in
      rw lt (pos, top, (below, All-mono xs (λ f k. omega arith) h.2), h)
  | inr ge ↦
      let above : x.base + x.size ≤ e.base = ground (arith, clear.0) in
      rw ge (
        h.0,
        h.1,
        All-insert_fse _ e xs above h.2,
        insert_fse-Ordered limit e xs pos top clear.1 h.3,
      )
]

pub sort_fses-Ordered :
    (limit : ℕ) (es sorted : List FsEntry)
    → IsApart limit es
    → All (λ e. All (Clear e.base e.size) sorted) es
    → Ordered limit sorted
    → Ordered limit (sort_fses es sorted)
unfolding sort_fses
sort_fses-Ordered limit [] sorted apart clear h = h
sort_fses-Ordered limit (e ∷ es) sorted apart clear h =
    sort_fses-Ordered limit es (insert_fse e sorted) apart.3 (spread es apart.2 clear.1)
      (insert_fse-Ordered limit e sorted apart.0 apart.1 clear.0 h)
  where
    spread :
        (fs : List FsEntry)
        → All (λ f. Clear e.base e.size f) fs
        → All (λ f. All (Clear f.base f.size) sorted) fs
        → All (λ f. All (Clear f.base f.size) (insert_fse e sorted)) fs
    spread [] a b = tt
    spread (f ∷ fs) a b = (All-insert_fse _ e sorted (ground arith) b.0, spread fs a.1 b.1)
