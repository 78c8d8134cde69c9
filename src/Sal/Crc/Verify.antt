-- ===== src/Sal/Crc/Verify.antt =====
-- A CRC verifies once it is updated.
use uld_fdpic.Common.{ℕ, zero, suc, ◌+◌, ◌<◌, ◌≤◌, ◌≡◌, refl, ◌∙◌, arith, ◌⊎◌, true, ◌==◌}
use uld_fdpic.Mem.{Mem, w32, read32, write32}
use uld_fdpic.Mem.Laws.{read32-write32_self, read32-write32_apart, write32_apart}
use uld_fdpic.Util.{crc32}
use uld_fdpic.Util.Crc.{IsBytes, crc32_lt}
use uld_fdpic.Sal.Crc.{
  util_crc32_init, bytes_at, table_base, table_size, table_crc, uld_crc_calc_fst,
  uld_crc_verify_fst, uld_crc_calc_fse, uld_crc_verify_fse,
}

-- The word at `w` has no byte of the `n` from `p` on.
abbrev pub IsApart : ℕ → ℕ → ℕ → Type 0
IsApart p n w = (p + n ≤ w) ⊎ (w + 4 ≤ p)

==_self : (n : ℕ) → (n == n) ≡ true
==_self n = ground arith

-- The CRC of the bytes whose start and number are the words at `p` and `q`.
abbrev pub calc : Mem → ℕ → ℕ → ℕ
calc m p q = crc32 (bytes_at m (read32 m p) (read32 m q)) util_crc32_init

bytes_at-write32 :
    (m : Mem) (n p w v : ℕ) → IsApart p n w → bytes_at (write32 m w v) p n ≡ bytes_at m p n
unfolding bytes_at
bytes_at-write32 m zero p w v h = refl
bytes_at-write32 m (suc n) p w v h =
    rw (write32_apart m w p v (ground arith), bytes_at-write32 m n (p + 1) w v (ground arith)) refl

-- A write to a word elsewhere.
pub calc-write32 :
    (m : Mem) (p q w v : ℕ)
    → IsApart p 4 w
    → IsApart q 4 w
    → IsApart (read32 m p) (read32 m q) w
    → calc (write32 m w v) p q ≡ calc m p q
calc-write32 m p q w v hp hq h =
    rw
      (
        read32-write32_apart m w p v (ground arith),
        read32-write32_apart m w q v (ground arith),
        bytes_at-write32 m (read32 m q) (read32 m p) w v h,
      )
      refl

-- The bytes that a CRC is over are bytes.
abbrev pub IsBytesAt : Mem → ℕ → ℕ → Type 0
IsBytesAt m p q = IsBytes (bytes_at m (read32 m p) (read32 m q))

calc_lt : (m : Mem) (p q : ℕ) → IsBytesAt m p q → calc m p q < w32
calc_lt m p q h = crc32_lt _ _ h (omega arith)

-- The area of a file and its entry, the store and the table of files.
pub record IsStore (m : Mem) (pstore fse : ℕ) : Type 0 where
  pub file_bytes : IsBytesAt m fse (fse + 8)
  pub table_bytes : IsBytesAt m (pstore + 16) (pstore + 20)
  pub entry : (fse + 16 ≤ pstore) ⊎ (pstore + 28 ≤ fse)
  pub file_entry : IsApart (read32 m fse) (read32 m (fse + 8)) (fse + 12)
  pub file_store : IsApart (read32 m fse) (read32 m (fse + 8)) (pstore + 24)
  pub table_store : IsApart (table_base m pstore) (table_size m pstore) (pstore + 24)

module _ (g : Mem) (pstore fse : ℕ) where
  abbrev with_fse : Mem
  with_fse = write32 g (fse + 12) (uld_crc_calc_fse g fse)

  abbrev pub with_both : Mem
  with_both = write32 with_fse (pstore + 24) (uld_crc_calc_fst with_fse pstore)

  module _ (h : IsStore with_both pstore fse) where
    -- The words of the entry in front of its CRC, and those of the store.
    pub entry_word : (a : ℕ) → fse ≤ a → a ≤ fse + 8 → read32 with_both a ≡ read32 g a
    entry_word a lo hi =
        let e = h.entry in
        read32-write32_apart with_fse (pstore + 24) a _ (ground arith)
        ∙ read32-write32_apart g (fse + 12) a _ (ground arith)

    store_word :
        (a : ℕ) → pstore + 16 ≤ a → a ≤ pstore + 20 → read32 with_both a ≡ read32 with_fse a
    store_word a lo hi = read32-write32_apart with_fse (pstore + 24) a _ (ground arith)

    fse_same : uld_crc_calc_fse with_both fse ≡ uld_crc_calc_fse g fse
    unfolding uld_crc_calc_fse
    fse_same =
        let e = h.entry in
        let base = entry_word fse (omega arith) (omega arith) in
        let size = entry_word (fse + 8) (omega arith) (omega arith) in
        let base' = read32-write32_apart g (fse + 12) fse (uld_crc_calc_fse g fse) (ground arith) in
        let size' =
          read32-write32_apart g (fse + 12) (fse + 8) (uld_crc_calc_fse g fse) (ground arith) in
        calc-write32 with_fse fse (fse + 8) (pstore + 24) _ (ground arith) (ground arith)
          (ground (arith, h.file_store, base, size, base', size'))
        ∙ calc-write32 g fse (fse + 8) (fse + 12) _ (ground arith) (ground arith)
            (ground (arith, h.file_entry, base, size))

    fst_same : uld_crc_calc_fst with_both pstore ≡ uld_crc_calc_fst with_fse pstore
    unfolding uld_crc_calc_fst table_base table_size
    fst_same =
        let base = store_word (pstore + 16) (omega arith) (omega arith) in
        let size = store_word (pstore + 20) (omega arith) (omega arith) in
        calc-write32 with_fse (pstore + 16) (pstore + 20) (pstore + 24) _ (ground arith)
          (ground arith) (ground (arith, h.table_store, base, size))

    fse_crc : read32 with_both (fse + 12) ≡ uld_crc_calc_fse g fse
    unfolding uld_crc_calc_fse
    fse_crc =
        let e = h.entry in
        let small = calc_lt with_both fse (fse + 8) h.file_bytes in
        read32-write32_apart with_fse (pstore + 24) (fse + 12) _ (ground arith)
        ∙ read32-write32_self g (fse + 12) _ (omega (arith, small, fse_same))

    fst_crc : table_crc with_both pstore ≡ uld_crc_calc_fst with_fse pstore
    unfolding uld_crc_calc_fst table_crc table_base table_size
    fst_crc =
        let small = calc_lt with_both (pstore + 16) (pstore + 20) h.table_bytes in
        read32-write32_self with_fse (pstore + 24) _ (omega (arith, small, fst_same))

    pub with_both-verify :
        (uld_crc_verify_fse with_both fse ≡ (true, uld_crc_calc_fse g fse))
        × (uld_crc_verify_fst with_both pstore ≡ (true, uld_crc_calc_fst with_fse pstore))
    unfolding uld_crc_verify_fse uld_crc_verify_fst
    with_both-verify = (
      rw (fse_same, fse_crc, ==_self (uld_crc_calc_fse g fse)) refl,
      rw (fst_same, fst_crc, ==_self (uld_crc_calc_fst with_fse pstore)) refl,
    )
