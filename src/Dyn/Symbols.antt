-- ===== src/Dyn/Symbols.antt =====
-- The symbol lookup of src/uld_dyn.c: by the ELF hash table and by a walk over the symbols.
pub mod Hash
pub mod Chain
use uld_fdpic.Common.{
  ℕ, zero, suc, ◌+◌, ◌-◌, ◌*◌, ◌/◌, ◌%◌, ◌^◌, Bool, true, false, Option, none, some, List, [], ◌∷◌,
  ◌==◌, if◌then◌else◌, bytes_eq, bit_and, bit_xor,
}
use uld_fdpic.Mem.{Mem, null, w32, add32, sub32, cstr, read32}
use uld_fdpic.Elf.Fields.{sh_size, st_name, stn_undef}
use uld_fdpic.Sal.{Section}
use uld_fdpic.File.{UldFile, uld_file_get_sec_by_name}

-- One round of the hash, `unsigned long` being 32 bits wide.
unfoldable pub hash_step : ℕ → ℕ → ℕ
hash_step h c =
    let h1 = (h * 16 + c) % w32 in
    let g = bit_and h1 0xf0000000 in
    let h2 = if g == 0 then h1 else bit_xor h1 (g / 2 ^ 24) in bit_and h2 (0xffffffff - g)

hash_from : ℕ → List ℕ → ℕ
hash_from h [] = h
hash_from h (c ∷ cs) = hash_from (hash_step h c) cs

unfoldable pub uld_dyn_elf_hash : List ℕ → ℕ
unfolding hash_from hash_step
uld_dyn_elf_hash name = hash_from 0 name

-- `uld_dyn_get_dynsym_by_index_sec`, `uld_dyn_get_sym_name` and `uld_dyn_get_sym_index`.
abbrev pub sym_at : ℕ → ℕ → ℕ
sym_at dynsym idx = add32 dynsym (16 * idx)

module _ (m : Mem) where
  abbrev pub sym_name : ℕ → ℕ → List ℕ
  sym_name dynstr sym = cstr m (add32 dynstr (st_name m sym))

  abbrev pub uld_dyn_get_sym_index : ℕ → ℕ → ℕ
  uld_dyn_get_sym_index dynsym sym = sub32 sym dynsym / 16

  -- The walk along a bucket's chain. A chain with more links than there are words goes round,
  -- and the walk along it has no end.
  unfoldable pub chain_find : List ℕ → ℕ → ℕ → ℕ → ℕ → ℕ → ℕ
  chain_find name dynstr dynsym chains zero idx = null
  chain_find name dynstr dynsym chains (suc k) idx = elim (idx == stn_undef) [
    | true ↦ null
    | false ↦ elim (bytes_eq name (sym_name dynstr (sym_at dynsym idx))) [
      | true ↦ sym_at dynsym idx
      | false ↦ chain_find name dynstr dynsym chains k (read32 m (add32 chains (4 * idx)))
    ]
  ]

  -- The lookup at the three sections' addresses.
  unfoldable pub hash_find : List ℕ → ℕ → ℕ → ℕ → ℕ
  unfolding chain_find
  hash_find name table dynstr dynsym =
      let nbucket = read32 m table in
      let bucket = uld_dyn_elf_hash name % nbucket in
      chain_find name dynstr dynsym (add32 table (4 * (nbucket + 2))) w32
        (read32 m (add32 table (4 * (bucket + 2))))

  -- A NULL name or section is `none`.
  unfoldable pub uld_dyn_find_dynsym_elf_hash_sec :
      Option (List ℕ) → Option Section → Option Section → Option Section → ℕ
  uld_dyn_find_dynsym_elf_hash_sec (some name) (some hash) (some dynstr) (some dynsym) =
      hash_find name hash.adjusted_lma dynstr.adjusted_lma dynsym.adjusted_lma
  uld_dyn_find_dynsym_elf_hash_sec _ _ _ _ = null

  -- The walk over the symbols from index `idx` on, `left` of them.
  unfoldable pub linear_find : List ℕ → ℕ → ℕ → ℕ → ℕ → ℕ
  linear_find name dynstr dynsym zero idx = null
  linear_find name dynstr dynsym (suc left) idx =
      elim (bytes_eq name (sym_name dynstr (sym_at dynsym idx))) [
        | true ↦ sym_at dynsym idx
        | false ↦ linear_find name dynstr dynsym left (idx + 1)
      ]

  unfoldable pub uld_dyn_find_dynsym_linear_sec :
      Option (List ℕ) → Option Section → Option Section → ℕ
  uld_dyn_find_dynsym_linear_sec (some name) (some dynstr) (some dynsym) =
      linear_find name dynstr.adjusted_lma dynsym.adjusted_lma (sh_size m dynsym.shdr / 16) 0
  uld_dyn_find_dynsym_linear_sec _ _ _ = null

  -- ".hash", ".dynstr" and ".dynsym" among the flash sections.
  abbrev pub sec_hash : UldFile → Option Section
  sec_hash f =
      uld_file_get_sec_by_name m (some f) (some (0x2e ∷ 0x68 ∷ 0x61 ∷ 0x73 ∷ 0x68 ∷ [])) 0x10

  abbrev pub sec_dynstr : UldFile → Option Section
  sec_dynstr f =
      uld_file_get_sec_by_name m (some f)
        (some (0x2e ∷ 0x64 ∷ 0x79 ∷ 0x6e ∷ 0x73 ∷ 0x74 ∷ 0x72 ∷ [])) 0x10

  abbrev pub sec_dynsym : UldFile → Option Section
  sec_dynsym f =
      uld_file_get_sec_by_name m (some f)
        (some (0x2e ∷ 0x64 ∷ 0x79 ∷ 0x6e ∷ 0x73 ∷ 0x79 ∷ 0x6d ∷ [])) 0x10

  -- A NULL file is `none`.
  unfoldable pub uld_dyn_find_dynsym_elf_hash_file : Option (List ℕ) → Option UldFile → ℕ
  uld_dyn_find_dynsym_elf_hash_file name none = null
  uld_dyn_find_dynsym_elf_hash_file name (some f) =
      uld_dyn_find_dynsym_elf_hash_sec name (sec_hash f) (sec_dynstr f) (sec_dynsym f)

  unfoldable pub uld_dyn_find_dynsym_linear_file : Option (List ℕ) → Option UldFile → ℕ
  uld_dyn_find_dynsym_linear_file name none = null
  uld_dyn_find_dynsym_linear_file name (some f) =
      uld_dyn_find_dynsym_linear_sec name (sec_dynstr f) (sec_dynsym f)
