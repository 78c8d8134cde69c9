-- ===== src/Load/LoadFile/Frame.antt =====
-- The area of memory that loading a file changes.
use mathlib.Core.Path.{subst}
use uld_fdpic.Common.{
  ℕ, zero, suc, ◌+◌, ◌<◌, ◌≤◌, ◌≡◌, ◌≢◌, refl, sym, ◌∙◌, arith, ◌⊎◌, true, false, none, some, List,
  [], ◌∷◌, ◌==◌, All, length, pos, bit_and,
}
use uld_fdpic.Mem.{Mem, null, w32, sub32}
use uld_fdpic.Mem.Laws.{read32_agree}
use uld_fdpic.Elf.Fields.{sh_size}
use uld_fdpic.Fs.{FsEntry}
use uld_fdpic.File.{UldFile}
use uld_fdpic.File.Translate.{Elem}
use uld_fdpic.Sal.{Section, flag_type_mem}
use uld_fdpic.Load.{
  AllocResult, uld_load_create_file, uld_load_get_next_membase, uld_load_alloc_mem_sections,
}
use uld_fdpic.Load.Laid.{size, total, gaps, IsOutside, Agree, Laid}
use uld_fdpic.Load.Place.{alloc_mem_sections-Laid, alloc_mem_sections_allocated}
use uld_fdpic.Rofixup.{FixupResult, uld_rofixup_apply_mem_fixups}
use uld_fdpic.Rofixup.Frame.{IsAway, IsFlashed, apply_mem_fixups-IsAway}
use uld_fdpic.Load.LoadFile.{LoadResult, load_mem, uld_load_file}

All-Elem : (P : Section → Type 0) (ss : List Section) (s : Section) → All P ss → Elem s ss → P s
All-Elem P [] s h (i, got) = cc
All-Elem P (x ∷ xs) s h (zero, got) = let e : x ≡ s = cc in subst P e h.0
All-Elem P (x ∷ xs) s h (suc i, got) = All-Elem P xs s h.1 (i, got)

All-mono :
    (P Q : Section → Type 0) (ss : List Section) → ((s : Section) → P s → Q s) → All P ss → All Q ss
All-mono P Q [] f h = tt
All-mono P Q (s ∷ ss) f h = (f s h.0, All-mono P Q ss f h.1)

-- A placed section is one of the file's, in the area.
record PlacedFrom (m : Mem) (ptr : ℕ) (ss : List Section) (t : Section) : Type 0 where
  origin : Section
  there : Elem origin ss
  same_shdr : t.shdr ≡ origin.shdr
  same_lma : t.lma ≡ origin.lma
  low : ptr ≤ t.adjusted_vma
  high : t.adjusted_vma + size m origin ≤ ptr + total m ss

Laid-PlacedFrom :
    (m g : Mem) (ptr : ℕ) (ss ts : List Section) (t : Section)
    → Laid m g ptr ss ts
    → Elem t ts
    → PlacedFrom m ptr ss t
Laid-PlacedFrom m g ptr [] [] t laid (i, got) = cc
Laid-PlacedFrom m g ptr [] (x ∷ xs) t laid there = absurd laid
Laid-PlacedFrom m g ptr (s ∷ ss) [] t laid there = absurd laid
Laid-PlacedFrom m g ptr (s ∷ ss) (x ∷ xs) t laid (zero, got) =
    let e : x ≡ t = cc in
    let f = sym laid.0 ∙ e in
    subst (PlacedFrom m ptr (s ∷ ss)) f (record {
      origin = s;
      there = (0, refl);
      same_shdr = refl;
      same_lma = refl;
      low = omega arith;
      high = omega arith;
    })
Laid-PlacedFrom m g ptr (s ∷ ss) (x ∷ xs) t laid (suc i, got) =
    let p = Laid-PlacedFrom m g (ptr + size m s) ss xs t laid.2 (i, got) in
    record {
      origin = p.origin;
      there = (suc p.there.0, p.there.1);
      same_shdr = p.same_shdr;
      same_lma = p.same_lma;
      low = omega (arith, p.low);
      high = omega (arith, p.high);
    }

-- A memory section that does not reach the end of the address space, and whose header and bytes
-- in flash lie outside the addresses from `lo` to `hi`.
abbrev pub IsLoadable : Mem → ℕ → ℕ → Section → Type 0
IsLoadable m lo hi s =
    IsOutside m lo hi s × ((bit_and s.flags flag_type_mem == 0) ≡ false) × (s.lma + size m s < w32)

module _ (m g : Mem) (mb : ℕ) (ss ts : List Section) (low : mb + total m ss + 3 < w32)
    (ok : All (IsLoadable m mb (mb + total m ss + 3)) ss) (laid : Laid m g mb ss ts)
    (agree : Agree mb (mb + total m ss) m g) where
  placed-size :
      (t : Section) (p : PlacedFrom m mb ss t)
      → (sh_size g t.shdr ≡ size m p.origin)
        × ((t.shdr + 40 ≤ mb) ⊎ (mb + total m ss + 3 ≤ t.shdr))
        × (t.lma + size m p.origin < w32)
  unfolding sh_size
  placed-size t p =
      let (out, flag, short) =
        All-Elem (IsLoadable m mb (mb + total m ss + 3)) ss p.origin ok p.there in
      rw (p.same_shdr, p.same_lma)
        (
          read32_agree m g (p.origin.shdr + 20) (λ b lo hi. agree b (ground (arith, out.0))),
          out.0,
          short,
        )

  IsAway-of : (a : ℕ) → (a < mb) ⊎ (mb + total m ss + 3 ≤ a) → IsAway g ts a
  IsAway-of a out t there =
      let p = Laid-PlacedFrom m g mb ss ts t laid there in
      let s = placed-size t p in ground (arith, s.0, p.low, p.high)

  placed-IsFlashed : IsFlashed g ts
  placed-IsFlashed = record {
    short = λ t there.
        let p = Laid-PlacedFrom m g mb ss ts t laid there in
        let s = placed-size t p in (omega (arith, s.0, s.2), omega (arith, s.0, p.high));
    headers = λ t i there lt.
        let p = Laid-PlacedFrom m g mb ss ts t laid there in
        let s = placed-size t p in IsAway-of (t.shdr + i) (ground (arith, s.1));
  }

-- A file that is loaded at `mb` from the memory `m`, with its sections `u.mem`.
pub record IsLoaded (m : Mem) (u : UldFile) (mb : ℕ) (r : LoadResult) : Type 0 where
  pub membase : r.membase ≡ mb
  pub file_membase : r.file.membase ≡ mb
  pub allocated : r.allocated ≡ sub32 (total m u.mem) (gaps m none u.mem)
  pub memsz : r.file.memsz ≡ r.allocated
  pub frame : Agree mb (mb + total m u.mem + 3) m r.memory

module _ (m : Mem) (u : UldFile) (unset : Section) (ehdr mb given : ℕ) (not_null : ehdr ≢ null)
    (base_pos : 0 < mb) (some_section : 0 < length u.mem) (low : mb + total m u.mem + 3 < w32)
    (ok : All (IsLoadable m mb (mb + total m u.mem + 3)) u.mem)
    (room : mb + gaps m none u.mem < w32) where
  abbrev area : ℕ
  area = mb + total m u.mem

  abbrev placed : AllocResult
  placed = uld_load_alloc_mem_sections m ehdr mb given u.mem

  inner : All (λ s. IsOutside m mb area s × ((bit_and s.flags flag_type_mem == 0) ≡ false)) u.mem
  inner =
      All-mono (IsLoadable m mb (area + 3)) _ u.mem
        (λ s h. ((ground (arith, h.0.0), ground (arith, h.0.1)), h.1)) ok

  alloc-Laid :
      (placed.ret ≡ pos 0)
      × Laid m placed.memory mb u.mem placed.sections
      × Agree mb area m placed.memory
  alloc-Laid =
      alloc_mem_sections-Laid m ehdr mb given u.mem not_null base_pos some_section (omega arith)
        inner room

  alloc-allocated : placed.allocated ≡ sub32 (total m u.mem) (gaps m none u.mem)
  alloc-allocated =
      alloc_mem_sections_allocated m ehdr mb given u.mem not_null base_pos some_section
        (omega arith) inner room

  abbrev loaded : LoadResult
  loaded = load_mem m u unset ehdr mb given

  abbrev fixed : FixupResult
  fixed = uld_rofixup_apply_mem_fixups placed.memory unset ehdr null placed.sections mb

  load_mem-eq : loaded ≡ record {
    ret = fixed.ret;
    membase = mb;
    allocated = placed.allocated;
    memory = fixed.memory;
    file = record u { membase = mb; memsz = placed.allocated; mem = fixed.sections };
  }
  unfolding load_mem
  load_mem-eq = ground (arith, alloc-Laid.0)

  load_mem-IsLoaded : IsLoaded m u mb loaded
  load_mem-IsLoaded =
      let (fine, laid, agree) = alloc-Laid in
      subst (IsLoaded m u mb) (sym load_mem-eq) (record {
        membase = refl;
        file_membase = refl;
        allocated = alloc-allocated;
        memsz = refl;
        frame = λ a out.
            apply_mem_fixups-IsAway placed.memory placed.sections
              (placed-IsFlashed m placed.memory mb u.mem placed.sections low ok laid agree) unset
              ehdr null mb a
              (IsAway-of m placed.memory mb u.mem placed.sections low ok laid agree a out)
            ∙ agree a (ground (arith, out));
      })

load_file-eq :
    (bss_end : ℕ) (m : Mem) (old : UldFile) (fse : FsEntry) (blank unset : Section)
    (snum mask membase allocated : ℕ) (u : UldFile)
    → uld_load_create_file m fse blank snum mask ≡ some u
    → 0 < length u.mem
    → uld_load_file bss_end m true old fse blank unset snum mask membase allocated
      ≡ load_mem m u unset fse.base (uld_load_get_next_membase bss_end membase allocated) allocated
unfolding uld_load_file
load_file-eq bss_end m old fse blank unset snum mask membase allocated u e some_mem =
    let many : (length u.mem == 0) ≡ false = ground (arith, some_mem) in
    rw (uld_load_file, e, many) refl

-- Loading a file with memory sections, whatever the code in the end: the file's base is the next
-- free one, the size counted is that of its sections less the unused bytes between them, and no
-- byte of memory changes outside the sections' area, the 3 bytes behind it set aside. The sections
-- and the area fit below the end of the address space, and headers and flash lie outside of it.
pub load_file-IsLoaded :
    (bss_end : ℕ) (m : Mem) (old : UldFile) (fse : FsEntry) (blank unset : Section)
    (snum mask membase allocated : ℕ) (u : UldFile)
    → uld_load_create_file m fse blank snum mask ≡ some u
    → let mb = uld_load_get_next_membase bss_end membase allocated in
      fse.base ≢ null
      → 0 < mb
      → 0 < length u.mem
      → mb + total m u.mem + 3 < w32
      → All (IsLoadable m mb (mb + total m u.mem + 3)) u.mem
      → mb + gaps m none u.mem < w32
      → IsLoaded m u mb
          (uld_load_file bss_end m true old fse blank unset snum mask membase allocated)
load_file-IsLoaded bss_end m old fse blank unset snum mask membase allocated u e not_null above
      some_mem low ok room =
    let mb = uld_load_get_next_membase bss_end membase allocated in
    subst (IsLoaded m u mb)
      (sym (load_file-eq bss_end m old fse blank unset snum mask membase allocated u e some_mem))
      (load_mem-IsLoaded m u unset fse.base mb allocated not_null above some_mem low ok room)
