-- ===== src/Exec/Inits.antt =====
-- The init functions that are called, as one list.
use mathlib.Core.Path.{subst₂}
use uld_fdpic.Common.{
  ℕ, zero, suc, ◌+◌, ◌*◌, ◌/◌, ◌^◌, ◌<◌, ◌≤◌, ◌≡◌, refl, sym, ap, ◌∙◌, arith, inl, inr, Bool, true,
  false, Bool-cases, some, List, [], ◌∷◌, ◌++◌, ◌==◌, map, ltb, if◌then◌else◌,
}
use uld_fdpic.Mem.{Mem, null, w32, add32, read32}
use uld_fdpic.Elf.Fields.{sh_size}
use uld_fdpic.Elf.{elf32_get_section_by_name, elf32_get_section_flash_addr}
use uld_fdpic.File.{UldFile}
use uld_fdpic.Exec.{
  call_loop, uld_exec_call_vv_fp_array_fdpic_base, call_sections, uld_exec_init_section_list,
  uld_exec_elf_call_init_funcs,
}

-- `n` words from `start` on.
abbrev pub words : Mem → ℕ → ℕ → List ℕ
words m start zero = []
words m start (suc n) = read32 m start ∷ words m (start + 4) n

-- A file's array of the name: whether it is missing, where it starts, its length and its pointers.
pub record InitArray : Type 0 where
  pub missing : Bool
  pub start : ℕ
  pub count : ℕ
  pub pointers : List ℕ

abbrev pub init_array : Mem → UldFile → List ℕ → InitArray
init_array m f name =
    let shdr = elf32_get_section_by_name m f.fse.base null (some name) in
    let start = elf32_get_section_flash_addr m shdr f.fse.base in
    let count = sh_size m shdr / 4 in
    record { missing = shdr == null; start = start; count = count; pointers = words m start count }

-- The functions of an array, each with the file's base.
abbrev pub array_calls : UldFile → InitArray → List (ℕ × ℕ)
array_calls f a = if a.missing then [] else map (λ fp. (fp, f.membase)) a.pointers

-- The functions of the arrays of those names, and those of a list of files.
abbrev pub named_calls : Mem → List (List ℕ) → UldFile → List (ℕ × ℕ)
named_calls m [] f = []
named_calls m (name ∷ names) f = array_calls f (init_array m f name) ++ named_calls m names f

abbrev pub init_calls : Mem → List UldFile → List (ℕ × ℕ)
init_calls m [] = []
init_calls m (f ∷ fs) = named_calls m uld_exec_init_section_list f ++ init_calls m fs

-- An array lies in the address space, away from address 0.
abbrev pub Fits : InitArray → Type 0
Fits a = (a.missing ≡ false) → (0 < a.start) × (a.start + 4 * a.count < w32)

module _ (call : ℕ → ℕ → Mem → Mem) where
  -- The calls one behind the other.
  abbrev pub run_calls : List (ℕ × ℕ) → Mem → Mem
  run_calls [] m = m
  run_calls (c ∷ cs) m = run_calls cs (call c.0 c.1 m)

  pub run_calls-append :
      (cs ds : List (ℕ × ℕ)) (m : Mem) → run_calls (cs ++ ds) m ≡ run_calls ds (run_calls cs m)
  run_calls-append [] ds m = refl
  run_calls-append (c ∷ cs) ds m = run_calls-append cs ds (call c.0 c.1 m)

  -- What the calls keep.
  module _ (P : Mem → Type 0) (keep : (fp base : ℕ) (c : Mem) → P c → P (call fp base c)) where
    pub run_calls-kept : (cs : List (ℕ × ℕ)) (m : Mem) → P m → P (run_calls cs m)
    run_calls-kept [] m h = h
    run_calls-kept (c ∷ cs) m h = run_calls-kept cs (call c.0 c.1 m) (keep c.0 c.1 m h)

    call_loop-run_calls :
        (base left start n : ℕ) (l : List ℕ) (c : Mem)
        → n ≤ left
        → 0 < start
        → start + 4 * n < w32
        → P c
        → ((d : Mem) → P d → words d start n ≡ l)
        → call_loop (λ fp d. call fp base d) left start (start + 4 * n) c
          ≡ run_calls (map (λ fp. (fp, base)) l) c
    unfolding call_loop
    call_loop-run_calls base zero start zero l c room above below h same =
        ap (λ k. run_calls (map (λ fp. (fp, base)) k) c) (same c h)
    call_loop-run_calls base zero start (suc n) l c room above below h same =
        absurd (omega (arith, room))
    call_loop-run_calls base (suc left) start zero l c room above below h same =
        let stop : ltb start (start + 4 * 0) ≡ false = ground arith in
        rw (call_loop, stop) (ap (λ k. run_calls (map (λ fp. (fp, base)) k) c) (same c h))
    call_loop-run_calls base (suc left) start (suc n) [] c room above below h same =
        let e = same c h in cc
    call_loop-run_calls base (suc left) start (suc n) (x ∷ l) c room above below h same =
        let more : ltb start (start + 4 * suc n) ≡ true = ground arith in
        let given : (start == null) ≡ false = ground (arith, above) in
        let next : add32 start 4 ≡ start + 4 = omega (arith, below) in
        let end : start + 4 * suc n ≡ start + 4 + 4 * n = omega arith in
        let e = same c h in
        let head : read32 c start ≡ x = cc in
        let rest =
          call_loop-run_calls base left (start + 4) n l (call x base c) (omega (arith, room))
            (omega arith) (omega (arith, below)) (keep x base c h)
            (λ d k. let t = same d k in cc) in
        rw (call_loop, more, given, head, next) (rw end rest)

    -- One array, whose description stays as it is in `a`.
    called-run_calls :
        (f : UldFile) (name : List ℕ) (a : InitArray) (c : Mem)
        → Fits a
        → P c
        → ((d : Mem) → P d → init_array d f name ≡ a)
        → (if (init_array c f name).missing
            then c
            else uld_exec_call_vv_fp_array_fdpic_base call
                (init_array c f name).start
                (add32 (init_array c f name).start (4 * (init_array c f name).count))
                f.membase
                c)
          ≡ run_calls (array_calls f a) c
    unfolding uld_exec_call_vv_fp_array_fdpic_base
    called-run_calls f name a c fits h same = elim (Bool-cases a.missing) [
      | inl absent ↦ rw (ap (λ x. x.missing) (same c h) ∙ absent, absent) refl
      | inr there ↦
          let (above, below) = fits there in
          let end : add32 a.start (4 * a.count) ≡ a.start + 4 * a.count = omega (arith, below) in
          let given : (a.start == null) ≡ false = ground (arith, above) in
          let given_end : (a.start + 4 * a.count == null) ≡ false = ground (arith, above) in
          let room : a.count ≤ 2 ^ 30 = omega (arith, below) in
          let read = λ (d : Mem) (k : P d).
            subst₂ (λ s n. words d s n ≡ a.pointers) (ap (λ x. x.start) (same d k))
              (ap (λ x. x.count) (same d k)) (ap (λ x. x.pointers) (same d k)) in
          let loop =
            call_loop-run_calls f.membase (2 ^ 30) a.start a.count a.pointers c room above below h
              read in
          rw
            (
              ap (λ x. x.missing) (same c h) ∙ there,
              there,
              ap (λ x. x.start) (same c h),
              ap (λ x. x.count) (same c h),
              end,
              given,
              given_end,
            )
            loop
    ]

    -- What holds of the arrays of a file with those names.
    abbrev pub Kept : Mem → UldFile → List (List ℕ) → Type 0
    Kept m f [] = Unit
    Kept m f (name ∷ names) =
        (Fits (init_array m f name) × ((d : Mem) → P d → init_array d f name ≡ init_array m f name))
        × Kept m f names

    call_sections-run_calls :
        (m : Mem) (f : UldFile) (names : List (List ℕ)) (c : Mem)
        → Kept m f names
        → P c
        → call_sections call names f c ≡ run_calls (named_calls m names f) c
    unfolding call_sections
    call_sections-run_calls m f [] c kept h = refl
    call_sections-run_calls m f (name ∷ names) c kept h =
        let calls = array_calls f (init_array m f name) in
        ap (λ d. call_sections call names f d)
          (called-run_calls f name (init_array m f name) c kept.0.0 h kept.0.1)
        ∙ call_sections-run_calls m f names (run_calls calls c) kept.1 (run_calls-kept calls c h)
        ∙ sym (run_calls-append calls (named_calls m names f) c)

    pub call_init_funcs-run_calls :
        (m : Mem) (f : UldFile) (c : Mem)
        → Kept m f uld_exec_init_section_list
        → P c
        → (uld_exec_elf_call_init_funcs call (some f) c).1
          ≡ run_calls (named_calls m uld_exec_init_section_list f) c
    unfolding uld_exec_elf_call_init_funcs
    call_init_funcs-run_calls m f c kept h =
        call_sections-run_calls m f uld_exec_init_section_list c kept h
