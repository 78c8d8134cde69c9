-- ===== src/Dyn/ExecFse/Order.antt =====
-- The order in which the init functions of the loaded files are called.
use uld_fdpic.Common.{ℕ, ◌≡◌, refl, sym, ap, ◌∙◌, List, [], ◌∷◌, All}
use uld_fdpic.Mem.{Mem}
use uld_fdpic.File.{UldFile}
use uld_fdpic.Exec.{uld_exec_init_section_list}
use uld_fdpic.Exec.Inits.{
  init_array, Fits, named_calls, init_calls, run_calls, run_calls-kept, run_calls-append, Kept,
  call_init_funcs-run_calls,
}
use uld_fdpic.Dyn.ExecFse.{Machine, call_inits}

module _ (m : Mem) where
  -- The arrays of the files are in `c` what they are in `m`.
  abbrev pub SameNamed : UldFile → List (List ℕ) → Mem → Type 0
  SameNamed f [] c = Unit
  SameNamed f (name ∷ names) c = (init_array c f name ≡ init_array m f name) × SameNamed f names c

  abbrev pub SameArrays : List UldFile → Mem → Type 0
  SameArrays fs c = All (λ f. SameNamed f uld_exec_init_section_list c) fs

  abbrev pub FitNamed : UldFile → List (List ℕ) → Type 0
  FitNamed f [] = Unit
  FitNamed f (name ∷ names) = Fits (init_array m f name) × FitNamed f names

  SameNamed-self : (f : UldFile) (names : List (List ℕ)) → SameNamed f names m
  SameNamed-self f [] = tt
  SameNamed-self f (name ∷ names) = (refl, SameNamed-self f names)

  SameArrays-self : (fs : List UldFile) → SameArrays fs m
  SameArrays-self [] = tt
  SameArrays-self (f ∷ fs) = (SameNamed-self f uld_exec_init_section_list, SameArrays-self fs)

  module _ (mc : Machine) (P : Mem → Type 0)
      (keep : (fp base : ℕ) (c : Mem) → P c → P (mc.call fp base c)) where
    Kept-from :
        (f : UldFile) (names : List (List ℕ))
        → FitNamed f names
        → ((c : Mem) → P c → SameNamed f names c)
        → Kept mc.call P keep m f names
    Kept-from f [] fits same = tt
    Kept-from f (name ∷ names) fits same =
        ((fits.0, λ d k. (same d k).0), Kept-from f names fits.1 (λ d k. (same d k).1))

    calls_from :
        (fs : List UldFile) (c : Mem)
        → All (λ f. FitNamed f uld_exec_init_section_list) fs
        → ((d : Mem) → P d → SameArrays fs d)
        → P c
        → call_inits mc fs c ≡ run_calls mc.call (init_calls m fs) c
    unfolding call_inits
    calls_from [] c fits same h = refl
    calls_from (f ∷ fs) c fits same h =
        let calls = named_calls m uld_exec_init_section_list f in
        let kept = Kept-from f uld_exec_init_section_list fits.0 (λ d k. (same d k).0) in
        ap (λ d. call_inits mc fs d) (call_init_funcs-run_calls mc.call P keep m f c kept h)
        ∙ calls_from fs (run_calls mc.call calls c) fits.1 (λ d k. (same d k).1)
            (run_calls-kept mc.call P keep calls c h)
        ∙ sym (run_calls-append mc.call calls (init_calls m fs) c)

  -- Let every array of init functions lie in the address space, and the loaded code leave the
  -- arrays as they are. Then the init functions of a list of files are called one behind the other,
  -- each with the base of its file: for each file in the order of the list those of its
  -- ".preinit_array" and then of its ".init_array", each array from its first pointer to its last.
  pub call_inits-run_calls :
      (mc : Machine) (fs : List UldFile)
      → All (λ f. FitNamed f uld_exec_init_section_list) fs
      → ((fp base : ℕ) (c : Mem) → SameArrays fs c → SameArrays fs (mc.call fp base c))
      → call_inits mc fs m ≡ run_calls mc.call (init_calls m fs) m
  call_inits-run_calls mc fs fits keep =
      calls_from mc (SameArrays fs) keep fs m fits (λ d k. k) (SameArrays-self fs)
