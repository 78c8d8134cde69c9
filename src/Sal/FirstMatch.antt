-- ===== src/Sal/FirstMatch.antt =====
-- What the search in a list of sections looks for, by kind of search.
use uld_fdpic.Common.{
  ℕ, ◌+◌, ◌%◌, ◌<◌, ◌≤◌, ◌≡◌, refl, sym, ap, ◌∙◌, arith, ◌↔◌, true, false, ◌&&◌, Option, none, some,
  List, [], ◌∷◌, ◌==◌, bit_and, get_elem?, bytes_eq,
}
use mathlib.Core.Bool.{false≢true}
use uld_fdpic.Mem.{Mem, w32, cstr}
use uld_fdpic.Elf.Fields.{sh_addr, sh_size}
use uld_fdpic.Sal.{
  Section, FindVal, FindType, addr, text, by_vma, by_adj_vma, by_lma, by_adj_lma, by_name, sec_hit,
  uld_section_find_in_list,
}
use uld_fdpic.Sal.Find.{fits, IsFirst, find_in_list-IsFirst}

bytes_eq-eq : (xs ys : List ℕ) → (bytes_eq xs ys ≡ true) ↔ (xs ≡ ys)
bytes_eq-eq [] [] = (λ e. refl, λ e. refl)
bytes_eq-eq [] (y ∷ ys) = (λ e. cc, λ e. cc)
bytes_eq-eq (x ∷ xs) [] = (λ e. cc, λ e. cc)
bytes_eq-eq (x ∷ xs) (y ∷ ys) = (there (bytes_eq-eq xs ys).0, back (bytes_eq-eq xs ys).1)
  where
    there :
        (bytes_eq xs ys ≡ true → xs ≡ ys)
        → ((x == y) && bytes_eq xs ys) ≡ true
        → (x ∷ xs) ≡ (y ∷ ys)
    there tails e =
        let head : x ≡ y = ground arith in
        let tail : xs ≡ ys = tails (ground arith) in rw (head, tail) refl

    back :
        (xs ≡ ys → bytes_eq xs ys ≡ true)
        → (x ∷ xs) ≡ (y ∷ ys)
        → ((x == y) && bytes_eq xs ys) ≡ true
    back tails e =
        let head : x ≡ y = cc in let tail : bytes_eq xs ys ≡ true = tails cc in ground arith

module _ (m : Mem) where
  -- `a` lies in the section's bytes if these start at `base`, in the C arithmetic of words.
  abbrev pub At : ℕ → ℕ → Section → Type 0
  At a base s = (base ≤ a) × (a < (base + sh_size m s.shdr) % w32)

  -- What each kind of search asks of a section: the value is an address or a name.
  abbrev pub Meets : FindVal → FindType → Section → Type 0
  Meets (addr a) by_vma s = At a (sh_addr m s.shdr) s
  Meets (addr a) by_adj_vma s = At a s.adjusted_vma s
  Meets (addr a) by_lma s = At a s.lma s
  Meets (addr a) by_adj_lma s = At a s.adjusted_lma s
  Meets (addr a) by_name s = ⊥
  Meets (text (some t)) by_name s = t ≡ cstr m s.name
  Meets (text none) by_name s = ⊥
  Meets (text none) by_vma s = ⊥
  Meets (text (some t)) by_vma s = ⊥
  Meets (text none) by_adj_vma s = ⊥
  Meets (text (some t)) by_adj_vma s = ⊥
  Meets (text none) by_lma s = ⊥
  Meets (text (some t)) by_lma s = ⊥
  Meets (text none) by_adj_lma s = ⊥
  Meets (text (some t)) by_adj_lma s = ⊥

  sec_hit-Meets :
      (val : FindVal) (type : FindType) (s : Section)
      → (sec_hit m val type s ≡ true) ↔ Meets val type s
  unfolding sec_hit
  sec_hit-Meets (addr a) by_vma s = ground arith
  sec_hit-Meets (addr a) by_adj_vma s = ground arith
  sec_hit-Meets (addr a) by_lma s = ground arith
  sec_hit-Meets (addr a) by_adj_lma s = ground arith
  sec_hit-Meets (addr a) by_name s = (λ e. false≢true e, λ w. absurd w)
  sec_hit-Meets (text (some t)) by_name s = bytes_eq-eq t (cstr m s.name)
  sec_hit-Meets (text none) by_name s = (λ e. false≢true e, λ w. absurd w)
  sec_hit-Meets (text none) by_vma s = (λ e. false≢true e, λ w. absurd w)
  sec_hit-Meets (text (some t)) by_vma s = (λ e. false≢true e, λ w. absurd w)
  sec_hit-Meets (text none) by_adj_vma s = (λ e. false≢true e, λ w. absurd w)
  sec_hit-Meets (text (some t)) by_adj_vma s = (λ e. false≢true e, λ w. absurd w)
  sec_hit-Meets (text none) by_lma s = (λ e. false≢true e, λ w. absurd w)
  sec_hit-Meets (text (some t)) by_lma s = (λ e. false≢true e, λ w. absurd w)
  sec_hit-Meets (text none) by_adj_lma s = (λ e. false≢true e, λ w. absurd w)
  sec_hit-Meets (text (some t)) by_adj_lma s = (λ e. false≢true e, λ w. absurd w)

  module _ (val : FindVal) (type : FindType) (fmask fval : ℕ) where
    -- The section has the flags and what the search asks for.
    abbrev pub Suits : Section → Type 0
    Suits s = (bit_and s.flags fmask ≡ fval) × Meets val type s

    fits-Suits : (s : Section) → (fits m val type fmask fval s ≡ true) ↔ Suits s
    fits-Suits s =
        let meets = sec_hit-Meets val type s in
        (
          λ e. (ground arith, meets.0 (ground arith)),
          λ h. let hit : sec_hit m val type s ≡ true = meets.1 h.1 in ground (arith, h.0),
        )

    fits-unsuited : (s : Section) → fits m val type fmask fval s ≡ false → ¬ Suits s
    fits-unsuited s e h = false≢true (sym e ∙ (fits-Suits s).1 h)

    -- The result of a search of the list: its first section that suits, with its position.
    abbrev pub IsFirstMatch : List Section → Option (ℕ × Section) → Type 0
    IsFirstMatch ss none = (j : ℕ) (t : Section) → get_elem? ss j ≡ some t → ¬ Suits t
    IsFirstMatch ss (some (k, s)) =
        (get_elem? ss k ≡ some s)
        × Suits s
        × ((j : ℕ) (t : Section) → j < k → get_elem? ss j ≡ some t → ¬ Suits t)

    first-match :
        (ss : List Section) (r : Option (ℕ × Section))
        → IsFirst m val type fmask fval 0 ss r
        → IsFirstMatch ss r
    first-match ss none h = λ j t e. fits-unsuited t (h j t e)
    first-match ss (some (k, s)) (n, at, got, hit, before) =
        let same : n ≡ k = omega arith in
        (
          ap (λ i. get_elem? ss i) (sym same) ∙ got,
          (fits-Suits s).0 hit,
          λ j t lt e. fits-unsuited t (before j t (omega arith) e),
        )

    -- `uld_section_find_in_list` returns the position and the value of the first section of the
    -- list that has the masked flags and what the search is for: an address from its vma,
    -- adjusted vma, lma or adjusted lma on and below that plus its size, or a name equal to its
    -- own. It returns NULL only if no section of the list has them.
    pub find_in_list-IsFirstMatch :
        (ss : List Section) → IsFirstMatch ss (uld_section_find_in_list m ss val type fmask fval)
    find_in_list-IsFirstMatch ss = first-match ss _ (find_in_list-IsFirst m val type fmask fval ss)
