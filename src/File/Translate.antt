-- ===== src/File/Translate.antt =====
-- Where a file's addresses move to.
use uld_fdpic.Common.{
  ℕ, ◌+◌, ◌-◌, ◌<◌, ◌≤◌, ◌≡◌, ◌≢◌, ◌↔◌, sym, ◌∙◌, arith, ◌⊎◌, inl, inr, Bool, true, false, Option,
  none, some, List, [], ◌∷◌, get_elem?, Option-cases,
}
use mathlib.Core.Path.{subst}
use mathlib.Core.Bool.{false≢true}
use uld_fdpic.Bits.{bit_and-zero}
use uld_fdpic.Mem.{Mem, null, w32}
use uld_fdpic.Elf.Fields.{sh_size}
use uld_fdpic.Sal.{
  Section, addr, by_lma, flag_none, in_range, sec_hit, uld_section_find_in_list,
  uld_section_find_in_lists, uld_section_find_in_lists_by_lma, uld_section_lma_to_adjusted_ma,
}
use uld_fdpic.Sal.Find.{fits, IsFirst, find_in_list-IsFirst}
use uld_fdpic.Sal.Adjust.{target, is_blocked, lma_to_adjusted_ma_cases}
use uld_fdpic.File.{UldFile, uld_file_lma_to_adjusted_ma}

abbrev pub Elem : Section → List Section → Type 0
Elem s ss = (i : ℕ) × (get_elem? ss i ≡ some s)

abbrev pub Covers : Mem → ℕ → Section → Type 0
Covers m a s = (s.lma ≤ a) × (a < s.lma + sh_size m s.shdr)

-- Neither the section nor the moved one reaches the end of the address space.
abbrev pub IsShort : Mem → Bool → Section → Type 0
IsShort m to_adj_lma s =
    (s.lma + sh_size m s.shdr < w32) × (target s to_adj_lma + sh_size m s.shdr < w32)

module _ (m : Mem) (a : ℕ) where
  abbrev search : List Section → Option (ℕ × Section)
  search ss = uld_section_find_in_list m ss (addr a) by_lma flag_none flag_none

  abbrev First : List Section → Option (ℕ × Section) → Type 0
  First ss r = IsFirst m (addr a) by_lma flag_none flag_none 0 ss r

  fits-in_range :
      (s : Section) → fits m (addr a) by_lma flag_none flag_none s ≡ in_range m a s.lma s
  unfolding sec_hit
  fits-in_range s = ground (arith, bit_and-zero s.flags)

  pub some-Elem :
      (ss : List Section) (k : ℕ) (s : Section)
      → search ss ≡ some (k, s)
      → Elem s ss × (in_range m a s.lma s ≡ true)
  some-Elem ss k s e =
      let (n, at, got, hit, before) =
        subst (First ss) e (find_in_list-IsFirst m (addr a) by_lma flag_none flag_none ss) in
      ((n, got), sym (fits-in_range s) ∙ hit)

  pub none-Elem :
      (ss : List Section)
      → search ss ≡ none
      → (s : Section) → Elem s ss
      → in_range m a s.lma s ≡ false
  none-Elem ss e s (i, got) =
      let nowhere =
        subst (First ss) e (find_in_list-IsFirst m (addr a) by_lma flag_none flag_none ss) in
      sym (fits-in_range s) ∙ nowhere i s got

  abbrev pub Anywhere : List (List Section) → Section → Type 0
  Anywhere [] s = ⊥
  Anywhere (l ∷ ls) s = Elem s l ⊎ Anywhere ls s

  lists_some :
      (ls : List (List Section)) (s : Section)
      → uld_section_find_in_lists m ls (addr a) by_lma flag_none flag_none ≡ some s
      → Anywhere ls s × (in_range m a s.lma s ≡ true)
  unfolding uld_section_find_in_lists
  lists_some [] s e = cc
  lists_some (l ∷ ls) s e = elim (Option-cases (search l)) [
    | inl no_hit ↦
        let (where_, hit) = lists_some ls s (rw (no_hit, uld_section_find_in_lists) at e) in
        (inr where_, hit)
    | inr ((k, t), found) ↦
        let hit_here : some t ≡ some s = rw (found, uld_section_find_in_lists) at e in
        let same : t ≡ s = cc in
        let (where_, hit) = some-Elem l k t found in
        subst (λ u. Anywhere (l ∷ ls) u × (in_range m a u.lma u ≡ true)) same (inl where_, hit)
  ]

  lists_none :
      (ls : List (List Section))
      → uld_section_find_in_lists m ls (addr a) by_lma flag_none flag_none ≡ none
      → (s : Section) → Anywhere ls s
      → in_range m a s.lma s ≡ false
  unfolding uld_section_find_in_lists
  lists_none [] e s w = absurd w
  lists_none (l ∷ ls) e s w = elim (Option-cases (search l)) [
    | inl no_hit ↦ elim w [
      | inl here ↦ none-Elem l no_hit s here
      | inr later ↦ lists_none ls (rw (no_hit, uld_section_find_in_lists) at e) s later
    ]
    | inr ((k, t), found) ↦
        let hit_here : some t ≡ none = rw (found, uld_section_find_in_lists) at e in cc
  ]

abbrev pub sections : UldFile → List (List Section)
sections f = f.flash ∷ f.mem ∷ f.other ∷ []

-- What the move of `a` may give: the offset in a section of the file that covers it, or NULL
-- because the section has no bytes there or because no section covers it.
abbrev pub Moved : Mem → UldFile → ℕ → Bool → ℕ → Type 0
Moved m f a to_adj_lma r =
    ((s : Section) × Anywhere m a (sections f) s
      × Covers m a s
      × ((is_blocked m s to_adj_lma ≡ false) × (r ≡ target s to_adj_lma + (a - s.lma))
          ⊎ (is_blocked m s to_adj_lma ≡ true) × (r ≡ null)))
    ⊎ ((r ≡ null) × ((s : Section) → Anywhere m a (sections f) s → ¬ Covers m a s))

module _ (m : Mem) (f : UldFile) (a : ℕ) (to_adj_lma : Bool) (fits_word : a < w32)
    (some_address : a ≢ null)
    (short : (s : Section) → Anywhere m a (sections f) s → IsShort m to_adj_lma s) where
  Covers-in_range :
      (s : Section) → Anywhere m a (sections f) s → (in_range m a s.lma s ≡ true) ↔ Covers m a s
  Covers-in_range s w = let h = short s w in ground arith

  abbrev found_in : Option Section
  found_in = uld_section_find_in_lists m (sections f) (addr a) by_lma flag_none flag_none

  abbrev moved : ℕ
  moved = uld_file_lma_to_adjusted_ma m f a to_adj_lma

  moved-none : found_in ≡ none → moved ≡ null
  unfolding uld_file_lma_to_adjusted_ma uld_section_find_in_lists_by_lma
  moved-none e = rw (e, uld_file_lma_to_adjusted_ma)

  moved-some :
      (s : Section)
      → found_in ≡ some s
      → moved ≡ uld_section_lma_to_adjusted_ma m (some s) a to_adj_lma
  unfolding uld_file_lma_to_adjusted_ma uld_section_find_in_lists_by_lma
  moved-some s e = rw (e, uld_file_lma_to_adjusted_ma)

  -- For an address other than NULL, and if no section of the file reaches the end of the address
  -- space where it stands or where it was moved to, `uld_file_lma_to_adjusted_ma` finds a section of
  -- the file that covers it and moves it to the same offset there, gives NULL if that section has no
  -- bytes there, and gives NULL otherwise only when no section of the file covers it.
  pub file_lma_to_adjusted_ma_cases :
      Moved m f a to_adj_lma (uld_file_lma_to_adjusted_ma m f a to_adj_lma)
  file_lma_to_adjusted_ma_cases = elim (Option-cases found_in) [
    | inl no_hit ↦ inr (
      moved-none no_hit,
      λ s w c.
          let out = lists_none m a (sections f) no_hit s w in
          let hit = (Covers-in_range s w).1 c in false≢true (sym out ∙ hit),
    )
    | inr (s, found) ↦
        let (w, hit) = lists_some m a (sections f) s found in
        let h = short s w in
        let c = (Covers-in_range s w).0 hit in
        let cases = lma_to_adjusted_ma_cases m s a to_adj_lma fits_word h.0 h.1 in
        let same = moved-some s found in inl (s, w, c, ground arith)
  ]
