-- ===== src/Sal/Find.antt =====
-- The search in a list of sections finds the first section that fits.
use uld_fdpic.Common.{
  ℕ, zero, suc, ◌+◌, ◌<◌, ◌≡◌, refl, sym, ap, ◌∙◌, arith, inl, inr, Bool, true, false, ◌&&◌, Option,
  none, some, List, [], ◌∷◌, ◌==◌, bit_and, get_elem?, Bool-cases,
}
use uld_fdpic.Mem.{Mem}
use uld_fdpic.Sal.{Section, FindVal, FindType, sec_hit, find_from, uld_section_find_in_list}

module _ (m : Mem) (val : FindVal) (type : FindType) (fmask fval : ℕ) where
  -- The section has the flags and the address or name that are looked for.
  abbrev pub fits : Section → Bool
  fits s = (bit_and s.flags fmask == fval) && sec_hit m val type s

  -- The result of the search among `ss`, whose first section has position `i`.
  abbrev pub IsFirst : ℕ → List Section → Option (ℕ × Section) → Type 0
  IsFirst i ss none = (j : ℕ) (s : Section) → get_elem? ss j ≡ some s → fits s ≡ false
  IsFirst i ss (some (k, s)) =
      (n : ℕ) × (k ≡ i + n)
      × (get_elem? ss n ≡ some s)
      × (fits s ≡ true)
      × ((j : ℕ) (t : Section) → j < n → get_elem? ss j ≡ some t → fits t ≡ false)

  IsFirst-cons :
      (i : ℕ) (s : Section) (ss : List Section) (r : Option (ℕ × Section))
      → fits s ≡ false
      → IsFirst (i + 1) ss r
      → IsFirst i (s ∷ ss) r
  IsFirst-cons i s ss none miss h = λ j t e. earlier j t e
    where
      earlier : (j : ℕ) (t : Section) → get_elem? (s ∷ ss) j ≡ some t → fits t ≡ false
      earlier zero t e = let same : s ≡ t = cc in ap fits (sym same) ∙ miss
      earlier (suc j) t e = h j t e
  IsFirst-cons i s ss (some (k, t)) miss (n, at, got, hit, before) =
      (suc n, omega arith, got, hit, earlier)
    where
      earlier : (j : ℕ) (u : Section) → j < suc n → get_elem? (s ∷ ss) j ≡ some u → fits u ≡ false
      earlier zero u lt e = let same : s ≡ u = cc in ap fits (sym same) ∙ miss
      earlier (suc j) u lt e = before j u (omega arith) e

  find_from-IsFirst :
      (i : ℕ) (ss : List Section) → IsFirst i ss (find_from m i ss val type fmask fval)
  unfolding find_from
  find_from-IsFirst i [] = λ j s e. cc
  find_from-IsFirst i (s ∷ ss) = elim (Bool-cases (fits s)) [
    | inl hit ↦ rw hit (0, omega arith, refl, hit, λ j t lt e. absurd (omega arith))
    | inr miss ↦ rw miss (IsFirst-cons i s ss _ miss (find_from-IsFirst (i + 1) ss))
  ]

  -- `uld_section_find_in_list` returns the position and the value of the first section that has
  -- the flags and the address or name, and NULL only if no section of the list has them.
  pub find_in_list-IsFirst :
      (ss : List Section) → IsFirst 0 ss (uld_section_find_in_list m ss val type fmask fval)
  unfolding uld_section_find_in_list
  find_in_list-IsFirst ss = find_from-IsFirst 0 ss
