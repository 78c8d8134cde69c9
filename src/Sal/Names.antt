-- ===== src/Sal/Names.antt =====
-- The lists of names that decide the type of a section.
use uld_fdpic.Common.{
  ℕ, zero, suc, ◌+◌, ◌-◌, ◌<◌, ◌≡◌, refl, sym, ap, ◌∙◌, arith, inl, inr, true, false, some, List,
  [], ◌∷◌, length, get_elem?, bytes_eq, ℤ, pos, negsuc, Bool-cases,
}
use uld_fdpic.Sal.{find_idx, get_str_idx_in_list}

-- What the search for a text reports: the first index at which it stands, or -1.
abbrev pub IsIndexOf : List (List ℕ) → List ℕ → ℤ → Type 0
IsIndexOf l s (pos i) =
    (t : List ℕ) × (get_elem? l i ≡ some t)
    × (bytes_eq t s ≡ true)
    × ((j : ℕ) (u : List ℕ) → j < i → get_elem? l j ≡ some u → bytes_eq u s ≡ false)
IsIndexOf l s (negsuc n) =
    (n ≡ 0) × ((j : ℕ) (u : List ℕ) → get_elem? l j ≡ some u → bytes_eq u s ≡ false)

-- As `IsIndexOf`, in the rest of a list behind `k` texts.
abbrev IndexFrom : ℕ → List (List ℕ) → List ℕ → ℤ → Type 0
IndexFrom k l s (pos i) =
    (n : ℕ) × (i ≡ k + n)
    × (t : List ℕ) × (get_elem? l n ≡ some t)
    × (bytes_eq t s ≡ true)
    × ((j : ℕ) (u : List ℕ) → j < n → get_elem? l j ≡ some u → bytes_eq u s ≡ false)
IndexFrom k l s (negsuc n) =
    (n ≡ 0) × ((j : ℕ) (u : List ℕ) → get_elem? l j ≡ some u → bytes_eq u s ≡ false)

IndexFrom-cons :
    (k : ℕ) (l : List ℕ) (ls : List (List ℕ)) (s : List ℕ) (r : ℤ)
    → bytes_eq l s ≡ false
    → IndexFrom (k + 1) ls s r
    → IndexFrom k (l ∷ ls) s r
IndexFrom-cons k l ls s (pos i) miss (n, at, t, got, hit, before) =
    (suc n, omega arith, t, got, hit, earlier)
  where
    earlier :
        (j : ℕ) (u : List ℕ) → j < suc n → get_elem? (l ∷ ls) j ≡ some u → bytes_eq u s ≡ false
    earlier zero u lt e = let same : l ≡ u = cc in ap (λ x. bytes_eq x s) (sym same) ∙ miss
    earlier (suc j) u lt e = before j u (omega arith) e
IndexFrom-cons k l ls s (negsuc n) miss (z, before) = (z, earlier)
  where
    earlier : (j : ℕ) (u : List ℕ) → get_elem? (l ∷ ls) j ≡ some u → bytes_eq u s ≡ false
    earlier zero u e = let same : l ≡ u = cc in ap (λ x. bytes_eq x s) (sym same) ∙ miss
    earlier (suc j) u e = before j u e

find_idx-IndexFrom :
    (k lnum : ℕ) (l : List (List ℕ)) (s : List ℕ)
    → lnum ≡ k + length l
    → IndexFrom k l s (find_idx l lnum (length l) s)
unfolding find_idx
find_idx-IndexFrom k lnum [] s e = (refl, λ j u h. cc)
find_idx-IndexFrom k lnum (l ∷ ls) s e =
    let less : suc (length ls) - 1 ≡ length ls = omega arith in
    elim (Bool-cases (bytes_eq l s)) [
      | inl hit ↦ rw hit (0, omega arith, l, refl, hit, λ j u lt h. absurd (omega arith))
      | inr miss ↦
          rw (miss, less)
            (IndexFrom-cons k l ls s _ miss (find_idx-IndexFrom (k + 1) lnum ls s (omega arith)))
    ]

IsIndexOf-of_IndexFrom :
    (l : List (List ℕ)) (s : List ℕ) (r : ℤ) → IndexFrom 0 l s r → IsIndexOf l s r
IsIndexOf-of_IndexFrom l s (pos i) (n, at, t, got, hit, before) =
    let same : i ≡ n = omega arith in (t, rw same got, hit, λ j u lt. before j u (omega arith))
IsIndexOf-of_IndexFrom l s (negsuc n) h = h

-- `get_str_idx_in_list` returns the first index at which the text stands in the list, and -1
-- exactly when it stands at none.
pub get_str_idx_in_list-IsIndexOf :
    (l : List (List ℕ)) (s : List ℕ) → IsIndexOf l s (get_str_idx_in_list l s)
unfolding get_str_idx_in_list
get_str_idx_in_list-IsIndexOf l s =
    IsIndexOf-of_IndexFrom l s _ (find_idx-IndexFrom 0 (length l) l s (omega arith))
