-- ===== src/Dyn/Symbols/Chain.antt =====
-- The two symbol lookups of src/uld_dyn.c against each other.
use mathlib.Core.Path.{subst}
use uld_fdpic.Common.{
  ℕ, zero, suc, ◌+◌, ◌*◌, ◌%◌, ◌<◌, ◌≤◌, ◌≡◌, ◌≢◌, refl, sym, ap, ◌∙◌, arith, ◌⊎◌, inl, inr, Bool,
  true, false, ◌||◌, List, [], ◌∷◌, ◌==◌, if◌then◌else◌, length, bytes_eq, Bool-cases,
}
use uld_fdpic.Mem.{Mem, null, w32, add32, read32}
use uld_fdpic.Elf.Fields.{stn_undef}
use uld_fdpic.Dyn.Symbols.{sym_at, sym_name, uld_dyn_elf_hash, chain_find, hash_find, linear_find}

abbrev pub among : ℕ → List ℕ → Bool
among i [] = false
among i (x ∷ xs) = (i == x) || among i xs

module _ (m : Mem) (name : List ℕ) (table dynstr dynsym : ℕ) where
  abbrev pub fits : ℕ → Bool
  fits i = bytes_eq name (sym_name m dynstr (sym_at dynsym i))

  -- What a search among the indices in `P` returns: a symbol of that name, or NULL when there
  -- is none.
  abbrev pub Found : (ℕ → Type 0) → ℕ → Type 0
  Found P r =
      ((i : ℕ) × P i × (fits i ≡ true) × (r ≡ sym_at dynsym i))
      ⊎ (((i : ℕ) → P i → fits i ≡ false) × (r ≡ null))

  abbrev pub nbucket : ℕ
  nbucket = read32 m table

  -- The word that follows `i` in its chain, and the first one of the name's bucket.
  abbrev pub next_link : ℕ → ℕ
  next_link i = read32 m (add32 (add32 table (4 * (nbucket + 2))) (4 * i))

  abbrev pub first_link : ℕ
  first_link = read32 m (add32 table (4 * (uld_dyn_elf_hash name % nbucket + 2)))

  -- The chain from `idx` to its STN_UNDEF holds these indices.
  abbrev pub IsChain : ℕ → List ℕ → Type 0
  IsChain idx [] = idx ≡ stn_undef
  IsChain idx (i ∷ is) = (idx ≡ i) × (i ≢ stn_undef) × IsChain (next_link i) is

  -- A hash table for `count` symbols: the name's bucket has a chain that ends, holds indices of
  -- symbols, and holds every symbol of that name, of which there is one at most.
  pub record IsTable (count : ℕ) (chain : List ℕ) : Type 0 where
    pub is_chain : IsChain first_link chain
    pub ends : length chain < w32
    pub below : (i : ℕ) → among i chain ≡ true → i < count
    pub holds : (i : ℕ) → i < count → fits i ≡ true → among i chain ≡ true
    pub unique : (i j : ℕ) → i < count → j < count → fits i ≡ true → fits j ≡ true → i ≡ j

  chain_step :
      (k i : ℕ)
      → i ≢ stn_undef
      → chain_find m name dynstr dynsym (add32 table (4 * (nbucket + 2))) (suc k) i ≡ (
          if fits i
          then sym_at dynsym i
          else chain_find m name dynstr dynsym (add32 table (4 * (nbucket + 2))) k (next_link i))
  unfolding chain_find
  chain_step k i ne = ground arith

  Found-hit : (P : ℕ → Type 0) (i : ℕ) → P i → fits i ≡ true → Found P (sym_at dynsym i)
  Found-hit P i p hit = inl (i, p, hit, refl)

  -- A symbol of another name changes no result.
  Found-miss :
      (P Q : ℕ → Type 0) (i r : ℕ)
      → fits i ≡ false
      → ((j : ℕ) → P j → Q j)
      → ((j : ℕ) → Q j → (j ≡ i) ⊎ P j)
      → Found P r
      → Found Q r
  Found-miss P Q i r miss up down (inl (j, p, hit, at)) = inl (j, up j p, hit, at)
  Found-miss P Q i r miss up down (inr (misses, at)) =
      inr (λ j q. elim (down j q) [ inl same ↦ ap fits same ∙ miss | inr p ↦ misses j p ], at)

  -- Two searches that meet the same symbols of the name have one result.
  Found-agree :
      (P Q : ℕ → Type 0) (r s : ℕ)
      → ((i : ℕ) → fits i ≡ true → P i → Q i)
      → ((i : ℕ) → fits i ≡ true → Q i → P i)
      → ((i j : ℕ) → Q i → Q j → fits i ≡ true → fits j ≡ true → i ≡ j)
      → Found P r
      → Found Q s
      → r ≡ s
  Found-agree P Q r s to from one (inl (i, p, hit, at)) (inl (j, q, fit, to_at)) =
      at ∙ ap (sym_at dynsym) (one i j (to i hit p) q hit fit) ∙ sym to_at
  Found-agree P Q r s to from one (inl (i, p, hit, at)) (inr (misses, _)) =
      absurd (let miss = misses i (to i hit p) in cc)
  Found-agree P Q r s to from one (inr (misses, _)) (inl (j, q, fit, _)) =
      absurd (let miss = misses j (from j fit q) in cc)
  Found-agree P Q r s to from one (inr (_, at)) (inr (_, to_at)) = at ∙ sym to_at

  chain_end :
      (k idx : ℕ)
      → idx ≡ stn_undef
      → chain_find m name dynstr dynsym (add32 table (4 * (nbucket + 2))) (suc k) idx ≡ null
  unfolding chain_find
  chain_end k idx h = rw h refl

  chain_find-Found :
      (k idx : ℕ) (is : List ℕ)
      → length is < k
      → IsChain idx is
      → Found
          (λ i. among i is ≡ true)
          (chain_find m name dynstr dynsym (add32 table (4 * (nbucket + 2))) k idx)
  chain_find-Found zero idx is lt h = absurd (omega arith)
  chain_find-Found (suc k) idx [] lt h = inr (λ i e. cc, chain_end k idx h)
  chain_find-Found (suc k) idx (i ∷ is) lt (here, ne, h) =
      let rest = chain_find-Found k (next_link i) is (omega arith) h in
      subst (λ r. Found (λ j. among j (i ∷ is) ≡ true) r)
        (sym (
          ap (λ t. chain_find m name dynstr dynsym (add32 table (4 * (nbucket + 2))) (suc k) t) here
          ∙ chain_step k i ne))
        (elim (Bool-cases (fits i)) [
          | inl hit ↦ rw hit (Found-hit _ i (ground arith) hit)
          | inr miss ↦
              rw miss (Found-miss _ _ i _ miss (λ j p. ground arith) (λ j q. ground arith) rest)
        ])

  linear_find-Found :
      (left idx : ℕ)
      → Found (λ i. (idx ≤ i) × (i < idx + left)) (linear_find m name dynstr dynsym left idx)
  unfolding linear_find
  linear_find-Found zero idx = inr (λ i p. absurd (omega (arith, p.0, p.1)), refl)
  linear_find-Found (suc left) idx = elim (Bool-cases (fits idx)) [
    | inl hit ↦ rw (linear_find, hit) (Found-hit _ idx (omega arith, omega arith) hit)
    | inr miss ↦
        rw (linear_find, miss)
          (Found-miss _ _ idx _ miss (λ j p. (omega arith, omega arith)) (λ j q. ground arith)
            (linear_find-Found left (idx + 1)))
  ]

  -- If the chain of the name's bucket ends, runs among the first `count` symbols and holds the one
  -- of these with the name, which at most one has, then the lookup by the table returns what the
  -- walk over these symbols returns.
  pub hash_find_is_linear :
      (count : ℕ) (chain : List ℕ)
      → IsTable count chain
      → hash_find m name table dynstr dynsym ≡ linear_find m name dynstr dynsym count 0
  unfolding hash_find
  hash_find_is_linear count chain t =
      Found-agree (λ i. among i chain ≡ true) (λ i. (0 ≤ i) × (i < 0 + count)) _ _
        (λ i hit p. (omega arith, omega (arith, t.below i p)))
        (λ i hit q. t.holds i (omega (arith, q.1)) hit)
        (λ i j q r hit fit. t.unique i j (omega (arith, q.1)) (omega (arith, r.1)) hit fit)
        (chain_find-Found w32 first_link chain t.ends t.is_chain) (linear_find-Found count 0)
