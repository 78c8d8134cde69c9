-- ===== src/Base64/Holds.antt =====
-- Texts in a buffer.
use mathlib.Core.Path.{subst}
use uld_fdpic.Common.{ℕ, suc, ◌+◌, ◌≤◌, ◌≡◌, refl, ◌∙◌, arith, List, [], ◌∷◌, ◌++◌, length}
use uld_fdpic.Mem.{Mem, update, writes, IsCstr}
use uld_fdpic.Mem.Laws.{writes_before}
use uld_fdpic.Sal.Crc.{bytes_at}
use uld_fdpic.Base64.Bytes.{IsPlain}

-- The memory has these bytes from `a` on.
abbrev pub Holds : Mem → ℕ → List ℕ → Type 0
Holds m a [] = Unit
Holds m a (x ∷ xs) = (m a ≡ x) × Holds m (a + 1) xs

pub writes-Holds : (m : Mem) (a : ℕ) (xs : List ℕ) → Holds (writes m a xs) a xs
writes-Holds m a [] = tt
writes-Holds m a (x ∷ xs) = (
  writes_before (update m a x) (a + 1) a xs (omega arith) ∙ ground arith,
  writes-Holds (update m a x) (a + 1) xs,
)

-- Writes behind some bytes.
pub writes-Holds_before :
    (m : Mem) (a d : ℕ) (cs xs : List ℕ)
    → d + length cs ≤ a
    → Holds m d cs
    → Holds (writes m a xs) d cs
writes-Holds_before m a d [] xs le h = tt
writes-Holds_before m a d (c ∷ cs) xs le h = (
  writes_before m a d xs (omega (arith, le)) ∙ h.0,
  writes-Holds_before m a (d + 1) cs xs (omega (arith, le)) h.1,
)

pub Holds-append :
    (m : Mem) (d : ℕ) (cs ds : List ℕ)
    → Holds m d cs
    → Holds m (d + length cs) ds
    → Holds m d (cs ++ ds)
Holds-append m d [] ds h k = let e : d + 0 ≡ d = omega arith in subst (λ a. Holds m a ds) e k
Holds-append m d (c ∷ cs) ds h k =
    let e : d + suc (length cs) ≡ d + 1 + length cs = omega arith in
    (h.0, Holds-append m (d + 1) cs ds h.1 (subst (λ a. Holds m a ds) e k))

pub Holds-IsCstr :
    (m : Mem) (d : ℕ) (cs xs : List ℕ) → IsPlain cs → Holds m d (cs ++ 0 ∷ xs) → IsCstr m d cs
Holds-IsCstr m d [] xs plain h = h.0
Holds-IsCstr m d (c ∷ cs) xs plain h = (h.0, plain.0, Holds-IsCstr m (d + 1) cs xs plain.1 h.1)

pub Holds-bytes_at :
    (m : Mem) (d : ℕ) (cs xs : List ℕ) → Holds m d (cs ++ xs) → bytes_at m d (length cs) ≡ cs
unfolding bytes_at
Holds-bytes_at m d [] xs h = refl
Holds-bytes_at m d (c ∷ cs) xs h = rw (h.0, Holds-bytes_at m (d + 1) cs xs h.1) refl

pub IsPlain-append : (cs ds : List ℕ) → IsPlain cs → IsPlain ds → IsPlain (cs ++ ds)
IsPlain-append [] ds h k = k
IsPlain-append (c ∷ cs) ds h k = (h.0, IsPlain-append cs ds h.1 k)
