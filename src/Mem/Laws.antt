-- ===== src/Mem/Laws.antt =====
-- Reads after writes, and the text behind a pointer.
use uld_fdpic.Common.{ℕ, zero, suc, ◌+◌, ◌≤◌, ◌<◌, ◌≡◌, refl, arith, ◌⊎◌, List, [], ◌∷◌, length}
use uld_fdpic.Mem.{Mem, w32, writes, update, read32, write32, cstr_scan, cstr, IsCstr}

pub read32-write32_self : (m : Mem) (a v : ℕ) → v < w32 → read32 (write32 m a v) a ≡ v
unfolding read32 write32
read32-write32_self m a v h = ground arith

-- A word is untouched by a write to another word's bytes.
pub read32-write32_apart :
    (m : Mem) (a b v : ℕ) → (a + 4 ≤ b) ⊎ (b + 4 ≤ a) → read32 (write32 m a v) b ≡ read32 m b
unfolding read32 write32
read32-write32_apart m a b v h = ground arith

pub write32_apart : (m : Mem) (a b v : ℕ) → (a + 4 ≤ b) ⊎ (b < a) → write32 m a v b ≡ m b
unfolding write32
write32_apart m a b v h = ground arith

cstr_scan-IsCstr :
    (k : ℕ) (m : Mem) (p : ℕ) (xs : List ℕ) → IsCstr m p xs → length xs < k → cstr_scan k m p ≡ xs
unfolding cstr_scan
cstr_scan-IsCstr zero m p xs h lt = absurd (omega arith)
cstr_scan-IsCstr (suc k) m p [] h lt = ground arith
cstr_scan-IsCstr (suc k) m p (x ∷ xs) h lt =
    ground (arith, cstr_scan-IsCstr k m (p + 1) xs h.2 (omega arith))

pub cstr-IsCstr : (m : Mem) (p : ℕ) (xs : List ℕ) → IsCstr m p xs → length xs < w32 → cstr m p ≡ xs
unfolding cstr
cstr-IsCstr m p xs h lt = cstr_scan-IsCstr w32 m p xs h lt

pub writes_before : (m : Mem) (a b : ℕ) (xs : List ℕ) → b < a → writes m a xs b ≡ m b
writes_before m a b [] h = refl
writes_before m a b (x ∷ xs) h =
    ground (arith, writes_before (update m a x) (a + 1) b xs (omega arith))

pub read32_agree :
    (m c : Mem) (a : ℕ) → ((b : ℕ) → a ≤ b → b < a + 4 → c b ≡ m b) → read32 c a ≡ read32 m a
unfolding read32
read32_agree m c a h = ground (arith, h a, h (a + 1), h (a + 2), h (a + 3))
