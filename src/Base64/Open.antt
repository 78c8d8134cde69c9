-- ===== src/Base64/Open.antt =====
-- The states of the encoder between two calls: a line with room, a full one, and the start.
use mathlib.Core.Path.{subst}
use uld_fdpic.Common.{
  ℕ, ◌+◌, ◌-◌, ◌*◌, ◌/◌, ◌%◌, ◌<◌, ◌≤◌, ◌≡◌, ◌≢◌, refl, sym, arith, true, false, Option, List, [],
  ◌∷◌, ◌++◌, ◌==◌, length, ltb,
}
use uld_fdpic.Mem.{Mem}
use uld_fdpic.Base64.{State, init_state, encode_started, base64_encode}
use uld_fdpic.Base64.Holds.{Holds}
use uld_fdpic.Base64.Bytes.{Fits, IsLeft, IsPlain}

-- The state's line of whole groups, which is begun and has room for a group; or is full.
pub record IsLine (s : State) : Type 0 where
  pub init : s.init ≡ true
  pub final : s.final ≡ false
  pub groups : s.dest_len % 4 ≡ 1
  pub least : 5 ≤ s.dest_len
  pub most : s.dest_len < 256

pub record IsOpen (m : Mem) (dest : ℕ) (s : State) (cs : List ℕ) : Type 0 where
  pub line : IsLine s
  pub at : s.dest_pos ≡ length cs
  pub fits : Fits s.brem_len (s.dest_len - s.dest_pos)
  pub left : IsLeft s.brem_len s.brem
  pub holds : Holds m dest cs
  pub plain : IsPlain cs

pub record IsClosed (m : Mem) (dest : ℕ) (s : State) (cs : List ℕ) : Type 0 where
  pub line : IsLine s
  pub at : s.dest_pos ≡ s.dest_len
  pub whole : s.brem_len ≡ 0
  pub size : length cs + 1 ≡ s.dest_len
  pub holds : Holds m dest (cs ++ 0 ∷ [])
  pub plain : IsPlain cs

-- A call in the state `s` goes on as from the state `t`.
abbrev pub Starts : Mem → ℕ → State → State → Type 0
Starts m dest s t =
    (src : Option (List ℕ)) → base64_encode m dest src s ≡ encode_started m dest src t

pub open-Starts :
    (m : Mem) (dest : ℕ) (s : State) (cs : List ℕ)
    → dest ≢ 0
    → IsOpen m dest s cs
    → Starts m dest s s
unfolding base64_encode
open-Starts m dest s cs not_null h src =
    let not_full : (s.dest_pos == s.dest_len) ≡ false = ground (arith, h.fits.2) in
    let given : (dest == 0) ≡ false = ground (arith, not_null) in
    rw (base64_encode, given, h.line.final, h.line.init, not_full) refl

-- Behind a full line the next one starts.
abbrev pub reset : State → State
reset s = record s { dest_pos = 0 }

pub closed-Starts :
    (m : Mem) (dest : ℕ) (s : State) (cs : List ℕ)
    → dest ≢ 0
    → IsClosed m dest s cs
    → Starts m dest s (reset s)
unfolding base64_encode
closed-Starts m dest s cs not_null h src =
    let full : (s.dest_pos == s.dest_len) ≡ true = ground (arith, h.at) in
    let given : (dest == 0) ≡ false = ground (arith, not_null) in
    rw (base64_encode, given, h.line.final, h.line.init, full) refl

pub reset-IsOpen :
    (m : Mem) (dest : ℕ) (s : State) (cs : List ℕ)
    → IsClosed m dest s cs
    → IsOpen m dest (reset s) []
reset-IsOpen m dest s cs h = record {
  line = record {
    init = h.line.init;
    final = h.line.final;
    groups = h.line.groups;
    least = h.line.least;
    most = h.line.most;
  };
  at = refl;
  fits = (
    omega (arith, h.whole),
    omega (arith, h.whole, h.line.groups),
    omega (arith, h.line.least),
    omega (arith, h.line.most),
  );
  left = subst (λ k. IsLeft k s.brem) (sym h.whole) tt;
  holds = tt;
  plain = tt;
}

-- A state that was given its length only.
pub record IsFresh (s : State) : Type 0 where
  pub init : s.init ≡ false
  pub final : s.final ≡ false
  pub least : 5 ≤ s.dest_len
  pub most : s.dest_len < 256

pub fresh-Starts :
    (m : Mem) (dest : ℕ) (s : State) → dest ≢ 0 → IsFresh s → Starts m dest s (init_state s)
unfolding base64_encode
fresh-Starts m dest s not_null h src =
    let long : ltb s.dest_len 5 ≡ false = ground (arith, h.least) in
    let begun : (0 == (s.dest_len - 1) / 4 * 4 + 1) ≡ false = ground arith in
    let given : (dest == 0) ≡ false = ground (arith, not_null) in
    rw (base64_encode, given, h.final, h.init, long, begun) refl

pub fresh-IsOpen : (m : Mem) (dest : ℕ) (s : State) → IsFresh s → IsOpen m dest (init_state s) []
fresh-IsOpen m dest s h = rw h.init (record {
  line = record {
    init = refl;
    final = refl;
    groups = omega arith;
    least = omega (arith, h.least);
    most = omega (arith, h.most);
  };
  at = refl;
  fits = (omega arith, omega arith, omega (arith, h.least), omega (arith, h.most));
  left = tt;
  holds = tt;
  plain = tt;
})
