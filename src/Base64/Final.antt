-- ===== src/Base64/Final.antt =====
-- The end of the output, and the output as a whole.
use mathlib.Core.List.{append-nil, append_assoc}
use mathlib.Core.Path.{subst}
use uld_fdpic.Common.{
  ℕ, zero, suc, ◌+◌, ◌*◌, ◌-◌, ◌<◌, ◌≤◌, ◌≡◌, ◌≢◌, refl, sym, ap, ◌∙◌, arith, true, false, some,
  List, [], ◌∷◌, ◌++◌, ◌==◌, if◌then◌else◌, length, length-append, ℤ, pos, is_neg, is_zero,
}
use uld_fdpic.Mem.{Mem, w32, writes}
use uld_fdpic.Base64.{State, Encoded, encode_final, encode_started, base64_final}
use uld_fdpic.Base64.Calls.{final_line}
use uld_fdpic.Base64.Text.{text_from, char_lem}
use uld_fdpic.Base64.Bytes.{Fits, IsLeft, IsPlain}
use uld_fdpic.Base64.Holds.{Holds, IsPlain-append}
use uld_fdpic.Base64.Buffer.{written-Holds}
use uld_fdpic.Base64.Open.{IsOpen, IsClosed, closed-Starts, open-Starts}

-- The buffer has the line `cs`, and the state its length with the NUL.
pub record IsEnded (m : Mem) (dest : ℕ) (s : State) (cs : List ℕ) : Type 0 where
  pub holds : Holds m dest (cs ++ 0 ∷ [])
  pub plain : IsPlain cs
  pub size : (if s.dest_pos == 0 then s.dest_len else s.dest_pos) ≡ length cs + 1
  pub short : length cs < w32

-- The padding, and its NUL, behind the characters in the buffer.
encode_final_lem :
    (k : ℕ) (m : Mem) (dest : ℕ) (s : State)
    → IsLeft k s.brem
    → Fits k (s.dest_len - s.dest_pos)
    → s.dest_len < 256
    → let r = encode_final m dest k s in
      let tail = text_from s.brem k [] in
      (r.ret ≡ pos 0)
      × (r.memory ≡ writes m (dest + s.dest_pos) (tail ++ 0 ∷ []))
      × IsPlain tail
      × (r.state.dest_pos ≡ s.dest_pos + length tail + 1)
unfolding encode_final text_from
encode_final_lem zero m dest s low fits small = (refl, refl, tt, omega (arith, fits.2, small))
encode_final_lem (suc zero) m dest s low fits small = (
  refl,
  refl,
  ((char_lem (s.brem * 16) (omega (arith, low))).1, (ground arith, (ground arith, tt))),
  omega (arith, fits.1, fits.2, small),
)
encode_final_lem (suc (suc zero)) m dest s low fits small = (
  refl,
  refl,
  ((char_lem (s.brem * 4) (omega (arith, low))).1, (ground arith, tt)),
  omega (arith, fits.1, fits.2, small),
)
encode_final_lem (suc (suc (suc k))) m dest s low fits small = absurd (omega (arith, fits.0))

-- The last call leaves the whole line in the buffer.
abbrev pub Ended : ℕ → List ℕ → Encoded → Type 0
Ended dest line r = (r.ret ≡ pos 0) × IsEnded r.memory dest r.state line

tail_short : (r k : ℕ) → length (text_from r k []) ≤ 3
unfolding text_from
tail_short r zero = omega arith
tail_short r (suc zero) = omega arith
tail_short r (suc (suc k)) = omega arith

started_final :
    (m : Mem) (dest : ℕ) (s : State)
    → (s.dest_pos == 0) ≡ false
    → encode_started m dest (some []) s ≡ encode_final m dest s.brem_len s
unfolding encode_started
started_final m dest s begun = rw begun refl

pub final-open :
    (m : Mem) (dest : ℕ) (s : State) (ds : List ℕ)
    → dest ≢ 0
    → 0 < length ds
    → IsOpen m dest s ds
    → Ended dest (ds ++ text_from s.brem s.brem_len []) (base64_final m dest s)
unfolding base64_final encode_started
final-open m dest s ds not_null some_text h =
    let tail = text_from s.brem s.brem_len [] in
    let r = encode_final m dest s.brem_len s in
    let (ret, mem, plain, at) = encode_final_lem s.brem_len m dest s h.left h.fits h.line.most in
    let begun : (s.dest_pos == 0) ≡ false = ground (arith, h.at, some_text) in
    let len = length-append ds tail in
    let r_eq : base64_final m dest s ≡ r =
      open-Starts m dest s ds not_null h (some []) ∙ started_final m dest s begun in
    let here : (r.state.dest_pos == 0) ≡ false = ground (arith, at) in
    let room : length ds + length tail < w32 =
      omega (arith, tail_short s.brem s.brem_len, h.at, h.fits.2, h.line.most) in
    subst (Ended dest (ds ++ tail)) (sym r_eq) (
      ret,
      record {
        holds =
            subst (λ t. Holds r.memory dest t) (sym (append_assoc ds tail (0 ∷ [])))
              (written-Holds m dest s ds h r.memory (tail ++ 0 ∷ []) mem);
        plain = IsPlain-append ds tail h.plain plain;
        size = rw here (omega (arith, at, h.at, len));
        short = omega (arith, len, room);
      },
    )

pub final-closed :
    (m : Mem) (dest : ℕ) (s : State) (ds : List ℕ)
    → dest ≢ 0
    → IsClosed m dest s ds
    → Ended dest (ds ++ text_from s.brem s.brem_len []) (base64_final m dest s)
unfolding base64_final encode_started text_from
final-closed m dest s ds not_null h =
    let none_left : ds ++ text_from s.brem s.brem_len [] ≡ ds =
      ap (λ k. ds ++ text_from s.brem k []) h.whole ∙ append-nil ds in
    subst (λ line. Ended dest line (base64_final m dest s)) (sym none_left)
      (subst (Ended dest ds) (sym (closed-Starts m dest s ds not_null h (some []))) (
        refl,
        record {
          holds = h.holds;
          plain = h.plain;
          size = sym h.size;
          short = omega (arith, h.size, h.line.most);
        },
      ))

-- The last line, through the callback.
module _ (cb : List ℕ → ℤ) (send : Mem → ℕ → State → List ℕ)
    (never : (line : List ℕ) → is_neg (cb line) ≡ false)
    (sends : (m : Mem) (dest : ℕ) (s : State) (cs : List ℕ)
      → IsEnded m dest s cs
      → send m dest s ≡ cs) where
  pub final_line-Ended :
      (m : Mem) (dest : ℕ) (s : State) (line : List ℕ)
      → Ended dest line (base64_final m dest s)
      → let o = final_line cb send m dest s in (o.ret ≡ pos 0) × (o.lines ≡ line ∷ [])
  unfolding final_line
  final_line-Ended m dest s line (done, h) =
      let r = base64_final m dest s in
      let fine : is_zero r.ret ≡ true = ap is_zero done in
      let sent = sends r.memory dest r.state line h in
      rw (fine, never (send r.memory dest r.state)) (refl, ap (λ l. l ∷ []) sent)
