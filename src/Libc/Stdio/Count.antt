-- ===== src/Libc/Stdio/Count.antt =====
-- The printers return the number of characters that they write.
pub mod Formats
use mathlib.Core.Path.{subst}
use uld_fdpic.Common.{
  ℕ, zero, suc, ◌+◌, ◌-◌, ◌≤◌, ◌≡◌, refl, ap, ◌∙◌, arith, inl, inr, Bool, true, false, not, ◌&&◌,
  ◌||◌, Option, some, List, [], ◌∷◌, ◌++◌, ◌==◌, ltb, if◌then◌else◌, length, min, max, ℤ, pos,
  is_neg, Bool-cases,
}
use uld_fdpic.Mem.{Mem, cstr}
use uld_fdpic.Util.Number.{hex_text, dec_text, minus_sign}
use uld_fdpic.Libc.Stdio.{
  File, Flags, replicate, count_of, pad_loop, _uld_fwrite_pad, unless_eof, pad_if, fwrite_text,
  _uld_fwrite_hex, _uld_fwrite_str, fwrite_signed, _uld_fwrite_dec,
}
use uld_fdpic.Libc.Stdio.Format.{
  Mode, literal, directive, changes, conversion, no_flags, modifier, Printed, used, convert,
  then_count, flush, format_loop, _uld_vfprintf,
}

-- A device that takes all that it is given; `written` is the number of characters so far.
pub record IsTaking (S : Type 0) (stream : File S) (written : S → ℕ) : Type 0 where
  pub write_count : (buf : List ℕ) (s : S) → (stream.write_f stream.fd buf s).0 ≡ pos (length buf)
  pub write_all :
      (buf : List ℕ) (s : S) → written (stream.write_f stream.fd buf s).1 ≡ written s + length buf
  pub put_char : (c : ℕ) (s : S) → (stream.dputchar_f stream.fd c s).0 ≡ pos c
  pub put_one : (c : ℕ) (s : S) → written (stream.dputchar_f stream.fd c s).1 ≡ written s + 1

pub length-replicate : (n c : ℕ) → length (replicate n c) ≡ n
unfolding replicate
length-replicate zero c = refl
length-replicate (suc n) c = ap suc (length-replicate n c)

sizes :
    (ljust : Bool) (bytes width len front : ℕ)
    → bytes ≡ front + len
    → (if not ljust then width - bytes else 0) + (len + ((if ljust then width - bytes else 0) + 0))
      ≡ max bytes width - front
sizes true bytes width len front e = ground (arith, e)
sizes false bytes width len front e = ground (arith, e)

module _ (S : Type 0) (stream : File S) (written : S → ℕ) (takes : IsTaking S stream written) where
  -- A step that returns `k` and writes `n` characters.
  pub record Step (k n : ℕ) (s : S) (o : Option (ℤ × S)) : Type 0 where
    pub after : S
    pub returns : o ≡ some (pos k, after)
    pub size : written after ≡ written s + n

  -- A step, then another.
  Step-unless_eof :
      (k n j p : ℕ) (s : S) (o : Option (ℤ × S)) (next : S → Option (ℤ × S))
      → Step k n s o
      → ((t : S) → Step j p t (next t))
      → Step j (n + p) s (unless_eof stream next o)
  Step-unless_eof k n j p s o next first second =
      let later = second first.after in
      record {
        after = later.after;
        returns = ap (unless_eof stream next) first.returns ∙ later.returns;
        size = omega (arith, later.size, first.size);
      }

  Step-write :
      (text : List ℕ) (s : S)
      → Step (length text) (length text) s (some (stream.write_f stream.fd text s))
  Step-write text s = record {
    after = (stream.write_f stream.fd text s).1;
    returns = ap (λ r. some (r, (stream.write_f stream.fd text s).1)) (takes.write_count text s);
    size = takes.write_all text s;
  }

  Step-put : (c : ℕ) (s : S) → Step c 1 s (some (stream.dputchar_f stream.fd c s))
  Step-put c s = record {
    after = (stream.dputchar_f stream.fd c s).1;
    returns = ap (λ r. some (r, (stream.dputchar_f stream.fd c s).1)) (takes.put_char c s);
    size = takes.put_one c s;
  }

  pad_loop-round :
      (left count char c : ℕ) (s : S)
      → let buf = replicate (min (suc c) 10) char in
        let r = stream.write_f stream.fd buf s in
        r.0 ≡ pos (min (suc c) 10)
        → pad_loop stream (suc left) count char (suc c) s
          ≡ pad_loop stream left count char (suc c - min (suc c) 10) r.1
  unfolding pad_loop
  pad_loop-round left count char c s e =
      let fine = ap is_neg e in let n = ap count_of e in rw (pad_loop, fine, n) refl

  Step-pad_loop :
      (left count char c : ℕ) (s : S)
      → c ≤ left
      → Step count c s (pad_loop stream left count char c s)
  unfolding pad_loop
  Step-pad_loop zero count char zero s le = record { after = s; returns = refl; size = omega arith }
  Step-pad_loop zero count char (suc c) s le = absurd (omega (arith, le))
  Step-pad_loop (suc left) count char zero s le = record {
    after = s;
    returns = refl;
    size = omega arith;
  }
  Step-pad_loop (suc left) count char (suc c) s le =
      let k = min (suc c) 10 in
      let buf = replicate k char in
      let r = stream.write_f stream.fd buf s in
      let len = length-replicate k char in
      let round = pad_loop-round left count char c s (takes.write_count buf s ∙ ap pos len) in
      let ih = Step-pad_loop left count char (suc c - k) r.1 (omega (arith, le)) in
      record {
        after = ih.after;
        returns = round ∙ ih.returns;
        size = omega (arith, ih.size, takes.write_all buf s, len);
      }

  Step-pad_if :
      (side : Bool) (width bytes : ℕ) (zero_pad : Bool) (s : S)
      → (k : ℕ) × Step k
          (if side then width - bytes else 0)
          s
          (pad_if stream side width bytes zero_pad s)
  unfolding _uld_fwrite_pad
  Step-pad_if false width bytes zero_pad s =
      (0, record { after = s; returns = refl; size = omega arith })
  Step-pad_if true width bytes zero_pad s = elim (Bool-cases (ltb bytes width)) [
    | inl short ↦
        let step =
          Step-pad_loop (width - bytes) (width - bytes) (if zero_pad then 48 else 32)
            (width - bytes) s (omega arith) in
        (width - bytes, rw short step)
    | inr long ↦
        let none_left : width - bytes ≡ 0 = ground (arith, long) in
        (0, rw (long, none_left) (record { after = s; returns = refl; size = omega arith }))
  ]

  -- A text between its paddings, where `front` characters of `bytes` are written already.
  Step-fwrite_text :
      (text : List ℕ) (bytes width : ℕ) (flags : Flags) (front : ℕ) (s : S)
      → bytes ≡ front + length text
      → Step
          (max bytes width)
          (max bytes width - front)
          s
          (fwrite_text stream text bytes width flags s)
  unfolding fwrite_text
  Step-fwrite_text text bytes width flags front s e =
      let left = Step-pad_if (not flags.ljust) width bytes flags.zero_pad s in
      let right = λ (t : S). Step-pad_if flags.ljust width bytes false t in
      let last = λ (t : S).
        Step-unless_eof (right t).0 _ (max bytes width) 0 t _ _ (right t).1
          (λ u. record { after = u; returns = refl; size = omega arith }) in
      let all = Step-unless_eof left.0 _ (max bytes width) _ s _ _ left.1 (λ t.
        Step-unless_eof (length text) (length text) (max bytes width) _ t _ _ (Step-write text t)
          (λ u. last u)) in
      subst (λ n. Step (max bytes width) n s (fwrite_text stream text bytes width flags s))
        (sizes flags.ljust bytes width (length text) front e) all

  -- A printer that returns the number of characters that it writes.
  abbrev pub Counted : S → Option (ℤ × S) → Type 0
  Counted s o = (k : ℕ) × Step k k s o

  pub Counted-fwrite_text :
      (text : List ℕ) (width : ℕ) (flags : Flags) (s : S)
      → Counted s (fwrite_text stream text (length text) width flags s)
  Counted-fwrite_text text width flags s =
      let k = max (length text) width in
      let all : k - 0 ≡ k = omega arith in
      (
        k,
        subst (λ n. Step k n s (fwrite_text stream text (length text) width flags s)) all
            (Step-fwrite_text text (length text) width flags 0 s (omega arith)),
      )

  -- One character in front of a text that counts for one more.
  Counted-put :
      (c : ℕ) (text : List ℕ) (width : ℕ) (flags : Flags) (s : S)
      → Counted s (
          unless_eof stream
            (λ t. fwrite_text stream text (length text + 1) width flags t)
            (some (stream.dputchar_f stream.fd c s)))
  Counted-put c text width flags s =
      let k = max (length text + 1) width in
      let step =
        Step-unless_eof c 1 k (k - 1) s _
          (λ t. fwrite_text stream text (length text + 1) width flags t) (Step-put c s)
          (λ t. Step-fwrite_text text (length text + 1) width flags 1 t (omega arith)) in
      let n : 1 + (k - 1) ≡ k = omega arith in
      (
        k,
        subst
            (λ n. Step k n s (
              unless_eof stream (λ t. fwrite_text stream text (length text + 1) width flags t)
                (some (stream.dputchar_f stream.fd c s))))
            n step,
      )

  Counted-fwrite_signed :
      (text : List ℕ) (width : ℕ) (flags : Flags) (s : S)
      → Counted s (fwrite_signed stream text width flags s)
  unfolding fwrite_signed
  Counted-fwrite_signed [] width flags s = Counted-fwrite_text [] width flags s
  Counted-fwrite_signed (c ∷ cs) width flags s = elim (Bool-cases (c == minus_sign)) [
    | inl minus ↦
        let e : suc (length cs) ≡ length cs + 1 = omega arith in
        rw (fwrite_signed, minus, e) (Counted-put c cs width flags s)
    | inr plain ↦ elim (Bool-cases (flags.lspace && flags.signed)) [
      | inl blank ↦ rw (fwrite_signed, plain, blank) (Counted-put 32 (c ∷ cs) width flags s)
      | inr bare ↦ rw (fwrite_signed, plain, bare) (Counted-fwrite_text (c ∷ cs) width flags s)
    ]
  ]

  pub Counted-fwrite_dec :
      (v width : ℕ) (flags : Flags) (s : S) → Counted s (_uld_fwrite_dec stream v width flags s)
  unfolding _uld_fwrite_dec
  Counted-fwrite_dec v width flags s = Counted-fwrite_signed (dec_text v flags.signed) width flags s
