-- ===== src/Example/Print/Shows.antt =====
-- Printers that add a text to what a device shows, and those of src/example/ex_lib_print.c for a line.
use mathlib.Core.List.{append-nil, append_assoc}
use uld_fdpic.Common.{
  ℕ, zero, suc, ◌+◌, ◌-◌, ◌%◌, ◌<◌, ◌≤◌, ◌≡◌, refl, sym, ap, ◌∙◌, arith, false, ltb, Option, some,
  List, [], ◌∷◌, ◌++◌, length, min, max, ℤ, pos, word_of,
}
use uld_fdpic.Mem.{w32, sub32}
use uld_fdpic.Libc.Stdio.{
  File, newline, replicate, _uld_fwrite, _uld_putc, _uld_fwrite_str, fwrite_text,
}
use uld_fdpic.Libc.Stdio.Count.{IsTaking, length-replicate}
use uld_fdpic.Libc.Stdio.Format.{
  no_flags, literal, then_count, used, format_loop, modifier, convert, _uld_fprintf, _uld_vfprintf,
}
use uld_fdpic.Print.{Printer, continue, result, str, chars, arg, fprintf}
use uld_fdpic.Example.Print.{putc, nput_loop, ex_print_nputchar, ex_print_lmr}
use uld_fdpic.Example.Print.Returns.{_uld_fwrite_all, nput_loop-round}

-- A device that keeps all it is given; `shown` is its text so far.
pub record IsShowing (S : Type 0) (stream : File S) (shown : S → List ℕ) : Type 0 where
  pub taking : IsTaking S stream (λ s. length (shown s))
  pub show_all : (buf : List ℕ) (s : S) → shown (stream.write_f stream.fd buf s).1 ≡ shown s ++ buf
  pub show_one : (c : ℕ) (s : S) → shown (stream.dputchar_f stream.fd c s).1 ≡ shown s ++ c ∷ []

-- One line: a left and a right character around others.
abbrev pub line : ℕ → List ℕ → ℕ → List ℕ
line left middle right = left ∷ (middle ++ right ∷ newline ∷ [])

replicate-add : (a b c : ℕ) → replicate a c ++ replicate b c ≡ replicate (a + b) c
unfolding replicate
replicate-add zero b c = ap (λ n. replicate n c) (omega arith)
replicate-add (suc a) b c =
    let e : suc a + b ≡ suc (a + b) = omega arith in
    ap (λ xs. c ∷ xs) (replicate-add a b c) ∙ sym (ap (λ n. replicate n c) e)

module _ (S : Type 0) (stdout : File S) (shown : S → List ℕ)
    (keeps : IsShowing S stdout shown) where
  -- A printer that returns, and adds `t` to the text.
  pub record Shows (t : List ℕ) (s : S) (o : Option (ℤ × S)) : Type 0 where
    pub value : ℤ
    pub after : S
    pub returns : o ≡ some (value, after)
    pub text : shown after ≡ shown s ++ t

  pub Shows-then :
      (t u : List ℕ) (s : S) (o : Option (ℤ × S)) (q : Printer S)
      → Shows t s o
      → ((v : S) → Shows u v (q v))
      → Shows (t ++ u) s (continue (λ r. q) o)
  Shows-then t u s o q first later =
      let next = later first.after in
      record {
        value = next.value;
        after = next.after;
        returns = ap (continue (λ r. q)) first.returns ∙ next.returns;
        text = next.text ∙ ap (λ x. x ++ u) first.text ∙ append_assoc (shown s) t u;
      }

  pub Shows-nothing : (r : ℤ) (s : S) → Shows [] s (result r s)
  Shows-nothing r s = record {
    value = r;
    after = s;
    returns = refl;
    text = sym (append-nil (shown s));
  }

  pub Shows-putc : (patience c : ℕ) (s : S) → Shows (c ∷ []) s (putc stdout patience c s)
  unfolding _uld_putc
  Shows-putc patience c s = record {
    value = _;
    after = (stdout.dputchar_f stdout.fd c s).1;
    returns = refl;
    text = keeps.show_one c s;
  }

  abbrev written : S → ℕ
  written s = length (shown s)

  fwrite-show : (buf : List ℕ) (s : S) → shown (_uld_fwrite stdout buf 1 s).1 ≡ shown s ++ buf
  unfolding _uld_fwrite
  fwrite-show buf s = rw (keeps.taking.write_count buf s) (keeps.show_all buf s)

  pub Shows-nput_loop :
      (patience left c n : ℕ) (s : S)
      → n ≤ left
      → n < w32
      → Shows (replicate n c) s (nput_loop stdout patience left c n s)
  unfolding nput_loop replicate
  Shows-nput_loop patience zero c zero s enough word = Shows-nothing (pos 0) s
  Shows-nput_loop patience zero c (suc n) s enough word = absurd (omega (arith, enough))
  Shows-nput_loop patience (suc left) c zero s enough word = Shows-nothing (pos 0) s
  Shows-nput_loop patience (suc left) c (suc n) s enough word =
      let k = min (suc n) 16 in
      let buf = replicate k c in
      let r = _uld_fwrite stdout buf 1 s in
      let all : r.0 ≡ k =
        _uld_fwrite_all S stdout written keeps.taking buf s ∙ length-replicate k c in
      let e : sub32 (suc n) r.0 ≡ suc n - k = ap (sub32 (suc n)) all ∙ ground (arith, word) in
      let ih =
        Shows-nput_loop patience left c (suc n - k) r.1 (omega (arith, enough))
          (omega (arith, word)) in
      let sum : k + (suc n - k) ≡ suc n = omega arith in
      record {
        value = ih.value;
        after = ih.after;
        returns =
            nput_loop-round S stdout written keeps.taking patience left c n s
            ∙ ap (λ x. nput_loop stdout patience left c x r.1) e
            ∙ ih.returns;
        text =
            ih.text
            ∙ ap (λ x. x ++ replicate (suc n - k) c) (fwrite-show buf s)
            ∙ append_assoc (shown s) buf (replicate (suc n - k) c)
            ∙ ap (λ x. shown s ++ x) (replicate-add k (suc n - k) c)
            ∙ ap (λ x. shown s ++ replicate x c) sum;
      }

  pub Shows-line :
      (patience left middle right n : ℕ) (s : S)
      → n ≤ patience
      → n < w32
      → Shows
          (line left (replicate n middle) right)
          s
          (ex_print_lmr stdout patience left middle right n s)
  unfolding ex_print_lmr ex_print_nputchar
  Shows-line patience left middle right n s enough word =
      Shows-then (left ∷ []) _ s _ _ (Shows-putc patience left s) (λ t.
        Shows-then (replicate n middle) _ t _ _
          (Shows-nput_loop patience patience middle n t enough word)
          (λ u.
            Shows-then (right ∷ []) _ u _ _ (Shows-putc patience right u)
              (λ v. Shows-putc patience newline v)))

  fwrite_str-none :
      (text : List ℕ) (s : S)
      → _uld_fwrite_str stdout text 0 no_flags s
        ≡ some (pos (max (length text) 0), (stdout.write_f stdout.fd text s).1)
  unfolding _uld_fwrite_str fwrite_text
  fwrite_str-none text s =
      let none_left : ltb (length text) 0 ≡ false = ground arith in
      rw (fwrite_text, none_left, keeps.taking.write_count text s) refl

  pub Shows-printf :
      (text : List ℕ) (s : S)
      → Shows (line 124 text 124) s (fprintf stdout "|%s|\n" (str text ∷ []) s)
  unfolding fprintf _uld_fprintf _uld_vfprintf format_loop modifier convert chars arg
  Shows-printf text s =
      let va = arg (str text ∷ []) in
      let write = λ (t : List ℕ) (s : S). (stdout.write_f stdout.fd t s).1 in
      record {
        value = _;
        after = write (124 ∷ 10 ∷ []) (write text (write (124 ∷ []) s));
        returns =
            ap
              (λ o.
                then_count stdout va ((0 + word_of (stdout.write_f stdout.fd (124 ∷ []) s).0) % w32)
                  (λ n j t. format_loop stdout va (literal false []) (124 ∷ 10 ∷ []) n j t)
                  (used 1 o))
              (fwrite_str-none text (write (124 ∷ []) s));
        text =
            keeps.show_all (124 ∷ 10 ∷ []) (write text (write (124 ∷ []) s))
            ∙ ap (λ x. x ++ 124 ∷ 10 ∷ [])
                (keeps.show_all text (write (124 ∷ []) s)
                  ∙ ap (λ x. x ++ text) (keeps.show_all (124 ∷ []) s))
            ∙ ap (λ x. x ++ 124 ∷ 10 ∷ []) (append_assoc (shown s) (124 ∷ []) text)
            ∙ append_assoc (shown s) (124 ∷ text) (124 ∷ 10 ∷ []);
      }
