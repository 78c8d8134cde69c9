-- ===== src/Example/Print/Box.antt =====
-- What src/example/ex_lib_print.c draws, on a device that keeps the text it is given.
use mathlib.Core.Path.{subst}
use mathlib.Core.List.{append_assoc}
use uld_fdpic.Common.{
  ℕ, zero, suc, ◌-◌, ◌<◌, ◌≤◌, ◌≡◌, sym, ap, ◌∙◌, arith, Option, some, List, [], ◌∷◌, ◌++◌, length,
  max, ℤ, pos,
}
use uld_fdpic.Mem.{w32}
use uld_fdpic.Libc.Stdio.{File, newline, replicate}
use uld_fdpic.Print.{Printer, continue, result}
use uld_fdpic.Example.Print.{
  ex_print_nputchar, ex_print_box_top, ex_print_box_bottom, ex_print_box_text, ex_print_box,
  box_lines,
}
use uld_fdpic.Example.Print.Shows.{
  IsShowing, line, Shows, Shows-nothing, Shows-then, Shows-putc, Shows-nput_loop, Shows-line,
  Shows-printf,
}

-- A box around a text.
pub box_of : List ℕ → List ℕ
box_of text =
    let edge = replicate (length text) 45 in
    line 47 edge 92 ++ (line 124 text 124 ++ line 92 edge 47)

-- `y` lines of `x` blanks.
blank_lines : ℕ → ℕ → List ℕ
blank_lines zero x = []
blank_lines (suc y) x = line 124 (replicate x 32) 124 ++ blank_lines y x

pub blank_box : ℕ → ℕ → List ℕ
blank_box x y = let edge = replicate x 45 in line 47 edge 92 ++ (blank_lines y x ++ line 92 edge 47)

module _ (S : Type 0) (stdout : File S) (shown : S → List ℕ)
    (keeps : IsShowing S stdout shown) where
  -- A printer that returns 0, and adds `t` to the text.
  abbrev pub Draws : List ℕ → S → Option (ℤ × S) → Type 0
  Draws t s o = (after : S) × (o ≡ some (pos 0, after)) × (shown after ≡ shown s ++ t)

  Draws-then :
      (t u : List ℕ) (s : S) (o : Option (ℤ × S)) (q : Printer S)
      → Shows S stdout shown keeps t s o
      → ((v : S) → Draws u v (q v))
      → Draws (t ++ u) s (continue (λ r. q) o)
  Draws-then t u s o q first later =
      let next = later first.after in
      (
        next.0,
        ap (continue (λ r. q)) first.returns ∙ next.1,
        next.2 ∙ ap (λ x. x ++ u) first.text ∙ append_assoc (shown s) t u,
      )

  Draws-last :
      (t : List ℕ) (s : S) (o : Option (ℤ × S))
      → Shows S stdout shown keeps t s o
      → Draws t s (continue (λ r. result (pos 0)) o)
  Draws-last t s o first =
      (first.after, ap (continue (λ r. result (pos 0))) first.returns, first.text)

  -- On a device that keeps all it is given, and with the patience for its width,
  -- `ex_print_box_text` returns 0 for every text, and draws the text between two bars, with an edge of
  -- its length above and below.
  pub ex_print_box_text_lem :
      (patience : ℕ) (text : List ℕ) (s : S)
      → length text ≤ patience
      → length text < w32
      → Draws (box_of text) s (ex_print_box_text stdout patience (some text) s)
  unfolding ex_print_box_text ex_print_box_top ex_print_box_bottom box_of
  ex_print_box_text_lem patience text s enough word =
      let n = length text in
      let last = λ (u : S). Shows-line S stdout shown keeps patience 92 45 47 n u enough word in
      Draws-then _ _ s _ _ (Shows-line S stdout shown keeps patience 47 45 92 n s enough word) (λ t.
        Draws-then _ _ t _ _ (Shows-printf S stdout shown keeps text t)
          (λ u. Draws-last _ u _ (last u)))

  Shows-box_lines :
      (patience y x : ℕ) (s : S)
      → x ≤ patience
      → x < w32
      → Shows S stdout shown keeps (blank_lines y x) s (box_lines stdout patience y x s)
  unfolding box_lines blank_lines ex_print_nputchar
  Shows-box_lines patience zero x s enough word = Shows-nothing S stdout shown keeps (pos 0) s
  Shows-box_lines patience (suc y) x s enough word =
      let edge = replicate x 32 in
      let e = append_assoc edge (124 ∷ newline ∷ []) (blank_lines y x) in
      subst (λ t. Shows S stdout shown keeps (124 ∷ t) s (box_lines stdout patience (suc y) x s))
        (sym e)
        (Shows-then S stdout shown keeps (124 ∷ []) _ s _ _
          (Shows-putc S stdout shown keeps patience 124 s)
          (λ t.
            Shows-then S stdout shown keeps edge _ t _ _
              (Shows-nput_loop S stdout shown keeps patience patience 32 x t enough word)
              (λ u.
                Shows-then S stdout shown keeps (124 ∷ []) _ u _ _
                  (Shows-putc S stdout shown keeps patience 124 u)
                  (λ v.
                    Shows-then S stdout shown keeps (newline ∷ []) _ v _ _
                      (Shows-putc S stdout shown keeps patience newline v)
                      (λ w. Shows-box_lines patience y x w enough word)))))

  -- On a device that keeps all it is given, and with the patience for its width, `ex_print_box`
  -- returns 0 for every size, and draws a box of that size; a size below 2 counts as 2.
  pub ex_print_box_lem :
      (patience x y : ℕ) (s : S)
      → x ≤ patience
      → x < w32
      → Draws (blank_box (x - 2) (y - 2)) s (ex_print_box stdout patience x y s)
  unfolding ex_print_box ex_print_box_top ex_print_box_bottom blank_box
  ex_print_box_lem patience x y s enough word =
      let wide : max x 2 - 2 ≡ x - 2 = omega arith in
      let high : max y 2 - 2 ≡ y - 2 = omega arith in
      let less : x - 2 ≤ patience = omega (arith, enough) in
      let small : x - 2 < w32 = omega (arith, word) in
      rw (wide, high)
        (Draws-then _ _ s _ _
          (Shows-line S stdout shown keeps patience 47 45 92 (x - 2) s less small)
          (λ t. Draws-then _ _ t _ _ (Shows-box_lines patience (y - 2) (x - 2) t less small) (λ u.
            Draws-last _ u _
              (Shows-line S stdout shown keeps patience 92 45 47 (x - 2) u less small))))
