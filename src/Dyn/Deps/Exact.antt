-- ===== src/Dyn/Deps/Exact.antt =====
-- A list of dependencies that was found with some room is found with just the room that it needs.
use uld_fdpic.Common.{
  ℕ, zero, suc, ◌+◌, ◌≤◌, ◌≡◌, refl, sym, ap, ◌∙◌, arith, inl, inr, Bool, true, false, Option, none,
  some, List, [], ◌∷◌, ◌++◌, ◌==◌, if◌then◌else◌, length, length-append, ℤ, pos, negsuc, is_neg,
  Bool-cases,
}
use uld_fdpic.Fs.{FsEntry, uld_fs_get_file_by_name}
use uld_fdpic.Dyn.Deps.{Deps, in_list, after_dep, after_name, visit_needed, add_fse, dep_list}

-- A run that succeeds grows the list, and so does the other run, with room for the result.
abbrev Same : ℕ → List FsEntry → Deps → Deps → Type 0
Same size ds r other =
    (ds' : List FsEntry)
    → r ≡ some (pos 0, ds')
    → (length ds ≤ length ds') × (length ds' ≤ size → other ≡ some (pos 0, ds'))

module _ (needs : FsEntry → ℤ × List (List ℕ)) (files : List FsEntry) (room size : ℕ) where
  kept : (ds : List FsEntry) → Same size ds (some (pos 0, ds)) (some (pos 0, ds))
  kept ds ds' e =
      let same : ds ≡ ds' = cc in
      (omega (arith, ap length same), λ fits. ap (λ l. some (pos 0, l)) same)

  after_dep-Same :
      (ds : List FsEntry) (rest other_rest : List FsEntry → Deps) (r other : Deps)
      → Same size ds r other
      → ((ds' : List FsEntry) → Same size ds' (rest ds') (other_rest ds'))
      → Same size ds (after_dep rest r) (after_dep other_rest other)
  unfolding after_dep
  after_dep-Same ds rest other_rest none other h k ds'' e = cc
  after_dep-Same ds rest other_rest (some (pos (suc n), ds')) other h k ds'' e =
      absurd (ground (arith, e))
  after_dep-Same ds rest other_rest (some (negsuc n, ds')) other h k ds'' e =
      absurd (ground (arith, e))
  after_dep-Same ds rest other_rest (some (pos zero, ds')) other h k ds'' e =
      let first = h ds' refl in
      let later = k ds' ds'' e in
      (
        omega (arith, first.0, later.0),
        λ fits. ap (after_dep other_rest) (first.1 (omega (arith, fits, later.0))) ∙ later.1 fits,
      )

  after_name-Same :
      (visit other : FsEntry → List FsEntry → Deps) (rest other_rest : List FsEntry → Deps)
      (ds : List FsEntry) (o : Option FsEntry)
      → ((dep : FsEntry) (es : List FsEntry) → Same size es (visit dep es) (other dep es))
      → ((ds' : List FsEntry) → Same size ds' (rest ds') (other_rest ds'))
      → Same size ds (after_name rest visit ds o) (after_name other_rest other ds o)
  unfolding after_name
  after_name-Same visit other rest other_rest ds none h k = λ ds' e. absurd (ground (arith, e))
  after_name-Same visit other rest other_rest ds (some dep) h k =
      after_dep-Same ds rest other_rest (visit dep ds) (other dep ds) (h dep ds) k

  visit_needed-Same :
      (visit other : FsEntry → List FsEntry → Deps)
      → ((dep : FsEntry) (es : List FsEntry) → Same size es (visit dep es) (other dep es))
      → (names : List (List ℕ)) (ds : List FsEntry)
      → Same size ds
          (visit_needed needs files room visit names ds)
          (visit_needed needs files size other names ds)
  unfolding visit_needed
  visit_needed-Same visit other h [] ds = kept ds
  visit_needed-Same visit other h (name ∷ names) ds =
      after_name-Same visit other (visit_needed needs files room visit names)
        (visit_needed needs files size other names) ds (uld_fs_get_file_by_name files name) h
        (λ ds'. visit_needed-Same visit other h names ds')

  add_fse-Same :
      (fse : FsEntry) (ds : List FsEntry) (r other : Deps)
      → Same size ds r other
      → Same size ds (add_fse needs files room fse r) (add_fse needs files size fse other)
  unfolding add_fse
  add_fse-Same fse ds none other h ds'' e = cc
  add_fse-Same fse ds (some (pos (suc n), ds')) other h ds'' e = absurd (ground (arith, e))
  add_fse-Same fse ds (some (negsuc n, ds')) other h ds'' e = absurd (ground (arith, e))
  add_fse-Same fse ds (some (pos zero, ds')) other h ds'' e =
      elim (Bool-cases (length ds' == room)) [
        | inl full ↦
            let code : ◌≡◌ {A = Deps} (some (negsuc 1, ds')) (some (pos 0, ds'')) =
              rw (full, add_fse) at e in
            absurd (ground (arith, code))
        | inr free ↦
            let added : ◌≡◌ {A = Deps} (some (pos 0, ds' ++ fse ∷ [])) (some (pos 0, ds'')) =
              rw (free, add_fse) at e in
            let same : ds' ++ fse ∷ [] ≡ ds'' = cc in
            let len : length ds'' ≡ length ds' + 1 =
              ap length (sym same) ∙ length-append ds' (fse ∷ []) in
            let first = h ds' refl in
            (
              omega (arith, len, first.0),
              λ fits.
                  let fine : (length ds' == size) ≡ false = ground (arith, len, fits) in
                  ap (add_fse needs files size fse) (first.1 (omega (arith, len, fits)))
                  ∙ rw (add_fse, fine) (ap (λ l. some (pos 0, l)) same),
            )
      ]

  choose-Same :
      (old : Bool) (code : ℤ) (ds : List FsEntry) (r other : Deps)
      → Same size ds r other
      → Same size ds
          (if old then some (pos 0, ds) else if is_neg code then some (code, ds) else r)
          (if old then some (pos 0, ds) else if is_neg code then some (code, ds) else other)
  choose-Same true code ds r other h = kept ds
  choose-Same false (pos n) ds r other h = h
  choose-Same false (negsuc n) ds r other h = λ ds' e. absurd (ground (arith, e))

  pub dep_list-Same :
      (depth : ℕ) (fse : FsEntry) (ds : List FsEntry)
      → Same size ds
          (dep_list needs files room depth fse ds)
          (dep_list needs files size depth fse ds)
  unfolding dep_list
  dep_list-Same zero fse ds = λ ds' e. cc
  dep_list-Same (suc depth) fse ds = choose-Same (in_list fse ds) (needs fse).0 ds _ _ (
      add_fse-Same fse ds _ _ (
        visit_needed-Same (dep_list needs files room depth) (dep_list needs files size depth)
          (λ dep es. dep_list-Same depth dep es) (needs fse).1 ds))
