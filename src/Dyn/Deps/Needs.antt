-- ===== src/Dyn/Deps/Needs.antt =====
-- Lists of files in which each stands behind what it needs.
use mathlib.Core.Path.{subst}
use mathlib.Core.List.{append-nil, append_assoc}
use uld_fdpic.Common.{
  ℕ, suc, ◌<◌, ◌≡◌, refl, sym, ◌∙◌, arith, inl, inr, true, false, ◌||◌, some, List, [], ◌∷◌, ◌++◌,
  get_elem?, ℤ, Bool-cases, bytes_eq,
}
use uld_fdpic.Fs.{FsEntry, uld_fs_get_file_by_name}
use uld_fdpic.Dyn.Deps.{in_list}

-- The entry stands in the file table.
abbrev pub Listed : FsEntry → List FsEntry → Type 0
Listed fse files = (i : ℕ) × (get_elem? files i ≡ some fse)

pub by_name-Listed :
    (files : List FsEntry) (name : List ℕ) (dep : FsEntry)
    → uld_fs_get_file_by_name files name ≡ some dep
    → Listed dep files
unfolding uld_fs_get_file_by_name
by_name-Listed [] name dep e = cc
by_name-Listed (f ∷ fs) name dep e = elim (Bool-cases (bytes_eq f.name name)) [
  | inl hit ↦ (0, rw (hit, uld_fs_get_file_by_name) at e)
  | inr miss ↦
      let (i, got) = by_name-Listed fs name dep (rw (miss, uld_fs_get_file_by_name) at e) in
      (suc i, got)
]

pub in_list-append :
    (fse : FsEntry) (ds es : List FsEntry)
    → in_list fse (ds ++ es) ≡ (in_list fse ds || in_list fse es)
in_list-append fse [] es = refl
in_list-append fse (d ∷ ds) es = ground (arith, in_list-append fse ds es)

module _ (needs : FsEntry → ℤ × List (List ℕ)) (files : List FsEntry) where
  -- Every name is that of a file in the list.
  abbrev pub Met : List (List ℕ) → List FsEntry → Type 0
  Met [] ds = Unit
  Met (name ∷ names) ds =
      ((dep : FsEntry) × (uld_fs_get_file_by_name files name ≡ some dep) × (in_list dep ds ≡ true))
      × Met names ds

  -- Each of the files is new, and finds what it needs among those before it, `bs` included.
  abbrev pub Ordered : List FsEntry → List FsEntry → Type 0
  Ordered bs [] = Unit
  Ordered bs (d ∷ ds) = Met (needs d).1 bs × (in_list d bs ≡ false) × Ordered (bs ++ d ∷ []) ds

  pub Met-append :
      (names : List (List ℕ)) (ds es : List FsEntry) → Met names ds → Met names (ds ++ es)
  Met-append [] ds es h = tt
  Met-append (name ∷ names) ds es ((dep, found, there), h) =
      ((dep, found, in_list-append dep ds es ∙ rw there), Met-append names ds es h)

  pub Ordered-snoc :
      (bs ds : List FsEntry) (f : FsEntry)
      → Ordered bs ds
      → Met (needs f).1 (bs ++ ds)
      → in_list f (bs ++ ds) ≡ false
      → Ordered bs (ds ++ f ∷ [])
  Ordered-snoc bs [] f h met new =
      let e = append-nil bs in
      (subst (Met (needs f).1) e met, subst (λ l. in_list f l ≡ false) e new, tt)
  Ordered-snoc bs (d ∷ ds) f h met new =
      let e = sym (append_assoc bs (d ∷ []) ds) in
      (
        h.0,
        h.1,
        Ordered-snoc (bs ++ d ∷ []) ds f h.2 (subst (Met (needs f).1) e met)
            (subst (λ l. in_list f l ≡ false) e new),
      )

  -- A number for each file, by its address, that falls along every dependency.
  abbrev pub Falls : (ℕ → ℕ) → ℕ → List (List ℕ) → Type 0
  Falls rank b [] = Unit
  Falls rank b (name ∷ names) =
      ((dep : FsEntry) → uld_fs_get_file_by_name files name ≡ some dep → rank dep.at < b)
      × Falls rank b names

  abbrev pub IsAcyclic : (ℕ → ℕ) → Type 0
  IsAcyclic rank = (fse : FsEntry) → Listed fse files → Falls rank (rank fse.at) (needs fse).1
