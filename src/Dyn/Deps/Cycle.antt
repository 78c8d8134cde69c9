-- ===== src/Dyn/Deps/Cycle.antt =====
-- A file that needs itself.
use uld_fdpic.Common.{ℕ, zero, suc, ◌≡◌, refl, false, none, some, List, ◌∷◌, ℤ, is_neg}
use uld_fdpic.Fs.{FsEntry, uld_fs_get_file_by_name}
use uld_fdpic.Dyn.Deps.{in_list, after_dep, after_name, visit_needed, add_fse, dep_list}

module _ (needs : FsEntry → ℤ × List (List ℕ)) (files : List FsEntry) (size : ℕ) (fse : FsEntry)
    (name : List ℕ) (names : List (List ℕ)) (first : (needs fse).1 ≡ name ∷ names)
    (itself : uld_fs_get_file_by_name files name ≡ some fse)
    (readable : is_neg (needs fse).0 ≡ false) where
  visit_itself :
      (depth : ℕ) (ds : List FsEntry)
      → dep_list needs files size depth fse ds ≡ none
      → visit_needed needs files size (dep_list needs files size depth) (needs fse).1 ds ≡ none
  unfolding visit_needed after_name after_dep
  visit_itself depth ds e = rw (first, itself, e)

  dep_list-suc :
      (depth : ℕ) (ds : List FsEntry)
      → in_list fse ds ≡ false
      → visit_needed needs files size (dep_list needs files size depth) (needs fse).1 ds ≡ none
      → dep_list needs files size (suc depth) fse ds ≡ none
  unfolding dep_list add_fse
  dep_list-suc depth ds new e = rw (new, readable, e)

  -- The search for a file whose first need is itself does not return in any depth: the file is
  -- put in the list only behind its needs, so that the recursion does not find it there.
  pub dep_list-none :
      (depth : ℕ) (ds : List FsEntry)
      → in_list fse ds ≡ false
      → dep_list needs files size depth fse ds ≡ none
  dep_list-none zero ds new = unfold dep_list in refl
  dep_list-none (suc depth) ds new =
      dep_list-suc depth ds new (visit_itself depth ds (dep_list-none depth ds new))
