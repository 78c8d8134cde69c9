-- ===== src/Tests/Needs.antt =====
-- The file "a" that needs the file "b", and a file that needs itself.
use mathlib.Core.Path.{subst}
use uld_fdpic.Common.{
  ℕ, zero, suc, ◌≡◌, ◌<◌, refl, arith, some, none, List, [], ◌∷◌, ℤ, pos, if◌then◌else◌, ◌==◌,
}
use uld_fdpic.Fs.{FsEntry, uld_fs_get_file_by_name}
use uld_fdpic.Dyn.Deps.{dep_list, add_fse, visit_needed}
use uld_fdpic.Dyn.Deps.Needs.{Falls, IsAcyclic}
use uld_fdpic.Dyn.Deps.Order.{Reached, dep_list-Reached}
use uld_fdpic.Dyn.Deps.Cycle.{dep_list-none}
use uld_fdpic.Tests.{file_a, file_b}

abbrev files : List FsEntry
files = file_a ∷ file_b ∷ []

abbrev needs : FsEntry → ℤ × List (List ℕ)
needs f = (pos 0, if f.at == 1 then (98 ∷ []) ∷ [] else [])

abbrev rank : ℕ → ℕ
rank at = if at == 1 then 1 else 0

-- "b" comes before "a".
order_a : dep_list needs files 2 2 file_a [] ≡ some (pos 0, file_b ∷ file_a ∷ [])
unfolding dep_list add_fse visit_needed uld_fs_get_file_by_name
order_a = refl

acyclic : IsAcyclic needs files rank
unfolding uld_fs_get_file_by_name
acyclic fse (zero, got) =
    let same : file_a ≡ fse = cc in
    subst (λ f. Falls needs files rank (rank f.at) (needs f).1) same
      (
        λ dep found. let is_b : file_b ≡ dep = cc in subst (λ d. rank d.at < 1) is_b (omega arith),
        tt,
      )
acyclic fse (suc zero, got) =
    let same : file_b ≡ fse = cc in
    subst (λ f. Falls needs files rank (rank f.at) (needs f).1) same tt
acyclic fse (suc (suc i), got) = cc

dep_list-Reached_example :
    Reached needs files 2 rank acyclic file_a [] (dep_list needs files 2 2 file_a [])
dep_list-Reached_example =
    dep_list-Reached needs files 2 rank acyclic 2 file_a [] (0, refl) (omega arith)
      (tt, omega arith)

abbrev self_needs : FsEntry → ℤ × List (List ℕ)
self_needs f = (pos 0, (97 ∷ []) ∷ [])

dep_list-none_example : dep_list self_needs files 2 9 file_a [] ≡ none
dep_list-none_example =
    dep_list-none self_needs files 2 file_a (97 ∷ []) [] refl
      (unfold uld_fs_get_file_by_name in refl) refl 9 [] refl
