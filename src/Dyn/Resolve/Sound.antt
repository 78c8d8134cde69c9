-- ===== src/Dyn/Resolve/Sound.antt =====
-- Where a resolution that `uld_dyn_resolve_rel` reports comes from.
use uld_fdpic.Common.{ℕ, ◌≤◌, ◌≡◌, some, List, get_elem?}
use uld_fdpic.Mem.{Mem}
use uld_fdpic.File.{UldFile}
use uld_fdpic.Dyn.Resolve.{Resolution, note_symbol}
use uld_fdpic.Dyn.Resolve.Provided.{Matches, Provided}

module _ (m : Mem) (files : List UldFile) (rel rel_sym : ℕ) (name : List ℕ) (top rd_idx : ℕ) where
  -- One file that is searched, and its matching symbol.
  module _ (f : UldFile) (i s : ℕ) (res : Resolution) (here : get_elem? files i ≡ some f)
      (le : i ≤ top) (match : Matches m files rel rel_sym name top rd_idx f i s) where
    abbrev noted : Resolution
    noted = note_symbol m f i rel s res
