-- ===== src/Dyn/Link/Walk.antt =====
-- Linking as steps: in front of a file, in front of a relocation of its table, and behind.
use mathlib.Core.Bool.{true≢false}
use uld_fdpic.Common.{
  ℕ, zero, suc, ◌+◌, ◌^◌, ◌≡◌, refl, ◌∙◌, arith, ◌⊎◌, inl, inr, Bool, true, false, not, ◌||◌,
  Option, none, some, List, [], ◌∷◌, ◌==◌, ltb, length, get_elem?, ℤ, negsuc, is_nonzero,
  Bool-cases, Option-cases,
}
use uld_fdpic.Mem.{Mem, null}
use uld_fdpic.Sal.{Section}
use uld_fdpic.File.{UldFile}
use uld_fdpic.Dyn.Symbols.{sec_dynsym, sec_dynstr}
use uld_fdpic.Dyn.Resolve.{Resolution, sec_rel_dyn, rel_at, rel_count}
use uld_fdpic.Dyn.Link.{
  Linker, is_missing, link_rel, after_rel, link_rels, link_file, link_files, uld_dyn_link_file_list,
}
use uld_fdpic.Dyn.Link.Touched.{There}
use uld_fdpic.Dyn.Link.Reached.{Touches, link_rel-Changes}

module _ (files : List UldFile) (start : Linker) where
  -- The states in front of a file, without a table, and in front of the relocation `idx` of the table
  -- of the file, as linking reaches them from `start`.
  pub data At : ℕ → Option (Section × ℕ) → Linker → Type 0 where
    first : At 0 none start
    passes :
        {i : ℕ} {f : UldFile} {st : Linker}
        → At i none st
        → get_elem? files i ≡ some f
        → sec_rel_dyn st.memory f ≡ none
        → At (i + 1) none st
    enters :
        {i : ℕ} {f : UldFile} {t : Section} {st : Linker}
        → At i none st
        → get_elem? files i ≡ some f
        → sec_rel_dyn st.memory f ≡ some t
        → At i (some (t, 0)) st
    links :
        {i idx : ℕ} {f : UldFile} {t : Section} {st : Linker}
        → At i (some (t, idx)) st
        → get_elem? files i ≡ some f
        → ltb idx (rel_count st.memory (some t)) ≡ true
        → is_nonzero (link_rel files i f (rel_at t.adjusted_lma idx) idx st).0 ≡ false
        → At i (some (t, idx + 1)) (link_rel files i f (rel_at t.adjusted_lma idx) idx st).1
    leaves :
        {i idx : ℕ} {t : Section} {st : Linker}
        → At i (some (t, idx)) st
        → (ltb idx (rel_count st.memory (some t)) ≡ false) ⊎ (idx ≡ 2 ^ 29)
        → At (i + 1) none st

  -- A relocation that linking reaches, with a place in memory, may write the byte.
  pub record IsTouched (a : ℕ) : Type 0 where
    pub i : ℕ
    pub idx : ℕ
    pub file : UldFile
    pub table : Section
    pub st : Linker
    pub reached : At i (some (table, idx)) st
    pub is_file : get_elem? files i ≡ some file
    pub is_entry : ltb idx (rel_count st.memory (some table)) ≡ true
    pub there : There files file (rel_at table.adjusted_lma idx) st.memory
    pub touches : Touches files i file (rel_at table.adjusted_lma idx) idx st a

  abbrev Bytes : Linker → Linker → Type 0
  Bytes st after = (a : ℕ) → (after.memory a ≡ st.memory a) ⊎ IsTouched a

  Bytes-then : (s t u : Linker) → Bytes s t → Bytes t u → Bytes s u
  Bytes-then s t u early late a = elim (late a) [
    | inr touched ↦ inr touched
    | inl same ↦ elim (early a) [ inr touched ↦ inr touched | inl before ↦ inl (same ∙ before) ]
  ]

  -- A part of the linking: what it may change, and where it ends if it does not fail.
  record Goes (i : ℕ) (st : Linker) (r : ℤ × Linker) : Type 0 where
    bytes : Bytes st r.1
    ends : is_nonzero r.0 ≡ false → At i none r.1

  fails : (i : ℕ) (st : Linker) → Goes i st (negsuc 0, st)
  fails i st = record { bytes = λ a. inl refl; ends = λ e. absurd (true≢false e) }

  Goes-after_rel :
      (i : ℕ) (st : Linker) (rest : Linker → ℤ × Linker) (r : ℤ × Linker)
      → Bytes st r.1
      → (is_nonzero r.0 ≡ false → Goes i r.1 (rest r.1))
      → Goes i st (after_rel rest r)
  Goes-after_rel i st rest r bytes step = elim (Bool-cases (is_nonzero r.0)) [
    | inl failed ↦ rw failed (record { bytes = bytes; ends = λ e. absurd (true≢false e) })
    | inr fine ↦
        let next = step fine in
        rw fine
          (record { bytes = Bytes-then st r.1 (rest r.1).1 bytes next.bytes; ends = next.ends })
  ]

  Goes-link_rels :
      (i : ℕ) (f : UldFile) (t : Section) (left idx : ℕ) (st : Linker)
      → get_elem? files i ≡ some f
      → left + idx ≡ 2 ^ 29
      → At i (some (t, idx)) st
      → Goes (i + 1) st (link_rels files i f t left idx st)
  unfolding link_rels
  Goes-link_rels i f t zero idx st is_file sum here = record {
    bytes = λ a. inl refl;
    ends = λ e. leaves here (inr (omega (arith, sum)));
  }
  Goes-link_rels i f t (suc left) idx st is_file sum here =
      elim (Bool-cases (ltb idx (rel_count st.memory (some t)))) [
        | inr done ↦
            rw (link_rels, done)
              (record { bytes = λ a. inl refl; ends = λ e. leaves here (inl done) })
        | inl more ↦
            let rel = rel_at t.adjusted_lma idx in
            rw (link_rels, more)
              (Goes-after_rel (i + 1) st (λ s. link_rels files i f t left (idx + 1) s)
                (link_rel files i f rel idx st)
                (λ a. elim (link_rel-Changes files i f rel idx st a) [
                  | inl same ↦ inl same
                  | inr (there, touches) ↦ inr (record {
                    i = i;
                    idx = idx;
                    file = f;
                    table = t;
                    st = st;
                    reached = here;
                    is_file = is_file;
                    is_entry = more;
                    there = there;
                    touches = touches;
                  })
                ])
                (λ fine.
                  Goes-link_rels i f t left (idx + 1) _ is_file (omega (arith, sum))
                    (links here is_file more fine)))
      ]

  Goes-link_file :
      (i : ℕ) (f : UldFile) (st : Linker)
      → get_elem? files i ≡ some f
      → At i none st
      → Goes (i + 1) st (link_file files i f st)
  unfolding link_file
  Goes-link_file i f st is_file here = elim (Option-cases (sec_rel_dyn st.memory f)) [
    | inl none_there ↦
        rw (link_file, none_there)
          (record { bytes = λ a. inl refl; ends = λ e. passes here is_file none_there })
    | inr (t, there) ↦
        let missing = is_missing (sec_dynsym st.memory f) || is_missing (sec_dynstr st.memory f) in
        elim (Bool-cases missing) [
          | inl no_symbols ↦ rw (link_file, there, no_symbols) (fails (i + 1) st)
          | inr symbols ↦
              rw (link_file, there, symbols)
                (Goes-link_rels i f t (2 ^ 29) 0 st is_file (omega arith)
                  (enters here is_file there))
        ]
  ]

  -- `fs` are the files from the position `i` on.
  Bytes-link_files :
      (i : ℕ) (fs : List UldFile) (st : Linker)
      → ((k : ℕ) → get_elem? files (i + k) ≡ get_elem? fs k)
      → At i none st
      → Bytes st (link_files files i fs st).1
  unfolding link_files
  Bytes-link_files i [] st from here = λ a. inl refl
  Bytes-link_files i (f ∷ fs) st from here =
      let e : i + 0 ≡ i = omega arith in
      let file = Goes-link_file i f st (rw e at (from 0)) here in
      elim (Bool-cases (is_nonzero (link_file files i f st).0)) [
        | inl failed ↦ rw (link_files, failed) file.bytes
        | inr fine ↦
            let after = (link_file files i f st).1 in
            let rest_from : (k : ℕ) → get_elem? files (i + 1 + k) ≡ get_elem? fs k =
              λ k. let n : i + 1 + k ≡ i + suc k = omega arith in rw n (from (suc k)) in
            rw (link_files, fine)
              (Bytes-then st after (link_files files (i + 1) fs after).1 file.bytes
                (Bytes-link_files (i + 1) fs after rest_from (file.ends fine)))
      ]

-- Whatever the outcome of `uld_dyn_link_file_list`, each byte is as before, or a relocation that
-- linking reaches may write it: an entry of the table of one of the files, with a place in memory.
-- Such a relocation writes the word at its place; with the type FUNCDESC_VALUE also the word behind
-- it; with GLOB_DAT or FUNCDESC also the object or the descriptor that is next in the pool.
pub link_file_list-IsTouched :
    (m : Mem) (files : List UldFile) (base : ℕ) (wants_size : Bool) (res : Resolution) (a : ℕ)
    → let start : Linker = record { memory = m; dl_alloc_base = base; dla_size = 0; res = res } in
      ((uld_dyn_link_file_list m files base wants_size res).1.memory a ≡ m a)
      ⊎ IsTouched files start a
unfolding uld_dyn_link_file_list
link_file_list-IsTouched m files base wants_size res a =
    let start : Linker = record { memory = m; dl_alloc_base = base; dla_size = 0; res = res } in
    let refused = (length files == 0) || (base == null) || not wants_size in
    elim (Bool-cases refused) [
      | inl stop ↦ rw stop (inl refl)
      | inr go ↦ rw go (
          Bytes-link_files files start 0 files start
            (λ k. let e : 0 + k ≡ k = omega arith in rw e refl) first a)
    ]
