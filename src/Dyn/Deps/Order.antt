-- ===== src/Dyn/Deps/Order.antt =====
-- The dependency list holds each file once, behind all that it needs, and is found in bounded
-- depth when no file needs itself, directly or through others.
use mathlib.Core.List.{append-nil, append_assoc}
use uld_fdpic.Common.{
  ℕ, zero, suc, ◌<◌, ◌≤◌, ◌≡◌, refl, sym, ap, ◌∙◌, arith, ◌⊎◌, inl, inr, true, false, Option, none,
  some, List, [], ◌∷◌, ◌++◌, ◌==◌, if◌then◌else◌, length, length-append, All, ℤ, pos, negsuc,
  is_neg, Bool-cases,
}
use uld_fdpic.Fs.{FsEntry, uld_fs_get_file_by_name}
use uld_fdpic.Dyn.Deps.{Deps, in_list, after_dep, after_name, visit_needed, add_fse, dep_list}
use uld_fdpic.Dyn.Deps.Needs.{
  Listed, by_name-Listed, in_list-append, Met, Ordered, Ordered-snoc, Falls, IsAcyclic,
}

module _ (needs : FsEntry → ℤ × List (List ℕ)) (files : List FsEntry) (size : ℕ) (rank : ℕ → ℕ)
    (acyclic : IsAcyclic needs files rank) where
  abbrev Below : ℕ → List FsEntry → Type 0
  Below b es = All (λ e. rank e.at < b) es

  -- The list is in order and has room.
  abbrev pub IsKept : List FsEntry → Type 0
  IsKept ds = Ordered needs files [] ds × (length ds ≤ size)

  -- The outcome for one file: on success it is in the list, which is as before if it was there
  -- already, and else ends in it.
  abbrev pub Reached : FsEntry → List FsEntry → Deps → Type 0
  Reached fse ds none = ⊥
  Reached fse ds (some (pos zero, ds')) =
      IsKept ds'
      × (in_list fse ds' ≡ true)
      × (((in_list fse ds ≡ true) × (ds' ≡ ds))
          ⊎ ((es : List FsEntry) × (ds' ≡ (ds ++ es) ++ fse ∷ []) × Below (rank fse.at) es))
  Reached fse ds (some (r, ds')) = IsKept ds'

  abbrev Visited : List (List ℕ) → List FsEntry → ℕ → Deps → Type 0
  Visited names ds b none = ⊥
  Visited names ds b (some (pos zero, ds')) =
      IsKept ds' × Met needs files names ds' × ((es : List FsEntry) × (ds' ≡ ds ++ es) × Below b es)
  Visited names ds b (some (r, ds')) = IsKept ds'

  Below-append : (b : ℕ) (es fs : List FsEntry) → Below b es → Below b fs → Below b (es ++ fs)
  Below-append b [] fs h k = k
  Below-append b (e ∷ es) fs h k = (h.0, Below-append b es fs h.1 k)

  Below-mono : (b c : ℕ) (es : List FsEntry) → b < c → Below b es → Below c es
  Below-mono b c [] lt h = tt
  Below-mono b c (e ∷ es) lt h = (omega arith, Below-mono b c es lt h.1)

  -- What a reached file adds.
  grown :
      (fse : FsEntry) (ds ds' : List FsEntry) (b : ℕ)
      → rank fse.at < b
      → Reached fse ds (some (pos 0, ds'))
      → (es : List FsEntry) × (ds' ≡ ds ++ es) × Below b es
  grown fse ds ds' b lt (kept, there, inl (old, e)) = ([], e ∙ sym (append-nil ds), tt)
  grown fse ds ds' b lt (kept, there, inr (es, e, below)) = (
    es ++ fse ∷ [],
    e ∙ append_assoc ds es (fse ∷ []),
    Below-append b es (fse ∷ []) (Below-mono (rank fse.at) b es lt below) (lt, tt),
  )

  abbrev Visitor : ℕ → (FsEntry → List FsEntry → Deps) → Type 0
  Visitor b visit =
      (dep : FsEntry) (ds : List FsEntry)
      → Listed dep files
      → rank dep.at < b
      → IsKept ds
      → Reached dep ds (visit dep ds)

  after_dep-Visited :
      (b : ℕ) (rest : List FsEntry → Deps) (name : List ℕ) (names : List (List ℕ)) (dep : FsEntry)
      (ds : List FsEntry) (r : Deps)
      → uld_fs_get_file_by_name files name ≡ some dep
      → rank dep.at < b
      → Reached dep ds r
      → ((ds' : List FsEntry) → IsKept ds' → Visited names ds' b (rest ds'))
      → Visited (name ∷ names) ds b (after_dep rest r)
  unfolding after_dep
  after_dep-Visited b rest name names dep ds none found lt h go = absurd h
  after_dep-Visited b rest name names dep ds (some (pos (suc n), ds')) found lt h go = h
  after_dep-Visited b rest name names dep ds (some (negsuc n, ds')) found lt h go = h
  after_dep-Visited b rest name names dep ds (some (pos zero, ds')) found lt h go =
      extend (rest ds') (go ds' h.0)
    where
      extend : (r : Deps) → Visited names ds' b r → Visited (name ∷ names) ds b r
      extend none v = v
      extend (some (pos (suc n), ds'')) v = v
      extend (some (negsuc n, ds'')) v = v
      extend (some (pos zero, ds'')) (kept, met, (fs, e, below)) =
          let (es, e', below') = grown dep ds ds' b lt h in
          let there : in_list dep ds'' ≡ true =
            ap (in_list dep) e ∙ in_list-append dep ds' fs ∙ rw h.1 in
          (
            kept,
            ((dep, found, there), met),
            (
              es ++ fs,
              e ∙ ap (λ l. l ++ fs) e' ∙ append_assoc ds es fs,
              Below-append b es fs below' below,
            ),
          )

  visit_needed-Visited :
      (b : ℕ) (visit : FsEntry → List FsEntry → Deps)
      → Visitor b visit
      → (names : List (List ℕ)) (ds : List FsEntry) → Falls needs files rank b names
      → IsKept ds
      → Visited names ds b (visit_needed needs files size visit names ds)
  unfolding visit_needed
  visit_needed-Visited b visit good [] ds falls kept = (kept, tt, ([], sym (append-nil ds), tt))
  visit_needed-Visited b visit good (name ∷ names) ds falls kept =
      at_file (uld_fs_get_file_by_name files name) refl
        (λ ds' kept'. visit_needed-Visited b visit good names ds' falls.1 kept')
    where
      at_file :
          (o : Option FsEntry)
          → uld_fs_get_file_by_name files name ≡ o
          → ((ds' : List FsEntry)
              → IsKept ds'
              → Visited names ds' b (visit_needed needs files size visit names ds'))
          → Visited
              (name ∷ names)
              ds
              b
              (after_name (visit_needed needs files size visit names) visit ds o)
      at_file none e go = kept
      at_file (some dep) e go =
          let lt = falls.0 dep e in
          after_dep-Visited b (visit_needed needs files size visit names) name names dep ds
            (visit dep ds) e lt (good dep ds (by_name-Listed files name dep e) lt kept) go

  not_among : (fse : FsEntry) (es : List FsEntry) → Below (rank fse.at) es → in_list fse es ≡ false
  not_among fse [] h = refl
  not_among fse (e ∷ es) h = ground (arith, not_among fse es h.1)

  add_fse-Reached :
      (fse : FsEntry) (ds : List FsEntry) (r : Deps)
      → in_list fse ds ≡ false
      → Visited (needs fse).1 ds (rank fse.at) r
      → Reached fse ds (add_fse needs files size fse r)
  unfolding add_fse
  add_fse-Reached fse ds none new v = absurd v
  add_fse-Reached fse ds (some (pos (suc n), ds')) new v = v
  add_fse-Reached fse ds (some (negsuc n, ds')) new v = v
  add_fse-Reached fse ds (some (pos zero, ds')) new (kept, met, (es, e, below)) =
      elim (Bool-cases (length ds' == size)) [
        | inl full ↦ rw full kept
        | inr room ↦
            let still : in_list fse ds' ≡ false =
              ap (in_list fse) e ∙ in_list-append fse ds es ∙ rw (new, not_among fse es below) in
            let there : in_list fse (ds' ++ fse ∷ []) ≡ true =
              in_list-append fse ds' (fse ∷ []) ∙ ground arith in
            rw room (
              (
                Ordered-snoc needs files [] ds' fse kept.0 met still,
                ground (arith, kept.1, length-append ds' (fse ∷ [])),
              ),
              there,
              inr (es, ap (λ l. l ++ fse ∷ []) e, below),
            )
      ]

  -- When a number for each file falls along every dependency, the search for a file of the table
  -- returns in any depth above the file's number. Whatever its code, each file of the list is
  -- there once, behind all files that it needs, and the list is not longer than its size. On
  -- success the file is in the list, which is as before if it was there already, and else ends in
  -- the file, behind new files with lower numbers only.
  pub dep_list-Reached :
      (depth : ℕ) (fse : FsEntry) (ds : List FsEntry)
      → Listed fse files
      → rank fse.at < depth
      → IsKept ds
      → Reached fse ds (dep_list needs files size depth fse ds)
  unfolding dep_list
  dep_list-Reached zero fse ds here lt kept = absurd (omega arith)
  dep_list-Reached (suc depth) fse ds here lt kept =
      let visited =
        visit_needed-Visited (rank fse.at) (dep_list needs files size depth)
          (λ dep ds' l below k. dep_list-Reached depth dep ds' l (omega arith) k) (needs fse).1 ds
          (acyclic fse here) kept in
      elim (Bool-cases (in_list fse ds)) [
        | inl old ↦ rw old (kept, old, inl (old, refl))
        | inr new ↦ rw new (refused _ (needs fse).0 (add_fse-Reached fse ds _ new visited))
      ]
    where
      refused :
          (r : Deps) (code : ℤ)
          → Reached fse ds r
          → Reached fse ds (if is_neg code then some (code, ds) else r)
      refused r (pos n) h = h
      refused r (negsuc n) h = kept
