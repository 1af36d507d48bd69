-- ===== src/Store/Migrate/Loaded.antt =====
-- What `loadMigrations` of internal/store/migrate.go makes of a directory.
use pulseq.Prelude.{
  ℕ, suc, ◌≡◌, refl, sym, ◌∙◌, ap, subst, inl, inr, true, false, String, List, [], ◌∷◌, Option,
  none, some, Text, same_text, ◌==◌, Bool-cases, arith, Mem-sort_by,
}
use mathlib.Core.List.{Memᴰ}
use mathlib.Core.List.Memᴰ
use pulseq.Store.Migrate.Ledger.{Migration}
use pulseq.Store.Migrate.Prefix.{Numbered}
use pulseq.Store.Migrate.Load.{
  Directory, Loading, loads, refuses, Unloadable, unlisted, found_or, ◌>>=◌, migration_readme,
  load_file, load_files, sort_stable, check_numbers, load_migrations,
}

>>=-loads {ℓ κ} :
    {A : Type ℓ} {B : Type κ} (m : Loading A) (f : A → Loading B) (b : B)
    → (m >>= f) ≡ loads b
    → (a : A) × (m ≡ loads a) × (f a ≡ loads b)
>>=-loads (loads a) f b h = (a, refl, h)
>>=-loads (refuses e) f b h = absurd (ground arith)

found_some :
    {A : Type 0} (e : Unloadable) (o : Option A) (a : A) → found_or e o ≡ loads a → o ≡ some a
found_some e none a h = absurd (ground arith)
found_some e (some x) a h = ground arith

-- The numbers are checked.
check_numbers-Numbered :
    (i before : ℕ) (all : List Migration) → check_numbers i before all ≡ loads tt → Numbered i all
unfolding check_numbers
check_numbers-Numbered i before [] h = tt
check_numbers-Numbered i before (m ∷ rest) h = elim (Bool-cases (m.version == suc i)) [
  | inl next ↦ (
    ground (arith, next),
    check_numbers-Numbered (suc i) m.version rest (ground (arith, next, h)),
  )
  | inr other ↦ absurd (ground (arith, other, h))
]

module _ (sum : Text → String) (trim_space : Text → Text) (dir : Directory) where
  -- The migration of a name that is listed and not left out.
  pub record Stands (names : List Text) (m : Migration) : Type 0 where
    pub name : Text
    pub listed : Memᴰ name names
    pub counted : same_text name migration_readme ≡ false
    pub read : load_file sum trim_space dir name ≡ loads m

  -- A name that counts stands for the first of the loaded files.
  counted_step :
      (name : Text) (names : List Text) (files : List Migration)
      → same_text name migration_readme ≡ false
      → load_files sum trim_space dir (name ∷ names) ≡ loads files
      → (m : Migration) × (rest : List Migration) × (load_file sum trim_space dir name ≡ loads m)
        × (load_files sum trim_space dir names ≡ loads rest)
        × (files ≡ m ∷ rest)
  unfolding load_files
  counted_step name names files counted h =
      let (m, reads, h') =
        >>=-loads (load_file sum trim_space dir name)
          (λ m. load_files sum trim_space dir names >>= λ rest. loads (m ∷ rest)) files
          (ground (arith, counted, h)) in
      let (rest, reads', h'') =
        >>=-loads (load_files sum trim_space dir names) (λ rest. loads (m ∷ rest)) files h' in
      (m, rest, reads, reads', ground (arith, h''))

  load_files_sound :
      (names : List Text) (files : List Migration) (m : Migration)
      → load_files sum trim_space dir names ≡ loads files
      → Memᴰ m files
      → Stands names m
  unfolding load_files
  load_files_sound [] files m h there =
      absurd (Memᴰ.not-nil (subst (λ l. Memᴰ m l) (ground arith) there))
  load_files_sound (name ∷ names) files m h there =
      elim (Bool-cases (same_text name migration_readme)) [
        | inl readme ↦
            let s = load_files_sound names files m (ground (arith, readme, h)) there in
            record {
              name = s.name;
              listed = Memᴰ.tail s.listed;
              counted = s.counted;
              read = s.read;
            }
        | inr counted ↦
            let (x, rest, reads, reads', whole) = counted_step name names files counted h in
            elim (Memᴰ.cases_cons (subst (λ l. Memᴰ m l) whole there)) [
              | inl same ↦ record {
                name = name;
                listed = Memᴰ.head refl;
                counted = counted;
                read = reads ∙ ap loads (sym same);
              }
              | inr later ↦
                  let s = load_files_sound names rest m reads' later in
                  record {
                    name = s.name;
                    listed = Memᴰ.tail s.listed;
                    counted = s.counted;
                    read = s.read;
                  }
            ]
      ]

  load_files_complete :
      (names : List Text) (files : List Migration) (name : Text)
      → load_files sum trim_space dir names ≡ loads files
      → Memᴰ name names
      → same_text name migration_readme ≡ false
      → (m : Migration) × Memᴰ m files × (load_file sum trim_space dir name ≡ loads m)
  unfolding load_files
  load_files_complete [] files name h there counted = absurd (Memᴰ.not-nil there)
  load_files_complete (x ∷ names) files name h there counted =
      elim (Bool-cases (same_text x migration_readme)) [
        | inl readme ↦
            let below : load_files sum trim_space dir names ≡ loads files =
              ground (arith, readme, h) in
            elim (Memᴰ.cases_cons there) [
              | inl same ↦ absurd (
                  ground (
                    arith,
                    counted,
                    subst (λ t. same_text t migration_readme ≡ true) (sym same) readme,
                  ))
              | inr later ↦ load_files_complete names files name below later counted
            ]
        | inr counts ↦
            let (m, rest, reads, reads', whole) = counted_step x names files counts h in
            elim (Memᴰ.cases_cons there) [
              | inl same ↦ (
                m,
                subst (λ l. Memᴰ m l) (sym whole) (Memᴰ.head refl),
                subst (λ t. load_file sum trim_space dir t ≡ loads m) (sym same) reads,
              )
              | inr later ↦
                  let (n, found, read) = load_files_complete names rest name reads' later counted in
                  (n, subst (λ l. Memᴰ n l) (sym whole) (Memᴰ.tail found), read)
            ]
      ]

  -- A directory that loads gives migrations that are numbered from 1 with no gap and no repeat, in
  -- that order; each is read from a listed file that is not the README, and each such file is read
  -- into one of them.
  pub load_migrations-Numbered :
      (all : List Migration)
      → load_migrations sum trim_space dir ≡ loads all
      → Numbered 0 all
        × ((names : List Text) × (dir.names ≡ some names)
            × ((m : Migration) → Memᴰ m all → Stands names m)
            × ((name : Text)
                → Memᴰ name names
                → same_text name migration_readme ≡ false
                → (m : Migration) × Memᴰ m all × (load_file sum trim_space dir name ≡ loads m)))
  unfolding load_migrations
  load_migrations-Numbered all h =
      let (names, listed, h') =
        >>=-loads (found_or unlisted dir.names)
          (λ names. load_files sum trim_space dir names >>= λ files.
            check_numbers 0 0 (sort_stable files) >>= λ _. loads (sort_stable files))
          all h in
      let (files, reads, h'') =
        >>=-loads (load_files sum trim_space dir names)
          (λ files. check_numbers 0 0 (sort_stable files) >>= λ _. loads (sort_stable files)) all
          h' in
      let (_, checked, sorted) =
        >>=-loads (check_numbers 0 0 (sort_stable files)) (λ _. loads (sort_stable files)) all
          h'' in
      let whole : sort_stable files ≡ all = ground (arith, sorted) in
      (
        subst (Numbered 0) whole (check_numbers-Numbered 0 0 (sort_stable files) checked),
        (
          names,
          found_some unlisted dir.names names listed,
          (λ m there.
              load_files_sound names files m reads
                ((Mem-sort_by _ files m).0 (subst (λ l. Memᴰ m l) (sym whole) there))),
          λ name there counted.
              let (m, found, read) = load_files_complete names files name reads there counted in
              (m, subst (λ l. Memᴰ m l) whole ((Mem-sort_by _ files m).1 found), read),
        ),
      )
