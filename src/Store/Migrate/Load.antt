-- ===== src/Store/Migrate/Load.antt =====
-- internal/store/migrate.go: `loadMigrations` and `rebuildDirectiveIn`, on a directory of files. The
-- hexadecimal SHA-256 of a file and `strings.TrimSpace` are parameters.
use pulseq.Prelude.{
  ℕ, suc, Bool, true, false, not, ◌&&◌, ◌||◌, String, List, [], ◌∷◌, Option, none, some, Text,
  same_text, cut, sort_by, if◌then◌else◌, ltb, leb, ◌==◌,
}
use pulseq.Prelude.Int.{pos, negsuc}
use pulseq.Spec.Duration.{is_digit}
use pulseq.Store.Migrate.Holder.{atoi}
use pulseq.Store.Migrate.Ledger.{Migration}

-- What the file system answers: the names that `fs.Glob` lists, and the bytes of a file.
pub record Directory : Type 0 where
  pub names : Option (List Text)
  pub read_file : Text → Option Text

-- The ways a set of migrations cannot be loaded.
pub data Unloadable : Type 0 where
  unlisted misnamed no_version unreadable misplaced_directive doubled missing : Unloadable

pub data Loading {ℓ} (A : Type ℓ) : Type ℓ where
  loads : A → Loading A
  refuses : Unloadable → Loading A

infixl 5 ◌>>=◌
abbrev pub ◌>>=◌ {ℓ κ} : {A : Type ℓ} {B : Type κ} → Loading A → (A → Loading B) → Loading B
loads a >>= f = f a
refuses e >>= f = refuses e

abbrev pub found_or {ℓ} : {A : Type ℓ} → Unloadable → Option A → Loading A
found_or e none = refuses e
found_or e (some a) = loads a

-- "README.md", "sql" and "-- +paceq rebuild".
abbrev pub migration_readme : Text
migration_readme = 82 ∷ 69 ∷ 65 ∷ 68 ∷ 77 ∷ 69 ∷ 46 ∷ 109 ∷ 100 ∷ []

abbrev sql_ending : Text
sql_ending = 115 ∷ 113 ∷ 108 ∷ []

abbrev pub rebuild_directive : Text
rebuild_directive =
    45 ∷ 45 ∷ 32 ∷ 43 ∷ 112 ∷ 97 ∷ 99 ∷ 101 ∷ 113 ∷ 32 ∷ 114 ∷ 101 ∷ 98 ∷ 117 ∷ 105 ∷ 108 ∷ 100 ∷ []

abbrev pub rebuild_directive_lines : ℕ
rebuild_directive_lines = 5

-- `[a-z0-9_]`.
abbrev is_name_letter : ℕ → Bool
is_name_letter c = (leb 97 c && leb c 122) || is_digit c || c == 95

abbrev pub all_letters : Text → Bool
all_letters [] = true
all_letters (c ∷ text) = is_name_letter c && all_letters text

-- The name between the underscore and ".sql"; its letters have no point.
unfoldable pub match_name : Text → Option Text
unfolding cut
match_name rest = elim (cut 46 rest) [
  | none ↦ none
  | some (name, ending) ↦
      if not (same_text name []) && all_letters name && same_text ending sql_ending
      then some name
      else none
]

-- `fileRE`: `^(\d{4})_([a-z0-9_]+)\.sql$`, with its two groups.
unfoldable pub match_file : Text → Option (Text × Text)
unfolding match_name
match_file (a ∷ b ∷ c ∷ d ∷ u ∷ rest) =
    if is_digit a && is_digit b && is_digit c && is_digit d && u == 95
    then elim (match_name rest) [ none ↦ none | some name ↦ some (a ∷ b ∷ c ∷ d ∷ [], name) ]
    else none
match_file _ = none

-- `strings.Split(body, "\n")`.
abbrev prepend : ℕ → List Text → List Text
prepend c [] = (c ∷ []) ∷ []
prepend c (line ∷ lines) = (c ∷ line) ∷ lines

unfoldable pub split_lines : Text → List Text
split_lines [] = [] ∷ []
split_lines (c ∷ text) =
    let later = split_lines text in if c == 10 then [] ∷ later else prepend c later

abbrev pub has_prefix : Text → Text → Bool
has_prefix [] text = true
has_prefix (p ∷ prefix) [] = false
has_prefix (p ∷ prefix) (c ∷ text) = p == c && has_prefix prefix text

-- `strings.Contains`.
unfoldable pub contains : Text → Text → Bool
contains [] part = has_prefix part []
contains (c ∷ text) part = has_prefix part (c ∷ text) || contains text part

-- `strconv.Atoi` on the four digits.
unfoldable pub version_number : Text → Loading ℕ
unfolding atoi
version_number digits = elim (atoi digits) [
  | none ↦ refuses no_version
  | some (pos version) ↦ loads version
  | some (negsuc _) ↦ refuses no_version
]

-- `sort.SliceStable` by the version.
abbrev pub sort_stable : List Migration → List Migration
sort_stable files = sort_by (λ m x. leb m.version x.version) files

-- The last loop: versions run from 1 with no gap and no repeat.
unfoldable pub check_numbers : ℕ → ℕ → List Migration → Loading (Unit {0})
check_numbers i before [] = loads tt
check_numbers i before (m ∷ rest) =
    let later = check_numbers (suc i) m.version rest in
    if m.version == suc i
    then later
    else if ltb 0 i && m.version == before
    then refuses doubled
    else refuses missing

module _ (sum : Text → String) (trim_space : Text → Text) where
  -- The loop of `rebuildDirectiveIn`, from a line on.
  unfoldable pub directive_from : ℕ → Bool → List Text → Loading Bool
  unfolding contains
  directive_from i found [] = loads found
  directive_from i found (line ∷ lines) =
      let without = directive_from (suc i) found lines in
      let with_it = directive_from (suc i) true lines in
      if not (contains line rebuild_directive)
      then without
      else if leb rebuild_directive_lines i || not (same_text (trim_space line) rebuild_directive)
      then refuses misplaced_directive
      else with_it

  unfoldable pub rebuild_directive_in : Text → Loading Bool
  unfolding directive_from split_lines
  rebuild_directive_in body = directive_from 0 false (split_lines body)

  -- The body of the loop over the names.
  unfoldable pub load_file : Directory → Text → Loading Migration
  unfolding match_file version_number rebuild_directive_in
  load_file dir name = found_or misnamed (match_file name) >>= λ groups.
      version_number groups.0 >>= λ version. found_or unreadable (dir.read_file name) >>= λ body.
      rebuild_directive_in body >>= λ rebuild. loads (record {
        version = version;
        name = groups.1;
        file = name;
        sql = body;
        checksum = sum body;
        rebuild = rebuild;
      })

  -- The loop over the names.
  unfoldable pub load_files : Directory → List Text → Loading (List Migration)
  unfolding load_file
  load_files dir [] = loads []
  load_files dir (name ∷ names) =
      let later = load_files dir names in
      if same_text name migration_readme
      then later
      else (load_file dir name >>= λ m. later >>= λ rest. loads (m ∷ rest))

  -- `loadMigrations`.
  unfoldable pub load_migrations : Directory → Loading (List Migration)
  unfolding load_files sort_by check_numbers
  load_migrations dir = found_or unlisted dir.names >>= λ names. load_files dir names >>= λ files.
      check_numbers 0 0 (sort_stable files) >>= λ _. loads (sort_stable files)
