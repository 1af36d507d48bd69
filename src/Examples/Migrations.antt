-- ===== src/Examples/Migrations.antt =====
-- A start on an empty database with two migrations, of which the second rebuilds a table; the schema
-- is the list of the scripts that were run.
use pulseq.Prelude.{
  ℕ, ◌*◌, ◌≡◌, refl, Bool, true, false, not, String, List, [], ◌∷◌, ◌++◌, Option, none, some, Text,
  same_text, arith, if◌then◌else◌, cut, sort_by,
}
use mathlib.Core.List.{Memᴰ}
use pulseq.Prelude.Int.{pos}
use pulseq.Store.Tx.{Attempt, goes}
use pulseq.Store.Migrate.Ledger.{Migration, Database}
use pulseq.Store.Migrate.Holder.{
  Host, lock_holder, holder_alive, atoi, unsigned_number, digits_number,
}
use pulseq.Store.Migrate.Written.{other_boot, holder_alive-lock_holder}
use pulseq.Store.Migrate.Load.{
  Directory, loads, load_migrations, load_files, load_file, match_file, match_name, version_number,
  rebuild_directive, rebuild_directive_in, directive_from, contains, split_lines, check_numbers,
  migration_readme,
}
use pulseq.Store.Migrate.Loaded.{Stands, load_migrations-Numbered}
use pulseq.Store.Migrate.Locking.{Round, migration_lock_poll}
use pulseq.Store.Migrate.Prefix.{Numbered}
use pulseq.Store.Migrate.Stages.{At, Kept, Complete, schema_after}
use pulseq.Store.Migrate.Steps.{Leaves, answered}
use pulseq.Store.Migrate.Startup.{World, migrate_fs}
use pulseq.Store.Migrate.Calm.{Calm, all_go}
use pulseq.Store.Migrate.Complete.{migrate_fs-Complete}
use pulseq.Store.Migrate.Started.{Calm-Benign, migrate_fs-answers}

-- "0001_a.sql", "0002_b.sql" and their scripts.
abbrev first_file : Text
first_file = 48 ∷ 48 ∷ 48 ∷ 49 ∷ 95 ∷ 97 ∷ 46 ∷ 115 ∷ 113 ∷ 108 ∷ []

abbrev second_file : Text
second_file = 48 ∷ 48 ∷ 48 ∷ 50 ∷ 95 ∷ 98 ∷ 46 ∷ 115 ∷ 113 ∷ 108 ∷ []

abbrev first_script : Text
first_script = 120 ∷ []

abbrev second_script : Text
second_script = rebuild_directive ++ 10 ∷ 121 ∷ []

abbrev directory : Directory
directory = record {
  names = some (second_file ∷ migration_readme ∷ first_file ∷ []);
  read_file = λ name.
      if same_text name first_file
      then some first_script
      else if same_text name second_file
      then some second_script
      else none;
}

abbrev sum_of : Text → String
sum_of text = "sum"

abbrev as_it_is : Text → Text
as_it_is text = text

abbrev first_migration : Migration
first_migration = record {
  version = 1;
  name = 97 ∷ [];
  file = first_file;
  sql = first_script;
  checksum = "sum";
  rebuild = false;
}

abbrev second_migration : Migration
second_migration = record {
  version = 2;
  name = 98 ∷ [];
  file = second_file;
  sql = second_script;
  checksum = "sum";
  rebuild = true;
}

abbrev migrations : List Migration
migrations = first_migration ∷ second_migration ∷ []

directory_loads : load_migrations sum_of as_it_is directory ≡ loads migrations
unfolding load_migrations load_files load_file match_file match_name version_number atoi
    unsigned_number digits_number rebuild_directive_in directive_from contains split_lines
    check_numbers cut sort_by
directory_loads = refl

abbrev run_script : Text → List Text → Option (List Text)
run_script sql scripts = some (scripts ++ sql ∷ [])

abbrev unviolated : List Text → Bool
unviolated scripts = false

abbrev going : Attempt
going = record { fate = goes; context_done = false }

abbrev this_host : Host
this_host = record {
  hostname = some (104 ∷ []);
  boot = 98 ∷ [];
  pid = 42;
  process_alive = λ pid. true;
}

abbrev quiet_rounds : ℕ → Round (List Text)
quiet_rounds i = record {
  tries = λ n. going;
  now = 7;
  elapsed = migration_lock_poll * i;
  context_done = false;
  meanwhile = λ db. db;
}

abbrev quiet_world : World (List Text)
quiet_world = record {
  host = this_host;
  writable = true;
  version_read = none;
  ledger_read = none;
  second_read = none;
  tries = λ x n. going;
  now = λ v. 7;
  rounds = quiet_rounds;
  rebuilding = λ v. all_go;
  meanwhile = λ p db. db;
}

quiet_world-Calm : Calm quiet_world
quiet_world-Calm = record {
  writable = refl;
  version_read = refl;
  ledger_read = refl;
  second_read = refl;
  first_try = λ x. refl;
  first_round = refl;
  rebuilding = λ v. refl;
  alone = λ p db. refl;
  alone_waiting = λ i db. refl;
}

abbrev empty_database : Database (List Text)
empty_database = record {
  ledger = none;
  lock = none;
  user_version = 0;
  foreign_keys = true;
  schema = [];
}

empty_database-At : At run_script [] migrations 0 empty_database
unfolding schema_after
empty_database-At = record {
  within = omega arith;
  recorded = tt;
  shape = refl;
  fenced = omega arith;
}

scripts_run : schema_after run_script [] migrations ≡ some (first_script ∷ second_script ∷ [])
unfolding schema_after
scripts_run = refl

migrate_fs-Complete_example :
    Leaves
      (Kept run_script [] migrations 0 0)
      (Complete run_script [] migrations)
      (migrate_fs run_script unviolated sum_of as_it_is directory quiet_world empty_database)
migrate_fs-Complete_example =
    migrate_fs-Complete run_script unviolated [] sum_of as_it_is directory migrations quiet_world 0
      empty_database directory_loads
      (Calm-Benign run_script [] migrations quiet_world quiet_world-Calm) empty_database-At

migrate_fs-answers_example :
    (a : Unit {0}) × (db' : Database (List Text)) × (migrate_fs run_script unviolated sum_of
        as_it_is directory quiet_world empty_database
      ≡ answered a db')
    × Complete run_script [] migrations a db'
migrate_fs-answers_example =
    migrate_fs-answers run_script unviolated [] sum_of as_it_is directory migrations quiet_world 0
      empty_database (first_script ∷ second_script ∷ []) directory_loads quiet_world-Calm
      scripts_run (λ j s h. refl) empty_database-At tt

load_migrations-Numbered_example :
    Numbered 0 migrations
    × ((names : List Text) × (directory.names ≡ some names)
        × ((m : Migration) → Memᴰ m migrations → Stands sum_of as_it_is directory names m)
        × ((name : Text)
            → Memᴰ name names
            → same_text name migration_readme ≡ false
            → (m : Migration) × Memᴰ m migrations
              × (load_file sum_of as_it_is directory name ≡ loads m)))
load_migrations-Numbered_example =
    load_migrations-Numbered sum_of as_it_is directory migrations directory_loads

abbrev rebooted_host : Host
rebooted_host = record this_host { boot = 99 ∷ [] }

holder_alive-lock_holder_example : holder_alive rebooted_host (lock_holder this_host) ≡ (
    if not (same_text (104 ∷ []) (104 ∷ []))
    then true
    else if other_boot rebooted_host this_host
    then false
    else rebooted_host.process_alive (pos 42))
holder_alive-lock_holder_example =
    holder_alive-lock_holder rebooted_host this_host (104 ∷ []) (104 ∷ []) refl refl (refl, tt)
      (refl, tt) (omega arith)
