-- ===== src/Tests/Ini.antt =====
-- Two starts of the program, the first one without a repository.ini.
use tagsistant.Base.{codes, some, none, ◌≡◌, refl}
use tagsistant.Ini.{CommandLine, manage_repository_ini}
use tagsistant.Ini.Saving.{manage_repository_ini-again}

abbrev first_start : CommandLine
first_start = record {
  dboptions = some (codes "mysql:localhost");
  mountpoint = codes "/mnt";
  repository = codes "/repo";
}

-- The second start gives no database options.
abbrev second_start : CommandLine
second_start = record first_start { dboptions = none }

manage_repository_ini-again_example :
    manage_repository_ini (some (manage_repository_ini none first_start).0) second_start
    ≡ manage_repository_ini none first_start
manage_repository_ini-again_example =
    manage_repository_ini-again none first_start second_start refl refl
