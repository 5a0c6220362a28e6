-- ===== src/Tests.antt =====
-- Concrete databases, queries and settings, and the theorems applied to them.
pub mod Linking
pub mod Sql
pub mod Query
pub mod Resolve
pub mod Fuse
pub mod Dedup
pub mod Flush
pub mod Pool
pub mod Contents
pub mod Autotag
pub mod Ini
use tagsistant.Base.{false, none, codes, some, [], ◌∷◌}
use tagsistant.Sql.{World, empty_world, returned}
use tagsistant.Sql.Engine.{sample_engine}
use tagsistant.Resolve.New.{Settings}
use tagsistant.Fuse.Filler.{Sources}
use tagsistant.Requests.{Environment}

-- A system on which every call succeeds.
abbrev pub sample_settings : Settings
sample_settings = record {
  engine = sample_engine;
  archive_dir = codes "/archive";
  tags_file = codes "/tags.ini";
  tags_suffix = codes ".tags";
  repository = codes "/";
  stale_errno = 0;
  mountpoint = codes "/mnt";
  uninitialised = λ t. 0;
  fuel = 8;
  system = λ calls call. returned 0;
  basename = λ path. path;
}

-- Two tags and two objects with one checksum; the first object has the first tag, the second one
-- has both.
abbrev pub sample_world : World
sample_world = record empty_world {
  db = record {
    tags =
        record { tag_id = 1; tagname = codes "rock"; key = []; value = [] }
        ∷ record { tag_id = 2; tagname = codes "live"; key = []; value = [] }
        ∷ [];
    tags_sequence = 2;
    objects =
        record { inode = 1; objectname = codes "a"; checksum = codes "ff"; symlink = [] }
        ∷ record { inode = 2; objectname = codes "b"; checksum = codes "ff"; symlink = [] }
        ∷ [];
    objects_sequence = 2;
    tagging =
        record { inode = 1; tag_id = 1 }
        ∷ record { inode = 2; tag_id = 1 }
        ∷ record { inode = 2; tag_id = 2 }
        ∷ [];
    relations = record { tag1_id = 1; relation = codes "includes"; tag2_id = 2 } ∷ [];
    aliases = [];
    rds_catalog = [];
    rds = [];
  };
}

-- A directory filler that takes every entry, empty directories, and short texts.
abbrev pub sample_sources : Sources
sample_sources = record {
  refuses = λ buf entry. false;
  dirents = λ path calls. [];
  reusable_data_set = λ query conn all_path w. ([], w);
}

abbrev pub sample_environment : Environment
sample_environment = record {
  sources = sample_sources;
  texts = record { message = λ e. codes "error"; configuration = codes "--"; connections = 1 };
  digest = λ path w. codes "ff";
}
