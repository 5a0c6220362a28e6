-- ===== src/Sql.antt =====
-- The tables of tagsistant_create_schema() and the state that the sql.c functions share (src/sql.c,
-- src/sql.h). The database engine is read by what SQL promises of the statements in the source.
pub mod Engine
pub mod Options
pub mod Statement
pub mod Pool
pub mod Tags
pub mod Existence
pub mod Objects
pub mod Aliases
use tagsistant.Base.{ℕ, Text, Option, List, []}

pub record TagRow : Type 0 where
  pub tag_id : ℕ
  pub tagname : Text
  pub key : Text
  pub value : Text

pub record ObjectRow : Type 0 where
  pub inode : ℕ
  pub objectname : Text
  pub checksum : Text
  pub symlink : Text

pub record TaggingRow : Type 0 where
  pub inode : ℕ
  pub tag_id : ℕ

pub record RelationRow : Type 0 where
  pub tag1_id : ℕ
  pub relation : Text
  pub tag2_id : ℕ

pub record AliasRow : Type 0 where
  pub alias : Text
  pub query : Text

pub record RdsCatalogRow : Type 0 where
  pub rds_id : ℕ
  pub created : Text
  pub subquery : Text

pub record RdsRow : Type 0 where
  pub rds_id : ℕ
  pub inode : ℕ
  pub objectname : Text

-- The tables, with the counters of the two autoincrement keys that the program reads back.
pub record Db : Type 0 where
  pub tags : List TagRow
  pub tags_sequence : ℕ
  pub objects : List ObjectRow
  pub objects_sequence : ℕ
  pub tagging : List TaggingRow
  pub relations : List RelationRow
  pub aliases : List AliasRow
  pub rds_catalog : List RdsCatalogRow
  pub rds : List RdsRow

-- The calls that the handlers make on the archive directory. A path may be a NULL pointer.
pub data SysCall : Type 0 where
  sys_mkdir sys_rmdir sys_unlink sys_mknod sys_truncate sys_chmod : Option Text → SysCall
  sys_chown sys_utime sys_open sys_readlink sys_lstat : Option Text → SysCall
  sys_rename sys_link : Option Text → Option Text → SysCall
  sys_symlink : Text → Option Text → SysCall
  sys_opendir : Option Text → SysCall
  sys_close sys_closedir sys_pread sys_pwrite : ℕ → SysCall
  mkdir_with_parents sys_statvfs : Text → SysCall

-- What a call returns, or its errno.
pub data SysResult : Type 0 where
  returned : ℕ → SysResult
  failed_with : ℕ → SysResult

-- The database, tagsistant_tag_cache, and the system calls made so far, the last one first.
pub record World : Type 0 where
  pub db : Db
  pub open db use *
  pub tag_cache : List (Text × ℕ)
  pub calls : List SysCall

abbrev empty_db : Db
empty_db = record {
  tags = [];
  tags_sequence = 0;
  objects = [];
  objects_sequence = 0;
  tagging = [];
  relations = [];
  aliases = [];
  rds_catalog = [];
  rds = [];
}

abbrev pub empty_world : World
empty_world = record { db = empty_db; tag_cache = []; calls = [] }
