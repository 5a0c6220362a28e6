-- ===== src/Lib.antt =====
-- Tagsistant, a semantic file system: paths are queries over tags, and the objects that have the tags
-- are the files of an archive directory. A request goes through these parts:
--
--   a handler of src/fuse_operations builds a querytree from its path (src/path_resolution.c), which
--   parses the query, reasons about the relations of its tags (src/reasoner.c) and finds the object;
--   the handler then changes the database (src/sql.c) and the file of the object, and ends the
--   transaction. Objects that are written are deduplicated afterwards (src/deduplication.c).
--
-- The files, and the code that each is about:
--
--   Base        Boolean tests, C strings as lists of bytes, lists, hash tables as association lists.
--   Sql         The tables of tagsistant_create_schema(), tagsistant_tag_cache and the system calls
--               made so far, together a World. Sql/Engine: the database engine as a parameter.
--               Sql/Tags, Sql/Objects, Sql/Aliases: the functions of src/sql.c by their names without
--               the prefix (tagsistant_sql_get_tag_id is get_tag_id), and the statements that other
--               files send. Sql/Statement: how tagsistant_real_query() escapes a statement. Sql/Pool:
--               the connection pool and its lock, as steps of threads; the loop over the pool reads a
--               freed link behind a dead connection, and gives `none` unless the link still holds the
--               NULL. Sql/Options: the option text of tagsistant_db_init().
--   Query       The querytree of src/path_resolution.h. Query/Paths: texts of paths and the regular
--               expressions. Query/Parsing and Query/Store: tagsistant_querytree_parse_store as an
--               automaton over the tokens. Query/Routes: the parsers of tags/, relations/, stats/ and
--               alias/.
--   Reasoner    src/reasoner.c.
--   Resolve     How a query finds its object: guessing (tagsistant_guess_inode_from_and_set), the
--               check of the taggings, Resolve/Archive: archive paths, Resolve/Expand: aliases in
--               paths, Resolve/New: tagsistant_querytree_new.
--   Fuse        The handlers, with tagsistant_querytree_destroy. Fuse/Mkdir, Rmdir, Unlink, Rename,
--               Create (mknod, symlink, link) and Files (chmod, chown, truncate, utime, readlink) are
--               named for theirs. Fuse/Target, Stat and Getattr: getattr and access, by the target of
--               lstat() and the changes to its result. Fuse/Filler, NextTokens and Listing: readdir,
--               by its callback, the part for store/ and the parts for other paths. Fuse/Handles:
--               open, release and the cached file handles. Fuse/Reading and Writing: read and write.
--               Fuse/Paths: the regular expressions of these handlers.
--   Dedup       tagsistant_querytree_find_duplicates and tagsistant_deduplication_kernel. Dedup/Flush:
--               flush, tagsistant_deduplicate and tagsistant_fix_checksums.
--   Autotag     tagsistant_process and the functions for plugins of src/plugin.c, the autotagging
--               kernel of src/deduplication.c, and in Autotag/Plugins the plugins of src/plugins.
--   Ini         repository.ini: tagsistant_manage_repository_ini of src/utils.c.
--   Requests    The table of operations of src/tagsistant.c, as one function over all requests.
--   Tests       Concrete databases and paths.
--
-- How it is modelled. State is passed explicitly. A call that does not return because a NULL pointer
-- is followed gives `none` or `segfault`. A pointer that may be NULL is an Option, and the linked
-- nodes of a query are a tree of `related`, `negated` and `next` links. A text in a statement is the
-- text itself, which is exact for texts without `"` and `<` (see Sql/Statement); the listing of
-- relations/, whose conditions hold quotes, has its own test. A statement that breaks a unique key or
-- has a backslash outside of its texts is refused as a whole. A copy that overruns its buffer gives
-- `none`. A rollback gives the database back, and not the tag cache or the files.
--
-- What is a parameter: the database engine (which row of a result comes last, and the order of the
-- rows of a join), the answers of the system and the errno that is left of an earlier call,
-- g_path_get_basename(), the checksum of a file, what an uninitialised inode holds, which entries
-- FUSE takes, the directories on disk, the hash table of tagsistant_RDS_new(), which no file of the
-- repository defines, and the world that it leaves, the texts of messages and of the configuration,
-- what libextractor finds, the filters of the plugins, and which connections answer. The aliases
-- are listed in their stored order. The tables RDS and RDS_catalog are fields of the database that
-- only tagsistant_RDS_new() may use. The hypotheses on the engine are that the last row is one of
-- the rows and that arranging rows keeps which rows there are.
--
-- Bounds and fuel: a path is split into at most 512 tokens, as in the code. Inodes and tag ids are
-- 32 bits and wrap; statements print them by %d, so the tables are exact below 2^31; the name of an
-- object in the archive has the sign that %d prints. The reasoner has one round for each tag of the
-- database and two more. The expansion of aliases has a fuel that is a field of the settings, and
-- gives `none` when it runs out, as an alias that names itself never ends.
--
-- Not modelled: the columns relation_id and last_autotag, the limits of varchar columns and of the
-- length of a statement, a failing allocation, alias names with characters that are special in regular
-- expressions, and other processes on the same database. The caches of querytrees, of and-sets and of
-- the reasoner are compiled out. statfs, fsync and the extended attributes keep no state of the
-- program. The loops of the threads over their queues, the drivers of the database, the loader of
-- plugins, tagging by date and by the text of a file, the branch for libextractor 0.6, the parsing of
-- the command line and the text of a key file are left out. The table of operations names no handler
-- for release(), which is modelled all the same. The bytes of a file are not told apart, only that it
-- is read or written.
pub mod Base
pub mod Sql
pub mod Query
pub mod Reasoner
pub mod Resolve
pub mod Fuse
pub mod Dedup
pub mod Autotag
pub mod Ini
pub mod Requests
pub mod Tests
