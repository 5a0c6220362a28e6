-- ===== src/Resolve/Archive.antt =====
-- The place of an object under archive/ (src/path_resolution.c): the inode and its hierarchy.
pub mod RoundTrip
use tagsistant.Base.{
  ℕ, zero, suc, ◌+◌, ◌-◌, ◌/◌, ◌%◌, Text, codes, Option, none, some, Bool, true, false, List, [],
  ◌∷◌, ◌++◌, ltb, ◌==◌, if◌then◌else◌,
}
use mathlib.Core.List.{reverse}
use tagsistant.Sql.{World, mkdir_with_parents}
use tagsistant.Query.{QTree}
use tagsistant.Query.Paths.{slash}
use tagsistant.Sql.Tags.{printf_s}

-- `%u`, the last digit first; a number has at most as many digits as its value and one.
unfoldable pub reversed_digits : ℕ → ℕ → Text
reversed_digits zero n = []
reversed_digits (suc fuel) n =
    let more = reversed_digits fuel (n / 10) in (b'0' + n % 10) ∷ (if ltb n 10 then [] else more)

unfoldable pub print_reversed : ℕ → Text
unfolding reversed_digits
print_reversed n = reversed_digits (n + 1) n

unfoldable pub print_decimal : ℕ → Text
unfolding print_reversed
print_decimal n = reverse (print_reversed n)

-- g_regex_replace() of `(.)` by `/\1`.
unfoldable slash_each : Text → Text
slash_each [] = []
slash_each (c ∷ s) = slash ∷ c ∷ slash_each s

abbrev archive_depth : ℕ
archive_depth = 1000

-- The directory of an inode.
unfoldable hierarchy : Text → ℕ → Text
unfolding slash_each print_reversed
hierarchy archive inode = archive ++ slash_each (print_reversed (inode % archive_depth))

-- `%d` of an inode, which is a guint32: from 2^31 on the number printed is negative.
unfoldable pub print_inode : ℕ → Text
unfolding print_decimal
print_inode inode =
    let n = inode % 4294967296 in
    if ltb n 2147483648 then print_decimal n else b'-' ∷ print_decimal (4294967296 - n)

unfoldable pub archive_name : ℕ → Text → Text
unfolding print_inode
archive_name inode object_path = print_inode inode ++ (codes "___" ++ object_path)

-- tagsistant_querytree_rebuild_paths()
unfoldable pub rebuild_paths : Text → QTree → World → QTree × World
unfolding hierarchy archive_name printf_s
rebuild_paths archive q w =
    let name = archive_name q.inode (printf_s q.object_path) in
    let directory = hierarchy archive q.inode in
    if q.inode == 0 then (q, w) else (
      record q { archive_path = some name; full_archive_path = some (directory ++ (slash ∷ name)) },
      record w { calls = mkdir_with_parents directory ∷ w.calls },
    )

-- tagsistant_querytree_set_object_path()
unfoldable pub set_object_path : Text → Option Text → QTree → World → QTree × World
unfolding rebuild_paths
set_object_path archive none q w = (q, w)
set_object_path archive (some path) q w =
    rebuild_paths archive (record q { object_path = some path }) w

-- tagsistant_querytree_set_inode(): inode 0 is ignored.
unfoldable pub set_inode : Text → ℕ → QTree → World → QTree × World
unfolding rebuild_paths
set_inode archive inode q w =
    let rebuilt = rebuild_paths archive (record q { inode = inode }) w in
    if inode == 0 then (q, w) else rebuilt
