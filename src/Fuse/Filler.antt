-- ===== src/Fuse/Filler.antt =====
-- The entries of a directory and the callback that adds them (src/fuse_operations/readdir.c), with
-- what readdir() is given by its callers and libraries.
use tagsistant.Base.{
  ℕ, Text, Option, none, some, Bool, true, false, ◌&&◌, ◌||◌, not, List, [], ◌∷◌, ◌++◌, map, str_eq,
  if◌then◌else◌, any, select,
}
use tagsistant.Sql.{World, TagRow, AliasRow, SysCall}
use tagsistant.Sql.Engine.{Engine}
use tagsistant.Query.{QTree, AndNode, null, node}
use tagsistant.Query.Paths.{is_nonempty}
use tagsistant.Resolve.Archive.{archive_name}

-- tagsistant_file_handle
pub record FileHandle : Type 0 where
  pub inode : ℕ
  pub name : Text

-- What is not in the repository: whether FUSE's filler refuses an entry behind those it has, the
-- entries that readdir(3) gives for a path, and the lists of file handles in the hash table of
-- tagsistant_RDS_new(), which the repository declares and does not define: it is given the connection,
-- and may leave any world.
pub record Sources : Type 0 where
  pub refuses : List Text → Text → Bool
  pub dirents : Option Text → List SysCall → List Text
  pub reusable_data_set : List AndNode → Bool → Bool → World → List (List FileHandle) × World

-- `filler(buf, entry, NULL, 0)`, whose result is ignored.
unfoldable pub fill : Sources → Text → List Text → List Text
fill X entry buf = if X.refuses buf entry then buf else buf ++ entry ∷ []

unfoldable pub fill_all : Sources → List Text → List Text → List Text
unfolding fill
fill_all X [] buf = buf
fill_all X (entry ∷ rest) buf = fill_all X rest (fill X entry buf)

-- A tag of an and-set, along `next`.
unfoldable pub in_and_set : Text → AndNode → Bool
in_and_set dir null = false
in_and_set dir (node t related negated next) =
    let same : Bool = elim t.tag [ none ↦ false | some name ↦ str_eq name dir ] in
    same || in_and_set dir next

-- The last or-node, if there is one.
unfoldable pub last_and_set : List AndNode → AndNode
last_and_set [] = null
last_and_set (a ∷ []) = a
last_and_set (a ∷ b ∷ tree) = last_and_set (b ∷ tree)

-- What tagsistant_add_entry_to_dir() leaves out: empty values, and the tags of the last and-set.
unfoldable pub is_left_out : QTree → Text → Bool
unfolding in_and_set last_and_set
is_left_out q dir = not (is_nonempty dir) || in_and_set dir (last_and_set q.tree)

-- tagsistant_add_entry_to_dir()
unfoldable pub add_entry : Sources → QTree → Bool → Text → List Text → List Text
unfolding is_left_out fill
add_entry X q is_alias dir buf =
    if is_left_out q dir then buf else fill X (if is_alias then b'=' ∷ dir else dir) buf

-- The callback on each row of a result.
unfoldable pub add_entries : Sources → QTree → Bool → List Text → List Text → List Text
unfolding add_entry
add_entries X q is_alias [] buf = buf
add_entries X q is_alias (dir ∷ rest) buf =
    add_entries X q is_alias rest (add_entry X q is_alias dir buf)

-- `select distinct`
unfoldable pub distinct : List Text → List Text
distinct [] = []
distinct (s ∷ rest) = let more = distinct rest in if any (str_eq s) rest then more else s ∷ more

-- One column of the tags that a `where` clause keeps, in the order of the engine.
unfoldable pub tag_column : Engine → Bool → (TagRow → Text) → (TagRow → Bool) → World → List Text
unfolding distinct
tag_column E conn column keeps w =
    if conn then distinct (map column (E.arrange (select keeps w.tags))) else []

unfoldable pub all_tagnames : Engine → Bool → World → List Text
unfolding tag_column
all_tagnames E conn w = tag_column E conn (λ r. r.tagname) (λ r. true) w

unfoldable pub keys_of : Engine → Bool → Text → World → List Text
unfolding tag_column
keys_of E conn namespace w = tag_column E conn (λ r. r.key) (λ r. str_eq r.tagname namespace) w

unfoldable pub values_of : Engine → Bool → Text → Text → World → List Text
unfolding tag_column
values_of E conn namespace key w =
    tag_column E conn (λ r. r.value) (λ r. str_eq r.tagname namespace && str_eq r.key key) w

-- `select alias from aliases`
unfoldable pub all_aliases : Bool → World → List Text
all_aliases conn w = if conn then map (λ (r : AliasRow). r.alias) w.aliases else []

-- `%d`, TAGSISTANT_INODE_DELIMITER and the name.
unfoldable numbered_name : FileHandle → Text
unfolding archive_name
numbered_name h = archive_name h.inode h.name

unfoldable numbered_names : List FileHandle → List Text
unfolding numbered_name
numbered_names [] = []
numbered_names (h ∷ rest) = numbered_name h ∷ numbered_names rest

-- The names of tagsistant_readdir_on_store_filler(): a name that several objects share, or a query
-- that asks for it, gets the inode.
unfoldable handle_names : Bool → List FileHandle → List Text
unfolding numbered_names
handle_names force [] = []
handle_names force (h ∷ []) = (if force then numbered_name h else h.name) ∷ []
handle_names force (h ∷ k ∷ rest) = numbered_names (h ∷ k ∷ rest)

unfoldable pub object_names : Bool → List (List FileHandle) → List Text
unfolding handle_names
object_names force [] = []
object_names force (handles ∷ rest) = handle_names force handles ++ object_names force rest
