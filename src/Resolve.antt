-- ===== src/Resolve.antt =====
-- How a query finds its object (src/path_resolution.c): the inode of an and-set, the check whether
-- the object is tagged, the archive paths. `none` stands for a NULL pointer that is followed.
pub mod Exclusions
pub mod New
pub mod Guess
pub mod Archive
pub mod Expand
use tagsistant.Base.{
  ℕ, zero, suc, ◌+◌, Text, codes, Option, none, some, Bool, true, false, ◌&&◌, ◌||◌, not, List, [],
  ◌∷◌, ◌++◌, str_eq, ◌==◌, if◌then◌else◌, select, any,
}
use tagsistant.Sql.{World, ObjectRow}
use tagsistant.Sql.Engine.{Engine}
use tagsistant.Sql.Tags.{query_integer, is_tagging}
use tagsistant.Sql.Objects.{object_inodes}
use tagsistant.Query.{QTree, AndTag, AndNode, null, node, Operator, equal_to}
use tagsistant.Query.Paths.{inode_extract_from_path, is_nonempty, slash}

abbrev is_equal_to : Operator → Bool
is_equal_to equal_to = true
is_equal_to _ = false

-- A triple tag whose operator is not equality: such a tag is taken as a match.
unfoldable pub is_open_triple : AndTag → Bool
is_open_triple t = elim t.namespace [
  | none ↦ false
  | some n ↦ is_nonempty n && not (is_equal_to t.operator)
]

-- `objects join tagging`: an object of that name with that tag.
unfoldable pub has_tagging : Text → ℕ → World → ObjectRow → Bool
unfolding is_tagging
has_tagging name id w o = str_eq o.objectname name && any (is_tagging o.inode id) w.tagging

-- tagsistant_check_single_tagging()
unfoldable pub check_single_tagging : Engine → Bool → AndTag → Text → World → ℕ
unfolding query_integer object_inodes
check_single_tagging E conn t name w =
    if is_open_triple t
    then 1
    else query_integer E conn (object_inodes (select (has_tagging name t.tag_id w) w.objects))

-- The first related tag that matches.
unfoldable pub check_related : Engine → Bool → AndNode → Text → World → ℕ
check_related E conn null name w = 0
check_related E conn (node t related negated next) name w =
    let found = check_single_tagging E conn t name w in
    let later = check_related E conn related name w in if found == 0 then later else found

-- A tag, or else its related tags.
unfoldable pub check_node : Engine → Bool → AndTag → AndNode → Text → World → ℕ
check_node E conn t related name w =
    let found = check_single_tagging E conn t name w in
    let later = check_related E conn related name w in if found == 0 then later else found

-- The end of the first loop: a jump to BREAK_LOOKUP with an inode, or the guessed inode.
pub data FirstStep : Type 0 where
  break_lookup : ℕ → FirstStep
  guessed : ℕ → FirstStep

-- The object of the ALL case: the inode in its name, or else an object of that name.
unfoldable all_inode : Engine → Bool → Text → World → ℕ
unfolding query_integer object_inodes
all_inode E conn name w =
    let inside = inode_extract_from_path name in
    if inside == 0
    then query_integer E conn
        (object_inodes (select (λ (o : ObjectRow). str_eq o.objectname name) w.objects))
    else inside

unfoldable pub is_all_tag : AndTag → Bool
is_all_tag t = elim t.tag [ none ↦ false | some name ↦ str_eq name (codes "ALL") ]

unfoldable pub first_step : Engine → Bool → AndNode → ℕ → Text → World → FirstStep
unfolding is_all_tag all_inode
first_step E conn null guess name w = guessed guess
first_step E conn (node t related negated next) guess name w =
    let single = check_node E conn t related name w in
    let guess' = if guess == 0 then single else guess in
    let more = first_step E conn next guess' name w in
    if is_all_tag t
    then break_lookup (all_inode E conn name w)
    else if single == 0 && not t.negate
    then break_lookup 0
    else if guess' == single
    then more
    else break_lookup 0

-- The loop over the negated tags. It starts at the `negated` link of the first node of the and-set
-- and then follows `next`.
unfoldable pub negated_matches : Engine → Bool → AndNode → Text → World → Bool
negated_matches E conn null name w = false
negated_matches E conn (node t related negated next) name w =
    not (check_node E conn t related name w == 0) || negated_matches E conn next name w

unfoldable pub second_step : Engine → Bool → AndNode → ℕ → Text → World → Option ℕ
unfolding negated_matches
second_step E conn null inode name w = none
second_step E conn (node t related negated next) inode name w =
    some (if negated_matches E conn negated name w then 0 else inode)

-- tagsistant_guess_inode_from_and_set(). The and-set cache is compiled out.
unfoldable pub guess_inode_from_and_set : Engine → Bool → AndNode → Text → World → Option ℕ
unfolding first_step second_step
guess_inode_from_and_set E conn and_set name w = elim (first_step E conn and_set 0 name w) [
  | break_lookup inode ↦ some inode
  | guessed inode ↦ second_step E conn and_set inode name w
]

-- The loop over the or-nodes, up to the first that gives an inode.
unfoldable pub guess_inode : Engine → Bool → List AndNode → Text → World → Option ℕ
guess_inode E conn [] name w = some 0
guess_inode E conn (and_set ∷ tree) name w =
    let later = guess_inode E conn tree name w in
    elim (guess_inode_from_and_set E conn and_set name w) [
      | none ↦ none
      | some inode ↦ if inode == 0 then later else some inode
    ]

-- The first element of a path, and whether it is the whole path.
unfoldable pub first_element : Text → Text
first_element [] = []
first_element (c ∷ s) = let more = c ∷ first_element s in if c == slash then [] else more

unfoldable has_slash : Text → Bool
has_slash [] = false
has_slash (c ∷ s) = c == slash || has_slash s

-- tagsistant_querytree_check_tagging_consistency(), which sets `exists` and `is_taggable`.
unfoldable pub check_tagging_consistency : Engine → QTree → World → Option QTree
unfolding guess_inode first_element has_slash
check_tagging_consistency E q w = elim q.object_path [
  | none ↦ some (record q { exists = false })
  | some path ↦
      let taggable = if has_slash path then q.is_taggable else true in
      let checked : Option QTree = elim (guess_inode E q.dbi q.tree (first_element path) w) [
        | none ↦ none
        | some inode ↦ some (record q { exists = not (inode == 0); is_taggable = taggable })
      ] in
      if is_nonempty path then checked else some (record q { exists = true })
]
