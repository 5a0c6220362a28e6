-- ===== src/Fuse/Create.antt =====
-- tagsistant_mknod(), tagsistant_symlink() and tagsistant_link() of src/fuse_operations.
use tagsistant.Base.{
  ℕ, Text, Option, none, some, Bool, true, false, ◌&&◌, ◌||◌, [], ◌∷◌, str_eq, ◌==◌, if◌then◌else◌,
  is_some, select,
}
use tagsistant.Sql.{World, ObjectRow, sys_mknod, sys_symlink, sys_link}
use tagsistant.Sql.Engine.{Engine}
use tagsistant.Sql.Tags.{query_integer, tag_object, execute, printf_s}
use tagsistant.Sql.Objects.{object_inodes, set_symlink}
use tagsistant.Sql.Aliases.{alias_create}
use tagsistant.Query.{QTree, malformed, archive, store, alias}
use tagsistant.Query.Paths.{is_all_path, is_nonempty, starts_with}
use tagsistant.Resolve.{check_tagging_consistency}
use tagsistant.Resolve.Archive.{set_object_path}
use tagsistant.Resolve.New.{Settings, querytree_new}
use tagsistant.Fuse.{
  Reply, success, failure, enoent, eio, efault, einval, erofs, system_call, querytree_traverse,
  create_and_tag_object, exit_operation, querytree_destroy, is_success,
}

-- The end of mknod() on an object: a missing inode leaves the reply of the creation.
unfoldable mknod_file : Settings → QTree → Reply → World → Reply × World
unfolding system_call
mknod_file S q created w =
    if q.inode == 0 then (created, w) else system_call S (sys_mknod q.full_archive_path) w

unfoldable mknod_object : Settings → QTree → World → Option (Reply × World)
unfolding create_and_tag_object mknod_file
mknod_object S q w = elim (check_tagging_consistency S.engine q w) [
  | none ↦ none
  | some q1 ↦
      let (created, r) = create_and_tag_object S true q1 w in
      let reply : Reply = elim created [ none ↦ failure eio | some inode ↦ success 0 ] in
      some (if q1.is_taggable then mknod_file S r.0 reply r.1 else mknod_file S q1 (success 0) w)
]

unfoldable pub mknod_body : Settings → QTree → World → Option (Reply × World)
unfolding mknod_object alias_create printf_s
mknod_body S q w =
    let on_object =
      if is_all_path q.full_path then some (failure efault, w) else mknod_object S q w in
    let other : Option (Reply × World) = if q.points_to_object then on_object else elim q.type [
      | alias ↦ some (success 0, alias_create q.dbi (printf_s q.alias) w)
      | _ ↦ some (failure erofs, w)
    ] in
    elim q.type [
      | malformed ↦ some (failure efault, w)
      | archive ↦ some (failure erofs, w)
      | _ ↦ other
    ]

unfoldable pub mknod : Settings → Text → World → Option (Reply × World)
unfolding mknod_body exit_operation querytree_new
mknod S path w = elim (querytree_new S path true true false w) [
  | none ↦ none
  | some (q, w1) ↦ elim (mknod_body S q w1) [
    | none ↦ none
    | some result ↦ some (exit_operation S q w result)
  ]
]

-- The queries that a link may be made in: objects, and complete store/ queries.
unfoldable holds_objects : QTree → Bool
holds_objects q = q.points_to_object || (elim q.type [ store ↦ true | _ ↦ false ] && q.complete)

-- The name of a link that is made in a directory is borrowed from its target.
unfoldable borrow_name : Settings → Text → QTree → World → QTree × World
unfolding set_object_path printf_s
borrow_name S from q w =
    if is_nonempty (printf_s q.object_path) && is_some q.object_path
    then (q, w)
    else set_object_path S.archive_dir (some (S.basename from)) q w

-- A symbolic link to the same target that is in the database.
unfoldable known_symlink : Engine → Bool → Text → World → ℕ
unfolding query_integer object_inodes
known_symlink E conn from w =
    query_integer E conn
      (object_inodes (select (λ (o : ObjectRow). str_eq o.symlink from) w.objects))

unfoldable symlink_new : Settings → Text → QTree → World → Reply × World
unfolding create_and_tag_object set_symlink execute system_call
symlink_new S from q w =
    let (created, r) = create_and_tag_object S true q w in
    elim created [
      | none ↦ (failure eio, r.1)
      | some inode ↦
          system_call S (sys_symlink from r.0.full_archive_path)
            (execute q.dbi (set_symlink from r.0.inode) r.1)
    ]

unfoldable symlink_taggable : Settings → Text → QTree → World → Reply × World
unfolding known_symlink symlink_new querytree_traverse tag_object
symlink_taggable S from q w =
    let known = known_symlink S.engine q.dbi from w in
    if known == 0
    then symlink_new S from q w
    else (success 0, querytree_traverse (λ n k v. tag_object S.engine q.dbi n k v known) q.tree w)

unfoldable symlink_object : Settings → Text → QTree → World → Option (Reply × World)
unfolding borrow_name symlink_taggable system_call
symlink_object S from q w =
    let (q1, w1) = borrow_name S from q w in
    elim (check_tagging_consistency S.engine q1 w1) [
      | none ↦ none
      | some q2 ↦ some (
          if q2.is_taggable
          then symlink_taggable S from q2 w1
          else system_call S (sys_symlink from q2.full_archive_path) w1)
    ]

unfoldable pub symlink_body : Settings → Text → QTree → World → Option (Reply × World)
unfolding holds_objects symlink_object
symlink_body S from q w =
    let linked = if holds_objects q then symlink_object S from q w else some (failure einval, w) in
    elim q.type [ malformed ↦ some (failure enoent, w) | _ ↦ linked ]

unfoldable pub symlink : Settings → Text → Text → World → Option (Reply × World)
unfolding symlink_body exit_operation querytree_new
symlink S from to w = elim (querytree_new S to true true false w) [
  | none ↦ none
  | some (q, w1) ↦ elim (symlink_body S from q w1) [
    | none ↦ none
    | some result ↦ some (exit_operation S q w result)
  ]
]

unfoldable link_object : Settings → Text → QTree → QTree → World → Option (Reply × World)
unfolding borrow_name create_and_tag_object system_call
link_object S from source q w =
    let (q1, w1) = borrow_name S from q w in
    elim (check_tagging_consistency S.engine q1 w1) [
      | none ↦ none
      | some q2 ↦
          let (created, r) = create_and_tag_object S true q2 w1 in
          let tagged : Reply × World = elim created [
            | none ↦ (failure eio, r.1)
            | some inode ↦
                system_call S (sys_link source.full_archive_path r.0.full_archive_path) r.1
          ] in
          some (
            if q2.is_taggable
            then tagged
            else system_call S (sys_link source.full_archive_path q2.full_archive_path) w1)
    ]

unfoldable pub link_body : Settings → Text → QTree → QTree → World → Option (Reply × World)
unfolding holds_objects link_object
link_body S from source q w =
    let linked =
      if holds_objects q then link_object S from source q w else some (failure einval, w) in
    let checked : Option (Reply × World) = elim q.type [
      | malformed ↦ some (failure enoent, w)
      | _ ↦ linked
    ] in
    elim source.type [ malformed ↦ some (failure enoent, w) | _ ↦ checked ]

unfoldable drop_prefix : Text → Text → Text
drop_prefix [] path = path
drop_prefix (d ∷ prefix) [] = []
drop_prefix (d ∷ prefix) (c ∷ path) = drop_prefix prefix path

-- A source under the mount point is read without it.
unfoldable pub inner_path : Settings → Text → Text
unfolding starts_with drop_prefix
inner_path S from = if starts_with from S.mountpoint then drop_prefix S.mountpoint from else from

-- Neither query starts a transaction: the first has no connection, the second asks for none.
unfoldable pub link : Settings → Text → Text → World → Option (Reply × World)
unfolding inner_path link_body querytree_destroy is_success querytree_new
link S from to w = elim (querytree_new S (inner_path S from) true false false w) [
  | none ↦ none
  | some (source, w1) ↦ elim (querytree_new S to false true false w1) [
    | none ↦ none
    | some (q, w2) ↦ elim (link_body S from source q w2) [
      | none ↦ none
      | some (reply, w3) ↦
          let w4 = querytree_destroy S (is_success reply) source w w3 in
          some (reply, querytree_destroy S (is_success reply) q w w4)
    ]
  ]
]
