-- ===== src/Query.antt =====
-- The querytree of src/path_resolution.h: the path types, the and-nodes and the querytree object.
pub mod Parsing
pub mod Paths
pub mod Store
pub mod Routes
use tagsistant.Base.{ℕ, Text, Option, none, Bool, false, List, []}

-- tagsistant_query_operators
pub data Operator : Type 0 where
  no_operator equal_to contains_text greater_than smaller_than : Operator

-- tagsistant_query_type, without the entry that only counts them
pub data QType : Type 0 where
  malformed root archive tags retag relations stats store alias : QType

-- The ERROR MESSAGES of the header.
pub data ErrorMessage : Type 0 where
  malformed_query nested_tag_group close_tag_group_not_opened double_negation : ErrorMessage
  negation_inside_tag_group memory_allocation negation_on_first_position : ErrorMessage

-- What a qtree_and_node holds beside its links.
pub record AndTag : Type 0 where
  pub negate : Bool
  pub tag : Option Text
  pub tag_id : ℕ
  pub namespace : Option Text
  pub key : Option Text
  pub operator : Operator
  pub value : Option Text

abbrev pub empty_tag : AndTag
empty_tag = record {
  negate = false;
  tag = none;
  tag_id = 0;
  namespace = none;
  key = none;
  operator = no_operator;
  value = none;
}

-- A pointer to a qtree_and_node: NULL, or the node with `related`, `negated` and `next`.
pub data AndNode : Type 0 where
  null : AndNode
  node : AndTag → AndNode → AndNode → AndNode → AndNode

-- tagsistant_querytree. The or-nodes are the list of their and-sets; `dbi` tells whether a
-- connection is tied to the query.
pub record QTree : Type 0 where
  pub full_path : Text
  pub expanded_full_path : Text
  pub object_path : Option Text
  pub archive_path : Option Text
  pub full_archive_path : Option Text
  pub inode : ℕ
  pub type : QType
  pub points_to_object : Bool
  pub is_taggable : Bool
  pub is_external : Bool
  pub last_tag : Option Text
  pub valid : Bool
  pub complete : Bool
  pub exists : Bool
  pub force_inode_in_filenames : Bool
  pub tree : List AndNode
  pub negate_next_tag : Bool
  pub first_tag : Option Text
  pub second_tag : Option Text
  pub namespace : Option Text
  pub key : Option Text
  pub operator : Operator
  pub value : Option Text
  pub related_namespace : Option Text
  pub related_key : Option Text
  pub related_value : Option Text
  pub relation : Option Text
  pub stats_path : Option Text
  pub alias : Option Text
  pub dbi : Bool
  pub transaction_started : Bool
  pub do_reasoning : Bool
  pub schedule_for_unlink : Bool
  pub error_message : Option ErrorMessage

-- g_new0(tagsistant_querytree, 1)
abbrev pub new_qtree : QTree
new_qtree = record {
  full_path = [];
  expanded_full_path = [];
  object_path = none;
  archive_path = none;
  full_archive_path = none;
  inode = 0;
  type = malformed;
  points_to_object = false;
  is_taggable = false;
  is_external = false;
  last_tag = none;
  valid = false;
  complete = false;
  exists = false;
  force_inode_in_filenames = false;
  tree = [];
  negate_next_tag = false;
  first_tag = none;
  second_tag = none;
  namespace = none;
  key = none;
  operator = no_operator;
  value = none;
  related_namespace = none;
  related_key = none;
  related_value = none;
  relation = none;
  stats_path = none;
  alias = none;
  dbi = false;
  transaction_started = false;
  do_reasoning = false;
  schedule_for_unlink = false;
  error_message = none;
}
