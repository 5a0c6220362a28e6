-- ===== src/Autotag.antt =====
-- Autotagging: tagsistant_process() and the functions for plugins of src/plugin.c, for libextractor
-- 0.5, and tagsistant_autotagging_kernel() of src/deduplication.c.
pub mod Plugins
pub mod Cleaning
pub mod Queue
use tagsistant.Base.{
  ℕ, ◌-◌, Text, codes, Option, none, some, Bool, true, false, ◌&&◌, ◌||◌, not, List, [], ◌∷◌, ◌++◌,
  str_eq, ◌==◌, ltb, leb, if◌then◌else◌, length,
}
use tagsistant.Sql.{World}
use tagsistant.Sql.Tags.{tag_object}
use tagsistant.Query.{QTree}
use tagsistant.Query.Paths.{slash, is_nonempty, starts_with}
use tagsistant.Resolve.New.{Settings, querytree_new}
use tagsistant.Fuse.{querytree_destroy}
use tagsistant.Fuse.Reading.{take, drop}

-- tagsistant_keyword
pub record Keyword : Type 0 where
  pub keyword : Text
  pub value : Text

-- An element of EXTRACTOR_KeywordList: the name of its type, whether that is EXTRACTOR_MIMETYPE, and
-- its value.
record Extracted : Type 0 where
  pub type_name : Text
  pub is_mimetype : Bool
  pub value : Text

-- The codes of a processor.
pub data Verdict : Type 0 where
  tp_error tp_ok tp_stop tp_null : Verdict

abbrev is_stop : Verdict → Bool
is_stop tp_stop = true
is_stop _ = false

abbrev pub Processor : Type 0
Processor = Settings → QTree → List Keyword → World → Verdict × World

-- tagsistant_plugin_t
pub record Plugin : Type 0 where
  pub mime_type : Text
  pub processor : Processor

-- TAGSISTANT_MAX_KEYWORDS and TAGSISTANT_MAX_KEYWORD_LENGTH
abbrev max_keywords : ℕ
max_keywords = 1024

abbrev max_keyword_length : ℕ
max_keyword_length = 256

-- tagsistant_rx_cleaner, replaced by `-`.
unfoldable pub clean : Text → Text
clean [] = []
clean (c ∷ s) = (if c == slash || c == b' ' then b'-' else c) ∷ clean s

-- tagsistant_keyword_matcher(): `matches` is the regular expression.
unfoldable pub keyword_matcher : Settings → (Text → Bool) → Text → Keyword → QTree → World → World
keyword_matcher S matches namespace k q w =
    if matches k.keyword
    then tag_object S.engine q.dbi (some namespace) (some (clean k.keyword)) (some (clean k.value))
        q.inode w
    else w

-- tagsistant_plugin_iterator(), up to the first keyword that is empty.
unfoldable pub plugin_iterator :
    Settings → (Text → Bool) → Text → List Keyword → QTree → World → World
plugin_iterator S matches namespace [] q w = w
plugin_iterator S matches namespace (k ∷ keywords) q w =
    let more =
      plugin_iterator S matches namespace keywords q (keyword_matcher S matches namespace k q w) in
    if is_nonempty k.keyword then more else w

-- tagsistant_plugin_get_keyword_value()
unfoldable get_keyword_value : Text → List Keyword → Option Text
get_keyword_value name [] = none
get_keyword_value name (k ∷ keywords) =
    if str_eq name k.keyword then some k.value else get_keyword_value name keywords

-- The keyword buffer; `none`: a text overruns its place in it.
unfoldable feed_keywords : List Extracted → Option (List Keyword)
feed_keywords [] = some []
feed_keywords (x ∷ rest) = elim (feed_keywords rest) [
  | none ↦ none
  | some keywords ↦
      if ltb (length x.type_name) max_keyword_length && ltb (length x.value) max_keyword_length
      then some (record { keyword = x.type_name; value = x.value } ∷ keywords)
      else none
]

-- The last MIME type among the keywords that are read.
unfoldable find_mime_type : List Extracted → Option Text → Option Text
find_mime_type [] found = found
find_mime_type (x ∷ rest) found =
    find_mime_type rest (if x.is_mimetype then some x.value else found)

-- `image/jpeg` becomes `image/*`.
unfoldable generic_type : Text → Text
generic_type [] = []
generic_type (c ∷ s) =
    let more = c ∷ generic_type s in if c == slash then slash ∷ b'*' ∷ [] else more

-- One loop over the plugins of a MIME type: whether one of them has stopped the chain.
unfoldable run_plugins : Settings → Text → List Plugin → QTree → List Keyword → World → Bool × World
run_plugins S mime [] q keywords w = (false, w)
run_plugins S mime (p ∷ plugins) q keywords w =
    let (verdict, w1) = p.processor S q keywords w in
    let on = run_plugins S mime plugins q keywords w in
    let after = run_plugins S mime plugins q keywords w1 in
    if str_eq p.mime_type mime then (if is_stop verdict then (true, w1) else after) else on

-- The three loops: the MIME type, its class, and everything.
unfoldable run_chain : Settings → Text → List Plugin → QTree → List Keyword → World → World
unfolding generic_type
run_chain S mime plugins q keywords w =
    let (stopped, w1) = run_plugins S mime plugins q keywords w in
    let (stopped', w2) = run_plugins S (generic_type mime) plugins q keywords w1 in
    let (_, w3) = run_plugins S (codes "*/*") plugins q keywords w2 in
    if stopped then w1 else if stopped' then w2 else w3

-- tagsistant_process(), on the keywords that libextractor finds. `none`: a crash, or an overrun.
unfoldable process_file : Settings → List Plugin → List Extracted → Text → World → Option World
process_file S plugins extracted path w =
    let read = take max_keywords extracted in
    elim (feed_keywords read) [
      | none ↦ none
      | some keywords ↦ elim (find_mime_type read none) [
        | none ↦ some w
        | some mime ↦ elim (querytree_new S path true true false w) [
          | none ↦ none
          | some (q, w1) ↦
              some (querytree_destroy S true q w (run_chain S mime plugins q keywords w1))
        ]
      ]
    ]

-- TAGSISTANT_AUTOTAGGING_SEPARATOR
abbrev autotagging_separator : Text
autotagging_separator = codes "<><><>"

-- What stands on the queue.
unfoldable pub join_paths : Text → Text → Text
join_paths path full_archive_path = path ++ (autotagging_separator ++ full_archive_path)

-- g_strsplit() in at most two parts.
unfoldable pub split_paths : Text → Text × Option Text
unfolding starts_with
split_paths [] = ([], none)
split_paths (c ∷ s) =
    let (path, full) = split_paths s in
    if starts_with (c ∷ s) autotagging_separator
    then ([], some (drop 6 (c ∷ s)))
    else (c ∷ path, full)

-- tagsistant_autotagging_kernel(), with what libextractor finds in a file.
unfoldable autotagging_kernel :
    Settings → List Plugin → (Option Text → List Extracted) → Text → World → Option World
autotagging_kernel S plugins extract paths w =
    let (path, full_archive_path) = split_paths paths in
    let processed = process_file S plugins (extract full_archive_path) path w in
    if leb (length paths) (length autotagging_separator) then some w else processed
