-- ===== src/Fuse/Writing/Aliases.antt =====
-- What write() saves of an alias, and what read() gives back (src/fuse_operations/write.c, read.c).
use tagsistant.Base.{
  ℕ, ◌≤◌, ◌<◌, ◌≡◌, refl, min, Text, some, Bool, true, false, ◌&&◌, ◌||◌, not, [], ◌∷◌, ◌==◌,
  length, any, arith,
}
use tagsistant.Sql.{World}
use tagsistant.Sql.Tags.{printf_s}
use tagsistant.Sql.Aliases.{alias_exists}
use tagsistant.Sql.Aliases.Laws.{alias_get-set}
use tagsistant.Query.{QTree}
use tagsistant.Query.Paths.{slash}
use tagsistant.Fuse.{success}
use tagsistant.Fuse.Handles.{FileInfo}
use tagsistant.Fuse.Reading.{take, read_alias}
use tagsistant.Fuse.Reading.Chunks.{length-take, take-length}
use tagsistant.Fuse.Writing.{replace_last, join_slashes, alias_value, alias_max_length, write_alias}

length-take-le : (n : ℕ) (xs : Text) → length (take n xs) ≤ n
length-take-le n xs = ground (arith, length-take n xs)

-- The saved text fits into the column, and is no longer than what was written.
pub alias_value_bounds :
    (buf : Text) (size : ℕ)
    → (length (alias_value buf size) < alias_max_length) × (length (alias_value buf size) ≤ size)
unfolding alias_value
alias_value_bounds buf size =
    let text = join_slashes (replace_last 13 (replace_last 10 (take size buf))) in
    omega (arith, length-take-le (min (min size 1023) (length text)) text)

-- A text that holds no line feed, no carriage return and no double slash.
unfoldable pub is_plain_query : Text → Bool
is_plain_query [] = true
is_plain_query (c ∷ []) = not (c == 10) && not (c == 13)
is_plain_query (c ∷ d ∷ s) =
    not (c == 10) && not (c == 13) && not (c == slash && d == slash) && is_plain_query (d ∷ s)

any-plain :
    (e : ℕ) (s : Text)
    → (e == 10 || e == 13) ≡ true
    → is_plain_query s ≡ true
    → any (λ c. c == e) s ≡ false
unfolding is_plain_query any
any-plain e [] h k = refl
any-plain e (c ∷ []) h k = ground arith
any-plain e (c ∷ d ∷ s) h k = ground (arith, any-plain e (d ∷ s))

replace_last-none : (e : ℕ) (s : Text) → any (λ c. c == e) s ≡ false → replace_last e s ≡ s
unfolding replace_last any
replace_last-none e [] h = refl
replace_last-none e (c ∷ s) h = ground (arith, replace_last-none e s)

join_slashes-plain : (s : Text) → is_plain_query s ≡ true → join_slashes s ≡ s
unfolding join_slashes is_plain_query
join_slashes-plain [] h = refl
join_slashes-plain (c ∷ []) h = refl
join_slashes-plain (c ∷ d ∷ s) h = ground (arith, join_slashes-plain (d ∷ s))

alias_value-plain :
    (buf : Text) (size : ℕ)
    → is_plain_query buf ≡ true
    → length buf ≤ size
    → length buf < alias_max_length
    → alias_value buf size ≡ buf
unfolding alias_value
alias_value-plain buf size h fits short = rw (take-length size buf fits) (
    rw (replace_last-none 10 buf (any-plain 10 buf refl h)) (
      rw (replace_last-none 13 buf (any-plain 13 buf refl h)) (
        rw (join_slashes-plain buf h)
          (take-length (min (min size 1023) (length buf)) buf (ground arith)))))

-- A query that is written to an alias, in one line without double slashes and shorter than 1024
-- bytes, is read back as it was written, with a buffer that holds it.
pub read_alias-write_alias :
    (buf name : Text) (size room : ℕ) (q : QTree) (fi fi' : FileInfo) (w : World)
    → q.dbi ≡ true
    → q.alias ≡ some name
    → alias_exists true name w ≡ true
    → is_plain_query buf ≡ true
    → length buf ≤ size
    → length buf < alias_max_length
    → length buf ≤ room
    → let w' = (write_alias buf size name q fi w).1.1 in
      read_alias room q fi' w' ≡ some ((success (length buf), some buf), (fi', w'))
unfolding write_alias read_alias printf_s
read_alias-write_alias buf name size room q fi fi' w conn e known plain fits short large =
    ground (arith, alias_value-plain buf size, alias_get-set name (alias_value buf size) w)
