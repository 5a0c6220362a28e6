-- ===== src/Autotag/Queue.antt =====
-- The element of the autotagging queue and its two paths (src/deduplication.c).
use tagsistant.Base.{◌≡◌, ap, Text, some, false, [], ◌∷◌, ◌==◌, any, arith}
use tagsistant.Query.Paths.{starts_with}
use tagsistant.Fuse.Reading.{drop}
use tagsistant.Fuse.Reading.Chunks.{drop-zero}
use tagsistant.Autotag.{join_paths, split_paths}

-- The kernel gets back the two paths that were put on the queue, if the first one has no `<`.
split_paths-join_paths :
    (path full : Text)
    → any (λ c. c == b'<') path ≡ false
    → split_paths (join_paths path full) ≡ (path, some full)
unfolding join_paths split_paths any starts_with drop
split_paths-join_paths [] full h = ap (λ (rest : Text). ([], some rest)) (drop-zero full)
split_paths-join_paths (c ∷ path) full h = ground (arith, split_paths-join_paths path full)
