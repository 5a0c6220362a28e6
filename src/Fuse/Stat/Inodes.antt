-- ===== src/Fuse/Stat/Inodes.antt =====
-- The inode numbers that getattr() gives to tags (src/fuse_operations/getattr.c).
use tagsistant.Base.{ℕ, ◌<◌, ◌≢◌, arith}
use tagsistant.Sql.Engine.{u32_mod}
use tagsistant.Fuse.Stat.{tag_ino}

-- Two different tags, whose ids are of 32 bits, get different inode numbers, although the product
-- wraps around.
tag_ino_distinct : (id id' : ℕ) → id < u32_mod → id' < u32_mod → id ≢ id' → tag_ino id ≢ tag_ino id'
unfolding tag_ino
tag_ino_distinct id id' h h' e same = e (omega (arith, h, h', same))
