-- ===== src/Tests/Autotag.antt =====
-- Autotagging of a photograph, and the element of its queue.
use tagsistant.Base.{codes, true, [], ◌∷◌, ◌≡◌, any}
use tagsistant.Query.{QTree, new_qtree}
use tagsistant.Autotag.{plugin_iterator}
use tagsistant.Autotag.Cleaning.{is_unclean, plugin_iterator-unclean}
use tagsistant.Tests.{sample_settings, sample_world}

abbrev photograph : QTree
photograph = record new_qtree { dbi = true; inode = 1 }

plugin_iterator-unclean_example :
    any is_unclean
      (plugin_iterator sample_settings
        (λ s. true)
        (codes "image:")
        (record { keyword = codes "a/b"; value = codes "c d" } ∷ [])
        photograph
        sample_world).tags
    ≡ any is_unclean sample_world.tags
plugin_iterator-unclean_example =
    plugin_iterator-unclean sample_settings (λ s. true) (codes "image:")
      (record { keyword = codes "a/b"; value = codes "c d" } ∷ []) photograph sample_world
