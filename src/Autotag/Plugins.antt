-- ===== src/Autotag/Plugins.antt =====
-- The plugins of src/plugins. A filter is the entry of repository.ini for the plugin, or a default.
use tagsistant.Base.{Text, codes, Option, none, some, Bool, true, List, [], ◌∷◌, ◌++◌}
use tagsistant.Sql.{World}
use tagsistant.Sql.Tags.{tag_object}
use tagsistant.Query.{QTree}
use tagsistant.Resolve.New.{Settings}
use tagsistant.Autotag.{Verdict, tp_ok, tp_stop, Processor, Plugin, plugin_iterator}

-- tagsistant_get_ini_entry() for a section and the key `filter`, and whether a regular expression
-- matches a text.
record Filters : Type 0 where
  pub ini_filter : Text → Option Text
  pub matches : Text → Text → Bool

-- The expression of tagsistant_plugin_init().
unfoldable filter_of : Filters → Text → Text → Text → Bool
filter_of F section default = elim (F.ini_filter section) [
  | none ↦ F.matches default
  | some pattern ↦ F.matches pattern
]

-- The default tags of a plugin, in their order.
unfoldable default_tags : Settings → QTree → List Text → World → World
default_tags S q [] w = w
default_tags S q (tag ∷ tags) w =
    default_tags S q tags (tag_object S.engine q.dbi (some tag) none none q.inode w)

-- Default tags, then the keywords that the filter lets through.
unfoldable tag_and_filter : List Text → Text → (Text → Bool) → Verdict → Processor
tag_and_filter tags namespace filter verdict S q keywords w =
    (verdict, plugin_iterator S filter namespace keywords q (default_tags S q tags w))

abbrev size_filter : Text
size_filter = codes "^(size|orientation)$"

abbrev author_filter : Text
author_filter = codes "^(author|date|language)$"

abbrev album_filter : Text
album_filter = codes "^(year|album|artist)$"

abbrev photo_filter : Text
photo_filter =
    codes "^(white balance|image quality|metering mode|"
    ++ (codes "exposure mode|iso speed|focal length (35mm equivalent)|focal length|"
        ++ (codes "flash|exposure bias|aperture|exposure|date|orientation|camera model|"
            ++ codes "camera make|creation date|software|source|size)$"))

unfoldable gif_plugin : Filters → Plugin
gif_plugin F = record {
  mime_type = codes "image/gif";
  processor =
      tag_and_filter (codes "image" ∷ []) (codes "image:")
        (filter_of F (codes "mime:image/gif") size_filter) tp_stop;
}

unfoldable png_plugin : Filters → Plugin
png_plugin F = record {
  mime_type = codes "image/png";
  processor =
      tag_and_filter (codes "image" ∷ []) (codes "image:")
        (filter_of F (codes "mime:image/png") size_filter) tp_stop;
}

-- The filter is that of mime:image/html, while repository.ini has mime:text/html.
unfoldable html_plugin : Filters → Plugin
html_plugin F = record {
  mime_type = codes "text/html";
  processor =
      tag_and_filter (codes "document" ∷ codes "webpage" ∷ codes "html" ∷ []) (codes "document:")
        (filter_of F (codes "mime:image/html") author_filter) tp_stop;
}

unfoldable xml_plugin : Filters → Plugin
xml_plugin F = record {
  mime_type = codes "application/xml";
  processor =
      tag_and_filter (codes "document" ∷ []) (codes "document:")
        (filter_of F (codes "mime:application/xml") author_filter) tp_stop;
}

unfoldable pdf_plugin : Filters → Plugin
pdf_plugin F = record {
  mime_type = codes "application/pdf";
  processor =
      tag_and_filter (codes "document" ∷ []) (codes "PDF:")
        (filter_of F (codes "mime:application/pdf") author_filter) tp_stop;
}

unfoldable mp3_plugin : Filters → Plugin
mp3_plugin F = record {
  mime_type = codes "audio/mpeg";
  processor =
      tag_and_filter (codes "audio" ∷ []) (codes "audio:")
        (filter_of F (codes "mime:audio/mpeg") album_filter) tp_stop;
}

unfoldable ogg_plugin : Filters → Plugin
ogg_plugin F = record {
  mime_type = codes "application/ogg";
  processor =
      tag_and_filter (codes "audio" ∷ []) (codes "audio:")
        (filter_of F (codes "mime:application/ogg") album_filter) tp_stop;
}

unfoldable photo_plugin : Filters → Plugin
photo_plugin F = record {
  mime_type = codes "image/*";
  processor =
      tag_and_filter [] (codes "photo:") (filter_of F (codes "mime:image/*") photo_filter) tp_ok;
}

-- EXCLUDE_OTHER_PLUGINS is 0.
unfoldable jpeg_plugin : Filters → Plugin
jpeg_plugin F = record {
  mime_type = codes "image/jpeg";
  processor = λ S q keywords w.
      let tagged = tag_object S.engine q.dbi (some (codes "image")) none none q.inode w in
      let formatted =
        tag_object S.engine q.dbi (some (codes "image:")) (some (codes "format"))
          (some (codes "jpeg")) q.inode tagged in
      (
        tp_ok,
        plugin_iterator S (filter_of F (codes "mime:image/jpeg") size_filter) (codes "image:")
            keywords q formatted,
      );
}

-- The empty expression matches every keyword.
unfoldable generic_plugin : Plugin
generic_plugin = record {
  mime_type = codes "*/*";
  processor =
      λ S q keywords w. (tp_ok, plugin_iterator S (λ k. true) (codes "autotagging:") keywords q w);
}
