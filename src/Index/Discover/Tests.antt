-- ===== src/Index/Discover/Tests.antt =====
-- A root with a directory that is skipped, one that is excluded, a link and a binary file.
use mathlib.Core.List.{Memᴰ}
use rillan.Base.{
  ◌≡◌, ◌↔◌, refl, ◌⊎◌, inl, inr, pos, Bool, true, false, Option, none, some, List, [], ◌∷◌, ◌++◌,
  Str, lit, split, has_prefix, str_compare, str_eq, str_mem, trim_space,
}
use rillan.Base.Sort.{insert, sort_func}
use rillan.Base.Sort.Laws.{IsSorted}
use rillan.Config.{IndexConfig}
use rillan.Index.Chunk.{SourceFile}
use rillan.Index.Discover.Content.{replace_crlf, replace_cr, normalize_content}
use rillan.Index.Discover.{
  Node, Entries, Root, DiscoverError, is_indexable_text, visit_file, visit, visit_entries,
  walk_root, discover_files,
}
use rillan.Index.Discover.Found.{by_path, IsFoundIn, discover_files-IsFound}
use rillan.Index.Pattern.{
  should_skip_dir, has_glob, has_slash, match_path_segments, matches_glob, matches_one,
  matches_pattern,
}

discovering : Unit {0}
unfolding discover_files walk_root visit visit_entries visit_file is_indexable_text
    normalize_content replace_crlf replace_cr should_skip_dir has_glob has_slash match_path_segments
    matches_glob matches_one matches_pattern split has_prefix str_compare str_eq str_mem trim_space
    insert sort_func lit
discovering = tt

abbrev utf8_valid : Str → Bool
utf8_valid content = true

abbrev path_match : Str → Str → Option Bool
path_match pattern name = some (str_eq pattern name)

abbrev base_of : Str → Str
base_of path = path

abbrev join : Str → Str → Str
join path name = path ++ lit "/" ++ name

abbrev cfg : IndexConfig
cfg = record {
  root = lit " repo";
  includes = [];
  excludes = lit "docs" ∷ [];
  chunk_size_lines = pos 120;
}

abbrev text_file : Str → Node
text_file text = Node.file (record { is_symlink = false; size = some (pos 3); content = some text })

abbrev tree : Entries
tree =
    Entries.entry (lit ".git") (Node.dir (Entries.entry (lit "config") (text_file []) Entries.end))
      (Entries.entry (lit "docs") Node.closed_dir (
        Entries.entry (lit "link")
          (Node.file (record { is_symlink = true; size = none; content = none }))
          (Entries.entry (lit "src")
            (Node.dir (Entries.entry (lit "b") (text_file (97 ∷ 13 ∷ 10 ∷ [])) Entries.end))
            (Entries.entry (lit "zero") (text_file (0 ∷ []))
              (Entries.entry (lit "a") (text_file (13 ∷ [])) Entries.end)))))

abbrev abs : Str → Option Str
abs path = some (lit "/" ++ path)

abbrev files : List SourceFile
files =
    record {
      absolute_path = lit "/repo/a";
      relative_path = lit "a";
      content = 10 ∷ [];
      size_bytes = pos 3;
    }
    ∷ record {
      absolute_path = lit "/repo/src/b";
      relative_path = lit "src/b";
      content = 97 ∷ 10 ∷ [];
      size_bytes = pos 3;
    }
    ∷ []

discovered :
    discover_files utf8_valid path_match base_of join cfg abs (λ path. Root.opened tree) ≡ inr files
unfolding discovering
discovered = refl

linked_root :
    discover_files utf8_valid path_match base_of join cfg abs (λ path. Root.linked) ≡ inr []
unfolding discovering
linked_root = refl

closed_refused :
    discover_files utf8_valid path_match base_of join cfg abs
      (λ path. Root.opened (Entries.entry (lit "lib") Node.closed_dir Entries.end))
    ≡ inl DiscoverError.unread_dir
unfolding discovering
closed_refused = refl

discover_files-IsFound_example :
    (root : Str) × (abs (trim_space cfg.root) ≡ some root)
    × IsSorted by_path files
    × (((Root.opened tree ≡ Root.linked) × (files ≡ []))
        ⊎ ((entries : Entries) × (Root.opened tree ≡ Root.opened entries)
            × ((indexed : SourceFile)
                → Memᴰ indexed files
                  ↔ IsFoundIn utf8_valid path_match base_of join cfg root [] entries indexed)))
discover_files-IsFound_example =
    discover_files-IsFound utf8_valid path_match base_of join cfg abs (λ path. Root.opened tree)
      files discovered
