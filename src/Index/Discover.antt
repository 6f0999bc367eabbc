-- ===== src/Index/Discover.antt =====
-- internal/index/discovery.go: the files of a root that are indexed. The tree that
-- filepath.WalkDir walks is data, its entries in the order of the walk; the path of an entry relative
-- to the root is its names with slashes between them.
pub mod Content
pub mod Found
mod Indexed
mod Tests
use rillan.Base.{
  ℕ, ℤ, pos, ltb_ℤ, not, ◌&&◌, ◌||◌, ◌==◌, ◌⊎◌, inl, inr, ◌>>=◌, if◌then◌else◌, Bool, Option, none,
  some, List, [], ◌∷◌, ◌++◌, any, is_empty, Str, lit, str_compare, trim_space,
}
use rillan.Base.Sort.{sort_func}
use rillan.Config.{IndexConfig}
use rillan.Index.Chunk.{SourceFile}
use rillan.Index.Discover.Content.{normalize_content}
use rillan.Index.Pattern.{should_skip_dir, matches_pattern}

-- A file that is no directory: what its entry and os.ReadFile say of it.
pub record FileEntry : Type 0 where
  pub is_symlink : Bool
  pub size : Option ℤ
  pub content : Option Str

mutual
  pub data Node : Type 0 where
    file : FileEntry → Node
    dir : Entries → Node
    closed_dir : Node

  pub data Entries : Type 0 where
    end : Entries
    entry : Str → Node → Entries → Entries

-- What the root is. A symbolic link to a directory is a directory to os.Stat, and is not walked.
pub data Root : Type 0 where
  missing not_dir linked closed : Root
  opened : Entries → Root

pub data DiscoverError : Type 0 where
  empty_root unresolved_root no_root root_not_dir unread_dir unread_info unread_file : DiscoverError

abbrev pub max_indexable_bytes : ℕ
max_indexable_bytes = 1048576

abbrev pub beneath : Str → Str → Str
beneath prefix name = if is_empty prefix then name else prefix ++ lit "/" ++ name

module _ (utf8_valid : Str → Bool) (path_match : Str → Str → Option Bool) (base_of : Str → Str)
    (join : Str → Str → Str) where
  unfoldable pub is_indexable_text : Str → Bool
  is_indexable_text content =
      is_empty content || (not (any (λ c. c == 0) content) && utf8_valid content)

  module _ (cfg : IndexConfig) where
    abbrev pub is_skipped_dir : (name rel : Str) → Bool
    is_skipped_dir name rel =
        should_skip_dir name || matches_pattern path_match base_of rel cfg.excludes

    -- A file that the patterns leave out.
    abbrev pub is_left_out : Str → Bool
    is_left_out rel =
        matches_pattern path_match base_of rel cfg.excludes
        || (not (is_empty cfg.includes)
            && not (matches_pattern path_match base_of rel cfg.includes))

    unfoldable pub visit_file : (path rel : Str) → FileEntry → DiscoverError ⊎ List SourceFile
    unfolding is_indexable_text
    visit_file path rel f =
        if f.is_symlink then inr [] else if is_left_out rel then inr [] else elim f.size [
          | none ↦ inl DiscoverError.unread_info
          | some size ↦ if ltb_ℤ (pos max_indexable_bytes) size then inr [] else elim f.content [
            | none ↦ inl DiscoverError.unread_file
            | some content ↦
                if not (is_indexable_text content)
                then inr []
                else inr (
                    record {
                      absolute_path = path;
                      relative_path = rel;
                      content = normalize_content content;
                      size_bytes = size;
                    }
                    ∷ [])
          ]
        ]

    unfoldable mutual
      pub visit : (path rel name : Str) → Node → DiscoverError ⊎ List SourceFile
      visit path rel name (Node.file f) = visit_file path rel f
      visit path rel name (Node.dir entries) =
          let inside = visit_entries path rel entries in
          if is_skipped_dir name rel then inr [] else inside
      visit path rel name Node.closed_dir =
          if is_skipped_dir name rel then inr [] else inl DiscoverError.unread_dir

      pub visit_entries : (path prefix : Str) → Entries → DiscoverError ⊎ List SourceFile
      visit_entries path prefix Entries.end = inr []
      visit_entries path prefix (Entries.entry name node rest) =
          visit (join path name) (beneath prefix name) name node >>= λ found.
          visit_entries path prefix rest >>= λ more. inr (found ++ more)

    unfoldable pub walk_root : Str → Root → DiscoverError ⊎ List SourceFile
    unfolding visit_entries
    walk_root path Root.missing = inl DiscoverError.no_root
    walk_root path Root.not_dir = inl DiscoverError.root_not_dir
    walk_root path Root.linked = inr []
    walk_root path Root.closed = inl DiscoverError.unread_dir
    walk_root path (Root.opened entries) = visit_entries path [] entries

    unfoldable pub discover_files :
        (abs : Str → Option Str) → (stat : Str → Root) → DiscoverError ⊎ List SourceFile
    unfolding walk_root
    discover_files abs stat =
        if is_empty (trim_space cfg.root)
        then inl DiscoverError.empty_root
        else elim (abs (trim_space cfg.root)) [
          | none ↦ inl DiscoverError.unresolved_root
          | some root ↦ walk_root root (stat root) >>= λ files.
              inr (sort_func (λ a b. str_compare a.relative_path b.relative_path) files)
        ]
