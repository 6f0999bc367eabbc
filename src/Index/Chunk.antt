-- ===== src/Index/Chunk.antt =====
-- internal/index/chunker.go: the chunks of a file, and the record of it. The hash is the
-- parameter `hash`, a function of the text.
pub mod Cover
mod Tests
pub mod Window
use rillan.Base.{
  split, join_lines, ℕ, zero, suc, leb, ◌+◌, ℤ, pos, ltb_ℤ, pos_part, min, if◌then◌else◌, List, [],
  ◌∷◌, ◌++◌, take, drop, length, is_empty, Str, lit,
}
use rillan.Base.Decimal.{decimal}

pub record SourceFile : Type 0 where
  pub absolute_path : Str
  pub relative_path : Str
  pub content : Str
  pub size_bytes : ℤ

pub record DocumentRecord : Type 0 where
  pub path : Str
  pub content_hash : Str
  pub size_bytes : ℤ

pub record ChunkRecord : Type 0 where
  pub id : Str
  pub document_path : Str
  pub ordinal : ℕ
  pub start_line : ℕ
  pub end_line : ℕ
  pub content : Str
  pub content_hash : Str

abbrev pub lines_of : Str → List Str
lines_of content = split 10 content

abbrev pub chunk_size : ℤ → ℕ
chunk_size lines_per_chunk = if ltb_ℤ lines_per_chunk (pos 1) then 120 else pos_part lines_per_chunk

module _ (hash : Str → Str) where
  unfoldable pub build_document : SourceFile → DocumentRecord
  build_document file = record {
    path = file.relative_path;
    content_hash = hash file.content;
    size_bytes = file.size_bytes;
  }

  unfoldable pub chunk_of : Str → ℕ → ℕ → ℕ → Str → ChunkRecord
  chunk_of path ordinal start end content = record {
    id = hash (path ++ (lit ":" ++ (decimal ordinal ++ (lit ":" ++ hash content))));
    document_path = path;
    ordinal = ordinal;
    start_line = suc start;
    end_line = end;
    content = content;
    content_hash = hash content;
  }

  -- The rounds of the loop from line `start` on, `lines` being all the lines. Each round goes on
  -- by at least one line, so that the number of lines is fuel enough.
  unfoldable pub chunks_from : Str → ℕ → List Str → ℕ → ℕ → ℕ → List ChunkRecord
  unfolding join_lines
  chunks_from path size lines zero start ordinal = []
  chunks_from path size lines (suc fuel) start ordinal =
      let end = min (start + size) (length lines) in
      let content = join_lines (take size (drop start lines)) in
      let skipped = chunks_from path size lines fuel (start + size) ordinal in
      let kept = chunks_from path size lines fuel (start + size) (suc ordinal) in
      if leb (length lines) start
      then []
      else if is_empty content
      then skipped
      else chunk_of path ordinal start end content ∷ kept

  unfoldable pub chunk_file : SourceFile → ℤ → List ChunkRecord
  unfolding chunks_from
  chunk_file file lines_per_chunk =
      if is_empty file.content
      then []
      else chunks_from file.relative_path (chunk_size lines_per_chunk) (lines_of file.content)
          (length (lines_of file.content)) 0 0
