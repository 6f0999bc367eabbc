-- ===== src/Index/Chunk/Tests.antt =====
-- A file of three lines in chunks of two.
use rillan.Base.{split, join_lines, ◌≡◌, refl, ℕ, ℤ, [], ◌∷◌, ◌++◌, Str, lit, map}
use rillan.Index.Chunk.{
  SourceFile, chunk_of, chunks_from, chunk_file, chunk_size, lines_of, build_document,
}
use rillan.Index.Chunk.Cover.{IsChunking, chunk_file-IsChunking}

abbrev hash : Str → Str
hash text = text

abbrev source : SourceFile
source = record {
  absolute_path = lit "/r/a";
  relative_path = lit "a";
  content = lit "x" ++ (10 ∷ 10 ∷ 10 ∷ lit "yz");
  size_bytes = ℤ.pos 6;
}

-- The second window is two empty lines, joined by a line feed.
windows :
    map {B = ℕ × (ℕ × Str)}
      (λ c. (c.start_line, (c.end_line, c.content)))
      (chunk_file hash source (ℤ.pos 2))
    ≡ (1, (2, lit "x" ++ (10 ∷ []))) ∷ (3, (4, 10 ∷ lit "yz")) ∷ []
unfolding chunk_file chunks_from chunk_of join_lines split lit
windows = refl

-- In chunks of one line the empty lines are left out.
singles :
    map {B = ℕ × ℕ} (λ c. (c.ordinal, c.start_line)) (chunk_file hash source (ℤ.pos 1))
    ≡ (0, 1) ∷ (1, 4) ∷ []
unfolding chunk_file chunks_from chunk_of join_lines split lit
singles = refl

document : (build_document hash source).content_hash ≡ source.content
unfolding build_document
document = refl

chunk_file-IsChunking_example :
    IsChunking hash
      (lit "a")
      (lines_of source.content)
      (chunk_size (ℤ.pos 2))
      (chunk_file hash source (ℤ.pos 2))
chunk_file-IsChunking_example = chunk_file-IsChunking hash source (ℤ.pos 2)
