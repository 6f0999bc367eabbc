-- ===== src/Index/Chunk/Cover.antt =====
-- What the chunks of a file promise, stated without the loop of `ChunkFile`.
use mathlib.Core.List.{Memᴰ}
use mathlib.Core.Bool.{false≢true}
use rillan.Base.{
  split, join_lines, ◌≡◌, refl, sym, ◌∙◌, ap, subst, ◌⊎◌, inl, inr, ℕ, zero, suc, ◌+◌, ◌-◌, ◌≤◌,
  ◌<◌, min, leb, ℤ, true, false, List, [], ◌∷◌, take, drop, length, is_empty, All, arith, Str,
  Bool-cases,
}
use rillan.Index.Chunk.{
  SourceFile, ChunkRecord, chunk_of, chunks_from, chunk_file, chunk_size, lines_of,
}
use rillan.Index.Chunk.Window.{drop-drop, drop_beyond, window, filled_window}

module _ (hash : Str → Str) (path : Str) where
  -- A chunk is a window of at most `size` lines, which is not empty, and has its text and hash.
  pub record IsChunk (lines : List Str) (size : ℕ) (chunk : ChunkRecord) : Type 0 where
    pub in_file :
        (1 ≤ chunk.start_line)
        × (chunk.start_line ≤ chunk.end_line)
        × (chunk.end_line ≤ length lines)
    pub bounded : chunk.end_line < chunk.start_line + size
    pub text :
        chunk.content
        ≡ join_lines
            (take (suc chunk.end_line - chunk.start_line) (drop (chunk.start_line - 1) lines))
    pub filled : is_empty chunk.content ≡ false
    pub hashed : (chunk.content_hash ≡ hash chunk.content) × (chunk.document_path ≡ path)

  -- Chunks that start after line `from`, each after the end of the one before it, and are numbered
  -- from `ordinal` on.
  abbrev pub IsOrdered : ℕ → ℕ → List ChunkRecord → Type 0
  IsOrdered from ordinal [] = Unit
  IsOrdered from ordinal (chunk ∷ chunks) =
      (from < chunk.start_line)
      × (chunk.ordinal ≡ ordinal)
      × IsOrdered chunk.end_line (suc ordinal) chunks

  -- A chunk that holds the line of index `i`.
  abbrev pub Holds : List ChunkRecord → ℕ → Type 0
  Holds chunks i =
      (chunk : ChunkRecord) × Memᴰ chunk chunks
      × (chunk.start_line ≤ suc i)
      × (suc i ≤ chunk.end_line)

  -- The three cases of a round.
  round :
      (P : List ChunkRecord → Type 0) (size : ℕ) (lines : List Str) (fuel start ordinal : ℕ)
      → (length lines ≤ start → P [])
      → (start < length lines
          → is_empty (join_lines (take size (drop start lines))) ≡ true
          → P (chunks_from hash path size lines fuel (start + size) ordinal))
      → (start < length lines
          → is_empty (join_lines (take size (drop start lines))) ≡ false
          → P (
              chunk_of hash path ordinal start
                (min (start + size) (length lines))
                (join_lines (take size (drop start lines)))
              ∷ chunks_from hash path size lines fuel (start + size) (suc ordinal)))
      → P (chunks_from hash path size lines (suc fuel) start ordinal)
  unfolding chunks_from
  round P size lines fuel start ordinal done skipped kept =
      let content = join_lines (take size (drop start lines)) in
      elim (Bool-cases (leb (length lines) start)) [
        | inl past ↦ subst P (sym (ground (arith, past))) (done (ground (arith, past)))
        | inr inside ↦ elim (Bool-cases (is_empty content)) [
          | inl e ↦ subst P (sym (ground (arith, inside, e))) (skipped (ground (arith, inside)) e)
          | inr e ↦ subst P (sym (ground (arith, inside, e))) (kept (ground (arith, inside)) e)
        ]
      ]

  -- What the rounds of the loop do from line `start` on.
  module _ (size : ℕ) (lines : List Str) (positive : 1 ≤ size) where
    chunk_of-IsChunk :
        (start ordinal : ℕ)
        → start < length lines
        → is_empty (join_lines (take size (drop start lines))) ≡ false
        → IsChunk lines size (
            chunk_of hash path ordinal start
              (min (start + size) (length lines))
              (join_lines (take size (drop start lines))))
    unfolding chunk_of
    chunk_of-IsChunk start ordinal inside filled = record {
      in_file = (omega arith, omega arith, omega arith);
      bounded = omega arith;
      text = ap join_lines (window start size lines);
      filled = filled;
      hashed = (refl, refl);
    }

    chunks_from-IsChunk :
        (fuel start ordinal : ℕ)
        → All (IsChunk lines size) (chunks_from hash path size lines fuel start ordinal)
    unfolding chunks_from
    chunks_from-IsChunk zero start ordinal = tt
    chunks_from-IsChunk (suc fuel) start ordinal =
        round (All (IsChunk lines size)) size lines fuel start ordinal (λ past. tt)
          (λ inside e. chunks_from-IsChunk fuel (start + size) ordinal)
          (λ inside e. (
            chunk_of-IsChunk start ordinal inside e,
            chunks_from-IsChunk fuel (start + size) (suc ordinal),
          ))

    in_order :
        (fuel from start ordinal : ℕ)
        → from ≤ start
        → IsOrdered from ordinal (chunks_from hash path size lines fuel start ordinal)
    unfolding chunk_of chunks_from
    in_order zero from start ordinal before = tt
    in_order (suc fuel) from start ordinal before =
        round (IsOrdered from ordinal) size lines fuel start ordinal (λ past. tt)
          (λ inside e. in_order fuel from (start + size) ordinal (omega arith))
          (λ inside e.
            (omega arith, refl, in_order fuel _ (start + size) (suc ordinal) (omega arith)))

    near : (start i : ℕ) → start ≤ i → (i < start + size) ⊎ (start + size ≤ i)
    near start i later = ground arith

    restart : (start i : ℕ) → start ≤ i → start + (i - start) ≡ i
    restart start i later = omega arith

    not_blank :
        (start i : ℕ) {line : Str} {rest : List Str}
        → start ≤ i
        → drop i lines ≡ line ∷ rest
        → i < start + size
        → is_empty line ≡ false
        → is_empty (join_lines (take size (drop start lines))) ≡ false
    not_blank start i {line} {rest} later e here filled =
        let again : drop (i - start) (drop start lines) ≡ line ∷ rest =
          sym (drop-drop start (i - start) lines) ∙ rw (restart start i later) e in
        filled_window (i - start) size (drop start lines) again (omega arith) filled

    covering :
        (fuel start ordinal : ℕ)
        → length lines ≤ start + fuel
        → (i : ℕ) (line : Str) (rest : List Str) → start ≤ i
        → drop i lines ≡ line ∷ rest
        → is_empty line ≡ false
        → Holds (chunks_from hash path size lines fuel start ordinal) i
    unfolding chunk_of chunks_from
    covering zero start ordinal enough i line rest later e filled =
        absurd (omega (arith, drop_beyond i lines e))
    covering (suc fuel) start ordinal enough i line rest later e filled =
        round (λ chunks. Holds chunks i) size lines fuel start ordinal
          (λ past. absurd (omega (arith, drop_beyond i lines e)))
          (λ inside blank. elim (near start i later) [
            | inl here ↦ absurd (false≢true (sym (not_blank start i later e here filled) ∙ blank))
            | inr beyond ↦
                covering fuel (start + size) ordinal (omega arith) i line rest beyond e filled
          ])
          (λ inside found. elim (near start i later) [
            | inl here ↦ (_, Memᴰ.head refl, omega arith, omega (arith, drop_beyond i lines e))
            | inr beyond ↦
                let (chunk, member, first, last) =
                  covering fuel (start + size) (suc ordinal) (omega arith) i line rest beyond e
                    filled in
                (chunk, Memᴰ.tail member, first, last)
          ])

  -- What the chunks of a file promise.
  abbrev pub IsChunking : List Str → ℕ → List ChunkRecord → Type 0
  IsChunking lines size chunks =
      All (IsChunk lines size) chunks
      × IsOrdered 0 0 chunks
      × ((i : ℕ) (line : Str) (rest : List Str)
          → drop i lines ≡ line ∷ rest
          → is_empty line ≡ false
          → Holds chunks i)

chunk_size-positive : (lines_per_chunk : ℤ) → 1 ≤ chunk_size lines_per_chunk
chunk_size-positive (ℤ.pos n) = ground arith
chunk_size-positive (ℤ.negsuc n) = ground arith

-- The only line of an empty text is empty.
blank_line :
    (content : Str)
    → is_empty content ≡ true
    → (i : ℕ) (line : Str) (rest : List Str) → drop i (lines_of content) ≡ line ∷ rest
    → is_empty line ≡ true
unfolding split
blank_line [] blank zero line rest e = cc
blank_line [] blank (suc i) line rest e = absurd (omega (arith, drop_beyond i [] e))
blank_line (c ∷ s) blank i line rest e = absurd (cc)

-- The chunks of a file are windows of its lines, each not empty and of at most the number of lines
-- asked for, or 120 if that is not positive, with the text and the hash of the window; they follow
-- one another without an overlap and are numbered from zero on; and every line that is not empty
-- is in one of them.
pub chunk_file-IsChunking :
    (hash : Str → Str) (file : SourceFile) (lines_per_chunk : ℤ)
    → IsChunking hash file.relative_path
        (lines_of file.content)
        (chunk_size lines_per_chunk)
        (chunk_file hash file lines_per_chunk)
unfolding chunk_file
chunk_file-IsChunking hash file lines_per_chunk =
    let lines = lines_of file.content in
    let size = chunk_size lines_per_chunk in
    let positive = chunk_size-positive lines_per_chunk in
    elim (Bool-cases (is_empty file.content)) [
      | inl blank ↦
          let no_chunks : chunk_file hash file lines_per_chunk ≡ [] = ground (arith, blank) in
          subst (IsChunking hash file.relative_path lines size) (sym no_chunks) (
            tt,
            tt,
            λ i line rest e filled.
                absurd (false≢true (sym filled ∙ blank_line file.content blank i line rest e)),
          )
      | inr filled ↦
          subst (IsChunking hash file.relative_path lines size) (sym (ground (arith, filled))) (
            chunks_from-IsChunk hash file.relative_path size lines positive (length lines) 0 0,
            in_order hash file.relative_path size lines positive (length lines) 0 0 0 (omega arith),
            λ i line rest.
                covering hash file.relative_path size lines positive (length lines) 0 0
                  (omega arith) i line rest (omega arith),
          )
    ]
