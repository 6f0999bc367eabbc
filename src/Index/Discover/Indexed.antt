-- ===== src/Index/Discover/Indexed.antt =====
-- Which files are indexed where they stand, and as what.
use mathlib.Core.List.Memᴰ
use mathlib.Core.List.{Memᴰ}
use rillan.Base.{
  ◌∙◌, ◌≡◌, ◌↔◌, refl, sym, subst, pos, ltb_ℤ, inl, inr, Bool, true, false, Option, some, List, [],
  ◌∷◌, Str, arith, Bool-cases, Option-cases,
}
use rillan.Config.{IndexConfig}
use rillan.Index.Chunk.{SourceFile}
use rillan.Index.Discover.Content.{normalize_content}
use rillan.Index.Discover.{
  FileEntry, max_indexable_bytes, is_indexable_text, is_left_out, visit_file,
}

SourceFile-ext :
    (a b : SourceFile)
    → a.absolute_path ≡ b.absolute_path
    → a.relative_path ≡ b.relative_path
    → a.content ≡ b.content
    → a.size_bytes ≡ b.size_bytes
    → a ≡ b
SourceFile-ext a b path rel content size = λ i. record {
  absolute_path = path i;
  relative_path = rel i;
  content = content i;
  size_bytes = size i;
}

-- An empty result, where nothing is to be found.
pub nothing_found :
    {P : Type 0} (files : List SourceFile) (indexed : SourceFile)
    → files ≡ []
    → (P → ⊥)
    → Memᴰ indexed files ↔ P
nothing_found files indexed empty refuted =
    (λ m. absurd (elim (subst (Memᴰ indexed) empty m) [ ]), λ x. absurd (refuted x))

module _ (utf8_valid : Str → Bool) (path_match : Str → Str → Option Bool) (base_of : Str → Str)
    (join : Str → Str → Str) (cfg : IndexConfig) where
  -- A file that is indexed, and what it is indexed as.
  pub record IsIndexed (path rel : Str) (f : FileEntry) (indexed : SourceFile) : Type 0 where
    pub no_link : f.is_symlink ≡ false
    pub chosen : is_left_out utf8_valid path_match base_of join cfg rel ≡ false
    pub sized :
        (f.size ≡ some indexed.size_bytes)
        × (ltb_ℤ (pos max_indexable_bytes) indexed.size_bytes ≡ false)
    pub text :
        (content : Str) × (f.content ≡ some content)
        × (is_indexable_text utf8_valid path_match base_of join content ≡ true)
        × (indexed.content ≡ normalize_content content)
    pub named : (indexed.absolute_path ≡ path) × (indexed.relative_path ≡ rel)

  IsIndexed-unique :
      (path rel : Str) (f : FileEntry) (a b : SourceFile)
      → IsIndexed path rel f a
      → IsIndexed path rel f b
      → a ≡ b
  IsIndexed-unique path rel f a b x y =
      let (c, read, _, content) = x.text in
      let (d, read', _, content') = y.text in
      let size = x.sized.0 in
      let size' = y.sized.0 in
      SourceFile-ext a b (x.named.0 ∙ sym y.named.0) (x.named.1 ∙ sym y.named.1) (cc) (cc)

  module _ (path rel : Str) (f : FileEntry) (files : List SourceFile) (indexed : SourceFile) where
    -- The one file of a result.
    the_one :
        (made : SourceFile)
        → files ≡ made ∷ []
        → IsIndexed path rel f made
        → Memᴰ indexed files ↔ IsIndexed path rel f indexed
    the_one made only x = (
      λ m.
          let same : indexed ≡ made = Memᴰ.eq_of_singleton (subst (Memᴰ indexed) only m) in
          subst (IsIndexed path rel f) (sym same) x,
      λ y.
          subst (Memᴰ indexed) (sym only)
            (Memᴰ.head (IsIndexed-unique path rel f indexed made y x)),
    )

    pub visit_file-IsIndexed :
        visit_file utf8_valid path_match base_of join cfg path rel f ≡ inr files
        → Memᴰ indexed files ↔ IsIndexed path rel f indexed
    unfolding visit_file
    visit_file-IsIndexed e = elim (Bool-cases f.is_symlink) [
      | inl link ↦
          nothing_found files indexed (ground (arith, e, link)) (λ x. let kept = x.no_link in cc)
      | inr no_link ↦ elim (Bool-cases (is_left_out utf8_valid path_match base_of join cfg rel)) [
        | inl out ↦
            nothing_found files indexed (ground (arith, e, no_link, out))
              (λ x. let kept = x.chosen in cc)
        | inr chosen ↦ elim (Option-cases f.size) [
          | inl unknown ↦ absurd (ground (arith, e, no_link, chosen, unknown))
          | inr (size, sized) ↦ elim (Bool-cases (ltb_ℤ (pos max_indexable_bytes) size)) [
            | inl big ↦
                nothing_found files indexed (ground (arith, e, no_link, chosen, sized, big))
                  (λ x. let same = x.sized.0 in let kept = x.sized.1 in cc)
            | inr small ↦ elim (Option-cases f.content) [
              | inl unread ↦ absurd (ground (arith, e, no_link, chosen, sized, small, unread))
              | inr (content, read) ↦
                  elim (Bool-cases (is_indexable_text utf8_valid path_match base_of join content)) [
                    | inr binary ↦
                        nothing_found files indexed
                          (ground (arith, e, no_link, chosen, sized, small, read, binary))
                          (λ x. let (c, same, kept, rest) = x.text in cc)
                    | inl text ↦
                        the_one
                          (record {
                            absolute_path = path;
                            relative_path = rel;
                            content = normalize_content content;
                            size_bytes = size;
                          })
                          (ground (arith, e, no_link, chosen, sized, small, read, text))
                          (record {
                            no_link = no_link;
                            chosen = chosen;
                            sized = (sized, small);
                            text = (content, read, text, refl);
                            named = (refl, refl);
                          })
                  ]
            ]
          ]
        ]
      ]
    ]
