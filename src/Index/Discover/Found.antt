-- ===== src/Index/Discover/Found.antt =====
-- Which files of a root are discovered, stated without a walk.
use mathlib.Core.List.Memᴰ
use Prim.Native.Nat.{Ordering}
use mathlib.Core.List.{Memᴰ}
use mathlib.Core.List.Permᴰ
use rillan.Base.{
  ◌∙◌, ◌≡◌, ◌↔◌, refl, sym, ap, subst, ◌⊎◌, inl, inr, >>=-eq-inr, Bool, false, Option, some, List,
  [], ◌++◌, is_empty, Str, str_compare, trim_space, arith, Bool-cases, Option-cases,
}
use rillan.Base.Member.{mem-perm}
use rillan.Base.Sort.{sort_func}
use rillan.Base.Sort.Laws.{IsSorted, sort_func-IsSorted, sort_func-perm}
use rillan.Base.Sort.Order.{IsOrder, str_compare-IsOrder}
use rillan.Config.{IndexConfig}
use rillan.Index.Chunk.{SourceFile}
use rillan.Index.Discover.Indexed.{IsIndexed, nothing_found, visit_file-IsIndexed}
use rillan.Index.Discover.{
  Node, Entries, Root, beneath, is_skipped_dir, visit, visit_entries, walk_root, discover_files,
}

-- The order of the result.
abbrev pub by_path : SourceFile → SourceFile → Ordering
by_path a b = str_compare a.relative_path b.relative_path

sorted_nil : sort_func by_path [] ≡ []
unfolding sort_func
sorted_nil = refl

by_path-IsOrder : IsOrder by_path
by_path-IsOrder = record {
  flip = λ a b. str_compare-IsOrder.flip a.relative_path b.relative_path;
  lt_trans = λ a b c. str_compare-IsOrder.lt_trans a.relative_path b.relative_path c.relative_path;
  eq_left = λ a b c. str_compare-IsOrder.eq_left a.relative_path b.relative_path c.relative_path;
}

module _ (utf8_valid : Str → Bool) (path_match : Str → Str → Option Bool) (base_of : Str → Str)
    (join : Str → Str → Str) (cfg : IndexConfig) where
  -- A file that is indexed in a directory of which none above it is skipped.
  mutual
    pub IsFoundAt : (path rel name : Str) → Node → SourceFile → Type 0
    IsFoundAt path rel name (Node.file f) indexed =
        IsIndexed utf8_valid path_match base_of join cfg path rel f indexed
    IsFoundAt path rel name (Node.dir entries) indexed =
        (is_skipped_dir utf8_valid path_match base_of join cfg name rel ≡ false)
        × IsFoundIn path rel entries indexed
    IsFoundAt path rel name Node.closed_dir indexed = ⊥

    pub IsFoundIn : (path prefix : Str) → Entries → SourceFile → Type 0
    IsFoundIn path prefix Entries.end indexed = ⊥
    IsFoundIn path prefix (Entries.entry name node rest) indexed =
        IsFoundAt (join path name) (beneath prefix name) name node indexed
        ⊎ IsFoundIn path prefix rest indexed

  -- A walk finds exactly the files that are there.
  mutual
    unfolding visit visit_entries IsFoundAt IsFoundIn

    visit-IsFound :
        (path rel name : Str) (node : Node) (files : List SourceFile) (indexed : SourceFile)
        → visit utf8_valid path_match base_of join cfg path rel name node ≡ inr files
        → Memᴰ indexed files ↔ IsFoundAt path rel name node indexed
    visit-IsFound path rel name (Node.file f) files indexed e =
        visit_file-IsIndexed utf8_valid path_match base_of join cfg path rel f files indexed e
    visit-IsFound path rel name (Node.dir entries) files indexed e =
        elim (Bool-cases (is_skipped_dir utf8_valid path_match base_of join cfg name rel)) [
          | inl skipped ↦
              nothing_found files indexed (ground (arith, e, skipped)) (λ x. let kept = x.0 in cc)
          | inr kept ↦
              let inside = visit_entries-IsFound path rel entries files indexed (rw kept at e) in
              (λ m. (kept, inside.0 m), λ x. inside.1 x.1)
        ]
    visit-IsFound path rel name Node.closed_dir files indexed e =
        nothing_found files indexed (ground (arith, e)) (λ x. x)

    visit_entries-IsFound :
        (path prefix : Str) (entries : Entries) (files : List SourceFile) (indexed : SourceFile)
        → visit_entries utf8_valid path_match base_of join cfg path prefix entries ≡ inr files
        → Memᴰ indexed files ↔ IsFoundIn path prefix entries indexed
    visit_entries-IsFound path prefix Entries.end files indexed e =
        nothing_found files indexed (cc) (λ x. x)
    visit_entries-IsFound path prefix (Entries.entry name node rest) files indexed e =
        let (found, here, e1) =
          >>=-eq-inr
            (visit utf8_valid path_match base_of join cfg (join path name) (beneath prefix name)
              name node)
            _ e in
        let (more, later, e2) =
          >>=-eq-inr (visit_entries utf8_valid path_match base_of join cfg path prefix rest) _ e1 in
        let at =
          visit-IsFound (join path name) (beneath prefix name) name node found indexed here in
        let below = visit_entries-IsFound path prefix rest more indexed later in
        let whole : found ++ more ≡ files = (cc) in
        (
          λ m. elim (Memᴰ.append_cases found (subst (Memᴰ indexed) (sym whole) m)) [
            | inl first ↦ inl (at.0 first)
            | inr last ↦ inr (below.0 last)
          ],
          λ x. subst (Memᴰ indexed) whole (elim x [
            | inl first ↦ Memᴰ.append_left more (at.1 first)
            | inr last ↦ Memᴰ.append_right found (below.1 last)
          ]),
        )

  walk_root-Walked :
      (path : Str) (root : Root) (files : List SourceFile)
      → walk_root utf8_valid path_match base_of join cfg path root ≡ inr files
      → ((root ≡ Root.linked) × (files ≡ []))
        ⊎ ((entries : Entries) × (root ≡ Root.opened entries)
            × (visit_entries utf8_valid path_match base_of join cfg path [] entries ≡ inr files))
  unfolding walk_root
  walk_root-Walked path Root.missing files e = absurd (cc)
  walk_root-Walked path Root.not_dir files e = absurd (cc)
  walk_root-Walked path Root.linked files e = inl (refl, cc)
  walk_root-Walked path Root.closed files e = absurd (cc)
  walk_root-Walked path (Root.opened entries) files e = inr (entries, refl, e)

  -- The files that are discovered, if that succeeds, are in the order of their relative paths, and
  -- they are exactly those of the root that are to be indexed: each is in a directory of which none,
  -- up to the root, has a name or a pattern to be skipped; is no symbolic link; is not excluded, and
  -- is included if there are patterns to include by; is of at most a mebibyte, without a zero byte
  -- and valid text; and has its content with the ends of its lines normalised. A root that is a
  -- symbolic link has none.
  pub discover_files-IsFound :
      (abs : Str → Option Str) (stat : Str → Root) (files : List SourceFile)
      → discover_files utf8_valid path_match base_of join cfg abs stat ≡ inr files
      → (root : Str) × (abs (trim_space cfg.root) ≡ some root)
        × IsSorted by_path files
        × (((stat root ≡ Root.linked) × (files ≡ []))
            ⊎ ((entries : Entries) × (stat root ≡ Root.opened entries)
                × ((indexed : SourceFile)
                    → Memᴰ indexed files ↔ IsFoundIn root [] entries indexed)))
  unfolding discover_files
  discover_files-IsFound abs stat files e = elim (Bool-cases (is_empty (trim_space cfg.root))) [
    | inl blank ↦ absurd (ground (arith, e, blank))
    | inr given ↦ elim (Option-cases (abs (trim_space cfg.root))) [
      | inl unresolved ↦ absurd (ground (arith, e, given, unresolved))
      | inr (root, resolved) ↦
          let run = rw (given, resolved) at e in
          let (found, walked, e1) =
            >>=-eq-inr (walk_root utf8_valid path_match base_of join cfg root (stat root)) _ run in
          let whole : sort_func by_path found ≡ files = (cc) in
          let perm = sort_func-perm by_path found in
          (
            root,
            resolved,
            subst (IsSorted by_path) whole (sort_func-IsSorted by_path by_path-IsOrder found),
            elim (walk_root-Walked root (stat root) found walked) [
              | inl (linked, empty) ↦
                  inl (linked, sym whole ∙ (ap (sort_func by_path) empty ∙ sorted_nil))
              | inr (entries, opened, visited) ↦ inr (
                entries,
                opened,
                λ indexed.
                    let there = visit_entries-IsFound root [] entries found indexed visited in
                    (
                      λ m. there.0 (mem-perm perm (subst (Memᴰ indexed) (sym whole) m)),
                      λ x. subst (Memᴰ indexed) whole (mem-perm (Permᴰ.symm perm) (there.1 x)),
                    ),
              )
            ],
          )
    ]
  ]
