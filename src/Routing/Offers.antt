-- ===== src/Routing/Offers.antt =====
-- The candidates of a catalog.
use mathlib.Core.List.{Memᴰ}
use mathlib.Core.List.Permᴰ
use rillan.Base.{
  ◌≡◌, ◌↔◌, ◌⊎◌, Ordering, inl, inr, refl, true, not, if◌then◌else◌, List, [], ◌∷◌, keep, is_empty,
  Str, str_compare, str_mem,
}
use rillan.Base.Member.{mem-perm, mem_of_keep, keep_of_mem}
use rillan.Base.Sort.Order.{str_compare-IsOrder, on-IsOrder}
use rillan.Base.Sort.Laws.{IsSorted, sort_func-perm, sort_func-IsSorted}
use rillan.Config.{Config, ProjectConfig}
use rillan.Routing.Types.{Candidate}
use rillan.Routing.Catalog.{build_candidates, make_allowlist, build_catalog}

abbrev pub compare_ids : Candidate → Candidate → Ordering
compare_ids left right = str_compare left.id right.id

-- Whether an allowlist lets an identifier through; an empty one lets all through.
abbrev pub IsAllowed : List Str → Str → Type 0
IsAllowed allowed id = (allowed ≡ []) ⊎ (str_mem id allowed ≡ true)

offered : List Str → List Candidate → List Candidate
offered allowed candidates =
    if not (is_empty allowed) then keep (λ c. str_mem c.id allowed) candidates else candidates

offered_iff :
    (allowed : List Str) (candidates : List Candidate) (c : Candidate)
    → Memᴰ c (offered allowed candidates) ↔ (Memᴰ c candidates × IsAllowed allowed c.id)
unfolding offered
offered_iff [] candidates c = (λ m. (m, inl refl), λ h. h.0)
offered_iff (a ∷ allowed) candidates c = (
  λ m.
      let (n, h) = mem_of_keep (λ (c : Candidate). str_mem c.id (a ∷ allowed)) candidates m in
      (n, inr h),
  λ h. elim h.1 [
    | inl bad ↦ absurd (cc)
    | inr listed ↦ keep_of_mem (λ (c : Candidate). str_mem c.id (a ∷ allowed)) candidates h.0 listed
  ],
)

-- A catalog has exactly the candidates of the configuration that the project's allowlist lets
-- through, in the order of their identifiers.
pub build_catalog-offers :
    (cfg : Config) (project : ProjectConfig)
    → let catalog = build_catalog cfg project in
      IsSorted compare_ids catalog.candidates
      × ((c : Candidate)
          → Memᴰ c catalog.candidates ↔ (
              Memᴰ c (build_candidates cfg)
              × IsAllowed (make_allowlist project.providers.llm_allowed) c.id))
unfolding build_catalog offered
build_catalog-offers cfg project =
    let allowed = make_allowlist project.providers.llm_allowed in
    let list = offered allowed (build_candidates cfg) in
    let order = on-IsOrder (λ (c : Candidate). c.id) str_compare-IsOrder in
    (
      sort_func-IsSorted compare_ids order list,
      λ c. (
        λ m.
            (offered_iff allowed (build_candidates cfg) c).0
              (mem-perm (sort_func-perm compare_ids list) m),
        λ h.
            mem-perm (Permᴰ.symm (sort_func-perm compare_ids list))
              ((offered_iff allowed (build_candidates cfg) c).1 h),
      ),
    )
