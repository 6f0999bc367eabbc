-- ===== src/Routing/Tests.antt =====
-- Decisions and catalogs at concrete inputs.
use mathlib.Core.List.{Memᴰ, Permᴰ, head?}
use rillan.Base.{
  true, ◌↔◌, ◌≢◌, sym, ap, ◌∙◌, map, All, arith, ◌≡◌, refl, some, List, [], ◌∷◌, Str, lit, str_eq,
  normalize_string,
}
use rillan.Config.{ProjectConfig, prefer_auto}
use rillan.Policy.{Verdict, code_generation}
use rillan.Routing.Types.{Location, Candidate, DecisionInput}
use rillan.Routing.Decide.{
  decide, policy_eligible, missing_capabilities, normalize_capabilities, route_preference_score,
  resolve_preference, model_matches, task_strength,
}
use rillan.Base.Sort.Laws.{IsSorted}
use rillan.Routing.Admit.{IsAdmitted}
use rillan.Routing.Ranking.{IsModelServed, ranked_iff, decide-selected}
use rillan.Routing.Order.{compare_rank, ranked-IsSorted, IdsIdentify, reorder, decide-reorder}
use rillan.Config.Samples.{plain_config, plain_project}
use rillan.Routing.Catalog.{build_candidates, make_allowlist, build_catalog}
use rillan.Routing.Offers.{compare_ids, IsAllowed, build_catalog-offers}
use rillan.Routing.Trace.{IsExplained, marked, selected_ids, trace-IsExplained, trace-ids}

-- What a run of a decision computes with.
routing : Unit {0}
unfolding decide lit normalize_string str_eq policy_eligible missing_capabilities
    normalize_capabilities route_preference_score resolve_preference model_matches task_strength
routing = tt

abbrev project_none : ProjectConfig
project_none = record {
  name = [];
  classification = [];
  sources = [];
  routing = record { default = prefer_auto; task_types = [] };
  providers = record { llm_default = []; llm_allowed = []; mcp_enabled = [] };
  modules_enabled = [];
  skills_enabled = [];
  system_prompt = [];
  instructions = [];
}

abbrev candidate_at : Str → Location → Str → List Str → Candidate
candidate_at id location model capabilities = record {
  id = id;
  backend = [];
  preset = [];
  transport = [];
  endpoint = [];
  default_model = model;
  model_pins = [];
  capabilities = capabilities;
  location = location;
}

abbrev cloud : Candidate
cloud =
    candidate_at (lit "cloud") Location.remote (lit "GPT-5 ") (lit "chat" ∷ lit "Tool_calling" ∷ [])

abbrev near : Candidate
near = candidate_at (lit "near") Location.local (lit "qwen") (lit "chat" ∷ [])

abbrev ask : Str → Verdict → DecisionInput
ask model verdict = record {
  requested_model = model;
  required_capabilities = [];
  action = code_generation;
  project = project_none;
  policy_verdict = verdict;
  candidates = near ∷ cloud ∷ [];
}

by_strength : (decide (ask [] Verdict.allow)).ranked ≡ cloud ∷ near ∷ []
unfolding routing
by_strength = refl

by_verdict : (decide (ask [] Verdict.local_only)).selected ≡ some near
unfolding routing
by_verdict = refl

by_model : (decide (ask (lit " gpt-5") Verdict.allow)).ranked ≡ cloud ∷ []
unfolding routing
by_model = refl

ranked_iff_example : Memᴰ cloud (decide (ask (lit "gpt-5") Verdict.allow)).ranked ↔ (
    Memᴰ cloud (near ∷ cloud ∷ [])
    × IsAdmitted (ask (lit "gpt-5") Verdict.allow) cloud
    × (IsModelServed (ask (lit "gpt-5") Verdict.allow)
        → model_matches (normalize_string (lit "gpt-5")) cloud ≡ true))
ranked_iff_example = ranked_iff (ask (lit "gpt-5") Verdict.allow) cloud

first_selected :
    (decide (ask [] Verdict.redact)).selected ≡ head? (decide (ask [] Verdict.redact)).ranked
first_selected = decide-selected (ask [] Verdict.redact)

ranked-IsSorted_example :
    IsSorted (compare_rank (ask [] Verdict.allow)) (decide (ask [] Verdict.allow)).ranked
ranked-IsSorted_example = ranked-IsSorted (ask [] Verdict.allow)

near-ne-cloud : near.id ≢ cloud.id
unfolding lit
near-ne-cloud = ground arith

two-IdsIdentify : IdsIdentify (near ∷ cloud ∷ [])
two-IdsIdentify a b (Memᴰ.head e) (Memᴰ.head q) h = e ∙ sym q
two-IdsIdentify a b (Memᴰ.tail (Memᴰ.head e)) (Memᴰ.tail (Memᴰ.head q)) h = e ∙ sym q
two-IdsIdentify a b (Memᴰ.head e) (Memᴰ.tail (Memᴰ.head q)) h =
    absurd
      (near-ne-cloud (ap (λ (c : Candidate). c.id) (sym e) ∙ (h ∙ ap (λ (c : Candidate). c.id) q)))
two-IdsIdentify a b (Memᴰ.tail (Memᴰ.head e)) (Memᴰ.head q) h = absurd (
    near-ne-cloud
      (sym (ap (λ (c : Candidate). c.id) (sym e) ∙ (h ∙ ap (λ (c : Candidate). c.id) q))))
two-IdsIdentify a b (Memᴰ.head e) (Memᴰ.tail (Memᴰ.tail x)) h = elim x [ ]
two-IdsIdentify a b (Memᴰ.tail (Memᴰ.head e)) (Memᴰ.tail (Memᴰ.tail x)) h = elim x [ ]
two-IdsIdentify a b (Memᴰ.tail (Memᴰ.tail x)) _ h = elim x [ ]

decide-reorder_example :
    decide (ask [] Verdict.allow) ≡ decide (reorder (ask [] Verdict.allow) (cloud ∷ near ∷ []))
decide-reorder_example =
    decide-reorder (ask [] Verdict.allow) (cloud ∷ near ∷ []) (Permᴰ.swap refl refl) two-IdsIdentify

trace-IsExplained_example : All IsExplained (decide (ask [] Verdict.local_only)).trace.candidates
trace-IsExplained_example = trace-IsExplained (ask [] Verdict.local_only)

ids_of_trace :
    Permᴰ
      (map (λ t. t.id) (decide (ask [] Verdict.allow)).trace.candidates)
      (map (λ (c : Candidate). c.id) (near ∷ cloud ∷ []))
    × (marked (decide (ask [] Verdict.allow)).trace.candidates
        ≡ selected_ids (decide (ask [] Verdict.allow)).selected)
ids_of_trace = trace-ids (ask [] Verdict.allow)

build_catalog-offers_example :
    let catalog = build_catalog plain_config plain_project in
    IsSorted compare_ids catalog.candidates
    × ((c : Candidate)
        → Memᴰ c catalog.candidates ↔ (
            Memᴰ c (build_candidates plain_config)
            × IsAllowed (make_allowlist plain_project.providers.llm_allowed) c.id))
build_catalog-offers_example = build_catalog-offers plain_config plain_project
