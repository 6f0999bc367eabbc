-- ===== src/Handler/Route/Routed.antt =====
-- Which requests are routed, and where to.
use mathlib.Core.List.{Memᴰ, head?}
use mathlib.Core.List.Memᴰ
use mathlib.Core.Bool.{and-eq-true_iff}
use rillan.Base.{
  ◌≡◌, ◌≢◌, ◌↔◌, inl, inr, refl, sym, subst, ◌∙◌, true, ◌&&◌, Option, none, some, List, [], ◌∷◌,
  keep, is_empty, Str, map, normalize_string, arith, Option-cases, Bool-cases, Sum-cases,
}
use rillan.Base.Member.{mem_of_keep}
use rillan.Policy.{Verdict, IntentClassification}
use rillan.Providers.{Host, Provider, provider}
use rillan.Routing.Types.{Candidate, DecisionInput}
use rillan.Routing.Decide.{decide, model_matches}
use rillan.Routing.Admit.{IsAdmitted}
use rillan.Routing.Ranking.{IsModelServed, ranked_iff, decide-selected}
use rillan.Routing.Status.{CandidateStatus}
use rillan.Safety.{selected-IsAdmitted}
use rillan.Handler.Types.{ChatRuntime, Selection}
use rillan.Handler.Route.{
  RouteError, serves, available_route_candidates, decision_input, select_provider, resolve_route,
}

empty_of_head : (xs : List Candidate) → head? xs ≡ none → xs ≡ []
empty_of_head [] e = refl
empty_of_head (x ∷ xs) e = absurd (cc)

-- A decision selects a candidate if any is admitted.
selected_of_admitted :
    (input : DecisionInput) (c : Candidate)
    → Memᴰ c input.candidates
    → IsAdmitted input c
    → (decide input).selected ≢ none
selected_of_admitted input c m a no_one = unranked c ((ranked_iff input c).1 (m, a, unserved))
  where
    unranked : (d : Candidate) → ¬ Memᴰ d (decide input).ranked
    unranked d n = Memᴰ.not-nil (
        subst (Memᴰ d) (empty_of_head (decide input).ranked (sym (decide-selected input) ∙ no_one))
          n)

    unserved : IsModelServed input → model_matches (normalize_string input.requested_model) c ≡ true
    unserved (d, n, b, matches) = absurd (unranked d ((ranked_iff input d).1 (n, b, λ _. matches)))

module _ (host : Host) where
  -- A candidate that the host serves.
  abbrev pub IsHosted : Candidate → Provider → Type 0
  IsHosted c p = provider host c.id ≡ inr p

  serves-IsHosted : (c : Candidate) → serves (some host) c ≡ true → (p : Provider) × IsHosted c p
  serves-IsHosted c e = elim (Sum-cases (provider host c.id)) [
    | inl (err, missing) ↦ absurd (ground (arith, e, missing))
    | inr (p, found) ↦ (p, found)
  ]

  module _ {E : Type 0} {F : Type 0} (runtime : ChatRuntime E F)
      (hosted : runtime.provider_host ≡ some host) where
    -- A candidate that is available is served.
    available-served :
        (c : Candidate) → Memᴰ c (available_route_candidates runtime) → serves (some host) c ≡ true
    unfolding available_route_candidates
    available-served c m = elim (Bool-cases (is_empty runtime.route_status.candidates)) [
      | inl bare ↦
          let listed : Memᴰ c (keep (serves (some host)) runtime.route_catalog.candidates) =
            subst (Memᴰ c) (ground (arith, bare, hosted)) m in
          (mem_of_keep (serves (some host)) runtime.route_catalog.candidates listed).1
      | inr probed ↦
          let test = λ (s : CandidateStatus). s.available && serves (some host) s.candidate in
          let listed : Memᴰ c (
              map (λ (s : CandidateStatus). s.candidate)
                (keep test runtime.route_status.candidates)) =
            subst (Memᴰ c) (ground (arith, probed, hosted)) m in
          let (s, n, e) =
            Memᴰ.of_map (λ (s : CandidateStatus). s.candidate)
              (keep test runtime.route_status.candidates) listed in
          let passes = (mem_of_keep test runtime.route_status.candidates n).1 in
          subst (λ (d : Candidate). serves (some host) d ≡ true) e
            ((and-eq-true_iff _ _).0 passes).1
    ]

    module _ (model : Str) (required : List Str) (verdict : Verdict)
        (classification : Option IntentClassification) where
      abbrev input : DecisionInput
      input = decision_input runtime model required verdict classification

      abbrev route : Selection × Option RouteError
      route = resolve_route runtime model required verdict classification

      -- A route to a candidate that is available, admitted and hosted.
      abbrev pub IsRoutedTo : Selection → Type 0
      IsRoutedTo s =
          (c : Candidate) × (p : Provider) × Memᴰ c (available_route_candidates runtime)
          × IsAdmitted input c
          × IsHosted c p
          × (s.candidate ≡ some c)
          × (s.provider ≡ some p)
          × (s.provider_id ≡ c.id)

      selected-IsRoutedTo :
          (c : Candidate) → (decide input).selected ≡ some c → (route.1 ≡ none) × IsRoutedTo route.0
      unfolding resolve_route select_provider
      selected-IsRoutedTo c chosen =
          let (m, a) = selected-IsAdmitted input c chosen in
          let (p, found) = serves-IsHosted c (available-served c m) in
          let run : route ≡ (
            record {
              provider = some p;
              provider_id = c.id;
              candidate = some c;
              decision = some (decide input);
            },
            none,
          ) =
            ground (arith, hosted, chosen, found) in
          rw run (refl, (c, p, m, a, found, refl, refl, refl))

      no_route : (decide input).selected ≡ none → route.1 ≢ none
      unfolding resolve_route select_provider
      no_route unchosen e = ground (arith, hosted, unchosen, e)

      -- In a runtime that hosts providers, a request is routed, without an error, exactly if some
      -- available candidate is admitted by the verdict, the required capabilities and the route
      -- preference. The route is then to one that is, and to the client that the host serves for
      -- it.
      pub resolve_route-IsRoutedTo :
          ((route.1 ≡ none)
            ↔ ((c : Candidate) × Memᴰ c (available_route_candidates runtime) × IsAdmitted input c))
          × (route.1 ≡ none → IsRoutedTo route.0)
      resolve_route-IsRoutedTo = elim (Option-cases (decide input).selected) [
        | inl unchosen ↦ (
          (
            λ e. absurd (no_route unchosen e),
            λ (c, m, a). absurd (selected_of_admitted input c m a unchosen),
          ),
          λ e. absurd (no_route unchosen e),
        )
        | inr (c, chosen) ↦
            let (done, r) = selected-IsRoutedTo c chosen in
            let (m, a) = selected-IsAdmitted input c chosen in ((λ _. (c, m, a), λ _. done), λ _. r)
      ]
