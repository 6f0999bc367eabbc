-- ===== src/Tokenize/Refine.antt =====
-- Calls of `CountStrings` on a counter with its cache, and on one without.
use rillan.Base.{
  ◌≡◌, refl, sym, ◌∙◌, ap, subst, ◌⊎◌, inl, inr, ℕ, Option, List, [], ◌∷◌, map, arith, Str,
  Sum-cases,
}
use rillan.Tokenize.{
  Counter, CountResult, CountError, LoadError, no_tokens, add_result, count_from, count_strings,
  new_counter, count,
}
use rillan.Tokenize.Cached.{
  IsOnce, IsCounter, count_once, count_stateless, new-IsCounter, count-IsCounter,
}

-- A round of `CountStrings` whose count fails, and one whose count does not.
module _ {State : Type 0} (step : Str → Str → State → (CountError ⊎ CountResult) × State) where
  stopped :
      (total : CountResult) (model text : Str) (texts : List Str) (state : State) (err : CountError)
      → (step model text state).0 ≡ inl err
      → count_from step total model (text ∷ texts) state ≡ (inl err, (step model text state).1)
  unfolding count_from
  stopped total model text texts state err e = ground (arith, e)

  went_on :
      (total : CountResult) (model text : Str) (texts : List Str) (state : State)
      (result : CountResult)
      → (step model text state).0 ≡ inr result
      → count_from step total model (text ∷ texts) state
        ≡ count_from step (add_result total result) model texts (step model text state).1
  unfolding count_from
  went_on total model text texts state result e = ground (arith, e)

module _ {Codec : Type 0} (get : Str → LoadError ⊎ Codec)
    (count_with : Codec → Str → Option ℕ) where
  -- Two sums that go on as two others do.
  sums :
      (model : Str) (texts : List Str) (total : CountResult) (counter : Counter Codec)
      {a : (CountError ⊎ CountResult) × Counter Codec} {b : (CountError ⊎ CountResult) × Unit {0}}
      → count_from (count get count_with) total model texts counter ≡ a
      → count_from (count_stateless get count_with) total model texts tt ≡ b
      → (a.0 ≡ b.0) × (IsCounter get count_with) a.1
      → ((count_from (count get count_with) total model texts counter).0
          ≡ (count_from (count_stateless get count_with) total model texts tt).0)
        × (IsCounter get count_with) (count_from (count get count_with) total model texts counter).1
  sums model texts total counter p q (same, good) = (
    ap (λ x. x.0) p ∙ same ∙ sym (ap (λ x. x.0) q),
    subst (λ x. IsCounter get count_with x.1) (sym p) good,
  )

  -- The sum over some texts, whether the counter has a cache or not.
  count_from-IsCounter :
      (total : CountResult) (model : Str) (texts : List Str) (counter : Counter Codec)
      → (IsCounter get count_with) counter
      → ((count_from (count get count_with) total model texts counter).0
          ≡ (count_from (count_stateless get count_with) total model texts tt).0)
        × (IsCounter get count_with) (count_from (count get count_with) total model texts counter).1
  unfolding count_from
  count_from-IsCounter total model [] counter good = (refl, good)
  count_from-IsCounter total model (text ∷ texts) counter good =
      let (same, after) = count-IsCounter get count_with model text counter good in
      elim (Sum-cases (count_once get count_with model text)) [
        | inl (err, e) ↦
            sums model (text ∷ texts) total counter
              (stopped (count get count_with) total model text texts counter err (same ∙ e))
              (stopped (count_stateless get count_with) total model text texts tt err e)
              (refl, after)
        | inr (result, e) ↦
            sums model (text ∷ texts) total counter
              (went_on (count get count_with) total model text texts counter result (same ∙ e))
              (went_on (count_stateless get count_with) total model text texts tt result e)
              (count_from-IsCounter (add_result total result) model texts _ after)
      ]

  -- Some calls of `CountStrings` in turn, with their results.
  unfoldable pub calls_of :
      List (Str × List Str) → Counter Codec → List (CountError ⊎ CountResult) × Counter Codec
  calls_of [] counter = ([], counter)
  calls_of ((model, texts) ∷ calls) counter =
      let (result, after) = count_strings (count get count_with) model texts counter in
      let (results, last) = calls_of calls after in (result ∷ results, last)

  run-IsCounter :
      (calls : List (Str × List Str)) (counter : Counter Codec)
      → (IsCounter get count_with) counter
      → ((calls_of calls counter).0
          ≡ map (λ call. (count_strings (count_stateless get count_with) call.0 call.1 tt).0) calls)
        × (IsCounter get count_with) (calls_of calls counter).1
  unfolding calls_of count_strings
  run-IsCounter [] counter good = (refl, good)
  run-IsCounter ((model, texts) ∷ calls) counter good =
      let (same, after) = count_from-IsCounter no_tokens model texts counter good in
      let (rest, last) = run-IsCounter calls _ after in (rw (same, rest) refl, last)

  -- Any calls of `CountStrings` in turn, each for a model and some texts, on a new counter give what
  -- the same calls give without a cache, errors included: a codec is the one that is loaded for the
  -- encoding of the model. Each warning is written at most once.
  pub count_strings-refines :
      (calls : List (Str × List Str))
      → ((calls_of calls (new_counter get count_with)).0
          ≡ map (λ call. (count_strings (count_stateless get count_with) call.0 call.1 tt).0) calls)
        × IsOnce (calls_of calls (new_counter get count_with)).1.log
  count_strings-refines calls =
      let (same, last) =
        run-IsCounter calls (new_counter get count_with) (new-IsCounter get count_with) in
      (same, subst IsOnce (sym last.logged) last.once)
