-- ===== src/Tokenize/Cached.antt =====
-- What holds of the state of a counter, and a count without a cache.
use rillan.Base.{
  if◌then◌else◌, ◌≡◌, refl, sym, ◌∙◌, ap, subst, ◌⊎◌, inl, inr, ℕ, false, Option, none, some, List,
  [], ◌∷◌, ◌++◌, is_empty, arith, Str, lit, str_eq, str_eq_iff, str_mem, lookup, trim_space,
  to_lower, Bool-cases, Option-cases, Sum-cases,
}
use rillan.Base.Map.{put, lookup-put, lookup-put_other}
use rillan.Tokenize.{
  Counter, CountResult, CountError, LoadError, encoding_for_model, approximated, no_tokens,
  new_counter, warn_once, load_codec, counted, warn_unsupported, count,
}

-- Texts none of which stands in what follows it.
abbrev pub IsOnce : List Str → Type 0
IsOnce [] = Unit
IsOnce (key ∷ keys) = (str_mem key keys ≡ false) × IsOnce keys

module _ {Codec : Type 0} (get : Str → LoadError ⊎ Codec)
    (count_with : Codec → Str → Option ℕ) where
  -- The count of a text, without a cache.
  unfoldable pub count_once : Str → Str → CountError ⊎ CountResult
  count_once model text = if is_empty text then inr no_tokens else elim (encoding_for_model model) [
    | none ↦ inr (approximated text)
    | some encoding ↦ counted get count_with encoding text (get encoding)
  ]

  abbrev pub count_stateless : Str → Str → Unit {0} → (CountError ⊎ CountResult) × Unit {0}
  count_stateless model text u = (count_once model text, u)

  -- What holds of the state of a counter: the codecs are those that `get` loads, and no warning is
  -- written twice.
  pub record IsCounter (counter : Counter Codec) : Type 0 where
    pub cached :
        (key : Str) (codec : Codec) → lookup key counter.codecs ≡ some codec → get key ≡ inr codec
    pub logged : counter.log ≡ counter.warned
    pub once : IsOnce counter.warned

  pub new-IsCounter : IsCounter (new_counter get count_with)
  unfolding lookup
  new-IsCounter = record { cached = λ key codec e. absurd (cc); logged = refl; once = tt }

  warn_once-IsCounter :
      (key : Str) (counter : Counter Codec)
      → IsCounter counter
      → IsCounter (warn_once get count_with key counter)
  unfolding warn_once
  warn_once-IsCounter key counter good = elim (Bool-cases (str_mem key counter.warned)) [
    | inl known ↦ subst IsCounter (sym (ground (arith, known))) good
    | inr fresh ↦ subst IsCounter (sym (ground (arith, fresh))) (record {
      cached = good.cached;
      logged = ap (◌∷◌ key) good.logged;
      once = (fresh, good.once);
    })
  ]

  put-cached :
      (encoding : Str) (loaded : Codec) (codecs : List (Str × Codec))
      → get encoding ≡ inr loaded
      → ((key : Str) (codec : Codec) → lookup key codecs ≡ some codec → get key ≡ inr codec)
      → (key : Str) (codec : Codec) → lookup key (put encoding loaded codecs) ≡ some codec
      → get key ≡ inr codec
  put-cached encoding loaded codecs e good key codec found =
      elim (Bool-cases (str_eq encoding key)) [
        | inl same ↦
            let eq : encoding ≡ key = (str_eq_iff encoding key).0 same in
            let stored : lookup key (put encoding loaded codecs) ≡ some loaded =
              rw (← eq) (lookup-put encoding loaded codecs) in
            let codec_eq : some loaded ≡ some codec = sym stored ∙ found in rw (← eq) (cc)
        | inr other ↦ good key codec (
            sym (
              lookup-put_other encoding key loaded codecs
                (ground (arith, other, str_eq_iff encoding key)))
            ∙ found)
      ]

  abbrev IsLoaded : Str → (LoadError ⊎ Codec) × Counter Codec → Type 0
  IsLoaded encoding loaded = (loaded.0 ≡ get encoding) × IsCounter loaded.1

  load-inl :
      (encoding : Str) (counter : Counter Codec) (err : LoadError)
      → lookup encoding counter.codecs ≡ none
      → get encoding ≡ inl err
      → load_codec get count_with encoding counter ≡ (inl err, counter)
  unfolding load_codec
  load-inl encoding counter err absent e = ground (arith, absent, e)

  load-inr :
      (encoding : Str) (counter : Counter Codec) (codec : Codec)
      → lookup encoding counter.codecs ≡ none
      → get encoding ≡ inr codec
      → load_codec get count_with encoding counter
        ≡ (inr codec, record (counter) { codecs = put encoding codec counter.codecs })
  unfolding load_codec
  load-inr encoding counter codec absent e = ground (arith, absent, e)

  load-cached :
      (encoding : Str) (counter : Counter Codec) (codec : Codec)
      → lookup encoding counter.codecs ≡ some codec
      → load_codec get count_with encoding counter ≡ (inr codec, counter)
  unfolding load_codec
  load-cached encoding counter codec present = ground (arith, present)

  load_codec-IsCounter :
      (encoding : Str) (counter : Counter Codec)
      → IsCounter counter
      → ((load_codec get count_with encoding counter).0 ≡ get encoding)
        × IsCounter (load_codec get count_with encoding counter).1
  unfolding load_codec
  load_codec-IsCounter encoding counter good =
      elim (Option-cases (lookup encoding counter.codecs)) [
        | inl absent ↦ elim (Sum-cases (get encoding)) [
          | inl (err, e) ↦
              subst (IsLoaded encoding) (sym (load-inl encoding counter err absent e)) (sym e, good)
          | inr (codec, e) ↦
              subst (IsLoaded encoding) (sym (load-inr encoding counter codec absent e)) (
                sym e,
                record {
                  cached = put-cached encoding codec counter.codecs e good.cached;
                  logged = good.logged;
                  once = good.once;
                },
              )
        ]
        | inr (codec, present) ↦
            subst (IsLoaded encoding) (sym (load-cached encoding counter codec present))
              (sym (good.cached encoding codec present), good)
      ]

  warn_unsupported-IsCounter :
      (encoding : Str) (loaded : LoadError ⊎ Codec) (counter : Counter Codec)
      → IsCounter counter
      → IsCounter (warn_unsupported get count_with encoding (loaded, counter))
  unfolding warn_unsupported
  warn_unsupported-IsCounter encoding (inl LoadError.not_supported) counter good =
      warn_once-IsCounter _ counter good
  warn_unsupported-IsCounter encoding (inl LoadError.failed) counter good = good
  warn_unsupported-IsCounter encoding (inr codec) counter good = good

  abbrev IsCounted : Str → Str → (CountError ⊎ CountResult) × Counter Codec → Type 0
  IsCounted model text done = (done.0 ≡ count_once model text) × IsCounter done.1

  counted-known :
      (encoding text : Str) (loaded : (LoadError ⊎ Codec) × Counter Codec)
      → IsLoaded encoding loaded
      → (counted get count_with encoding text loaded.0
          ≡ counted get count_with encoding text (get encoding))
        × IsCounter (warn_unsupported get count_with encoding loaded)
  counted-known encoding text (loaded, counter) (e, good) = (
    ap (counted get count_with encoding text) e,
    warn_unsupported-IsCounter encoding loaded counter good,
  )

  pub count-IsCounter :
      (model text : Str) (counter : Counter Codec)
      → IsCounter counter
      → ((count get count_with model text counter).0 ≡ count_once model text)
        × IsCounter (count get count_with model text counter).1
  unfolding count count_once
  count-IsCounter model text counter good = elim (Bool-cases (is_empty text)) [
    | inl blank ↦
        let done : count get count_with model text counter ≡ (inr no_tokens, counter) =
          ground (arith, blank) in
        let alone : count_once model text ≡ inr no_tokens = ground (arith, blank) in
        subst (IsCounted model text) (sym done) (sym alone, good)
    | inr filled ↦ elim (Option-cases (encoding_for_model model)) [
      | inl unknown ↦
          let warned =
            warn_once get count_with (lit "model:" ++ to_lower (trim_space model)) counter in
          let done : count get count_with model text counter ≡ (inr (approximated text), warned) =
            ground (arith, filled, unknown) in
          let alone : count_once model text ≡ inr (approximated text) =
            ground (arith, filled, unknown) in
          subst (IsCounted model text) (sym done) (sym alone, warn_once-IsCounter _ counter good)
      | inr (encoding, known) ↦
          let loaded = load_codec get count_with encoding counter in
          let (same, after) =
            counted-known encoding text loaded (load_codec-IsCounter encoding counter good) in
          let done : count get count_with model text counter ≡ (
            counted get count_with encoding text loaded.0,
            warn_unsupported get count_with encoding loaded,
          ) =
            ground (arith, filled, known) in
          let alone : count_once model text ≡ counted get count_with encoding text (get encoding) =
            ground (arith, filled, known) in
          subst (IsCounted model text) (sym done) (same ∙ sym alone, after)
    ]
  ]
