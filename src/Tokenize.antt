-- ===== src/Tokenize.antt =====
-- internal/tokenize/tokenize.go: how many tokens a text has for a model. The codecs of tiktoken
-- are the parameters `get`, which loads one, and `count_with`, which gives none for an error. The
-- two maps of a counter, `codecs` and `warned`, are its state, with `log`, the keys of the warnings
-- that it wrote, the last one first.
pub mod Cached
pub mod Refine
mod Tests
use rillan.Base.{
  ℕ, ◌+◌, ◌/◌, Bool, true, false, ◌||◌, if◌then◌else◌, Option, none, some, List, [], ◌∷◌, ◌++◌, ◌⊎◌,
  inl, inr, any, length, is_empty, Str, lit, str_mem, lookup, has_prefix, trim_space, to_lower,
}
use rillan.Base.Map.{put}

abbrev pub cl100k_base : Str
cl100k_base = lit "cl100k_base"

abbrev pub o200k_base : Str
o200k_base = lit "o200k_base"

-- No encoding is the empty text.
pub record CountResult : Type 0 where
  pub tokens : ℕ
  pub approximate : Bool
  pub encoding : Str

abbrev has_any_prefix : Str → List Str → Bool
has_any_prefix name prefixes = any (λ p. has_prefix name p) prefixes

unfoldable pub encoding_for_model : Str → Option Str
encoding_for_model model =
    let name = to_lower (trim_space model) in
    if is_empty name
    then none
    else if has_any_prefix name
        (lit "gpt-4o" ∷ lit "gpt-4.1" ∷ lit "gpt-5" ∷ lit "o1" ∷ lit "o3" ∷ lit "o4" ∷ [])
    then some o200k_base
    else if has_any_prefix name (lit "gpt-4" ∷ lit "gpt-3.5" ∷ [])
    then some cl100k_base
    else none

-- A quarter of the bytes, rounded up.
unfoldable pub approximate_tokens : Str → ℕ
approximate_tokens text = if is_empty text then 0 else (length text + 3) / 4

pub data LoadError : Type 0 where
  not_supported failed : LoadError

pub data CountError : Type 0 where
  load_failed count_failed : CountError

pub record Counter (Codec : Type 0) : Type 0 where
  pub codecs : List (Str × Codec)
  pub warned : List Str
  pub log : List Str

abbrev pub no_tokens : CountResult
no_tokens = record { tokens = 0; approximate = false; encoding = [] }

unfoldable pub approximated : Str → CountResult
unfolding approximate_tokens
approximated text = record { tokens = approximate_tokens text; approximate = true; encoding = [] }

unfoldable pub add_result : CountResult → CountResult → CountResult
add_result total result = record {
  tokens = total.tokens + result.tokens;
  approximate = result.approximate || total.approximate;
  encoding =
      if result.approximate
      then total.encoding
      else if is_empty result.encoding
      then total.encoding
      else result.encoding;
}

-- `CountStrings`, over the `Count` of any counter whose state is passed on.
module _ {State : Type 0} (count : Str → Str → State → (CountError ⊎ CountResult) × State) where
  unfoldable pub count_from :
      CountResult → Str → List Str → State → (CountError ⊎ CountResult) × State
  unfolding add_result
  count_from total model [] counter = (inr total, counter)
  count_from total model (text ∷ texts) counter =
      let (outcome, after) = count model text counter in
      elim outcome [
        | inl err ↦ (inl err, after)
        | inr result ↦ count_from (add_result total result) model texts after
      ]

  unfoldable pub count_strings : Str → List Str → State → (CountError ⊎ CountResult) × State
  unfolding count_from
  count_strings model texts counter = count_from no_tokens model texts counter

module _ {Codec : Type 0} (get : Str → LoadError ⊎ Codec)
    (count_with : Codec → Str → Option ℕ) where
  abbrev pub new_counter : Counter Codec
  new_counter = record { codecs = []; warned = []; log = [] }

  unfoldable pub warn_once : Str → Counter Codec → Counter Codec
  warn_once key counter =
      if str_mem key counter.warned
      then counter
      else record (counter) { warned = key ∷ counter.warned; log = key ∷ counter.log }

  -- The codec is stored under a key that the map has not.
  unfoldable pub load_codec : Str → Counter Codec → (LoadError ⊎ Codec) × Counter Codec
  load_codec encoding counter = elim (lookup encoding counter.codecs) [
    | some cached ↦ (inr cached, counter)
    | none ↦ elim (get encoding) [
      | inl err ↦ (inl err, counter)
      | inr codec ↦ (inr codec, record (counter) { codecs = put encoding codec counter.codecs })
    ]
  ]

  -- What a codec that was loaded, or was not, counts.
  unfoldable pub counted : Str → Str → LoadError ⊎ Codec → CountError ⊎ CountResult
  unfolding approximated
  counted encoding text (inl LoadError.not_supported) = inr (approximated text)
  counted encoding text (inl LoadError.failed) = inl CountError.load_failed
  counted encoding text (inr codec) = elim (count_with codec text) [
    | none ↦ inl CountError.count_failed
    | some n ↦ inr (record { tokens = n; approximate = false; encoding = encoding })
  ]

  unfoldable pub warn_unsupported : Str → (LoadError ⊎ Codec) × Counter Codec → Counter Codec
  unfolding warn_once
  warn_unsupported encoding (inl LoadError.not_supported, counter) =
      warn_once (lit "encoding:" ++ encoding) counter
  warn_unsupported encoding (inl LoadError.failed, counter) = counter
  warn_unsupported encoding (inr codec, counter) = counter

  unfoldable pub count : Str → Str → Counter Codec → (CountError ⊎ CountResult) × Counter Codec
  count model text counter =
      if is_empty text then (inr no_tokens, counter) else elim (encoding_for_model model) [
        | none ↦ (
          inr (approximated text),
          warn_once (lit "model:" ++ to_lower (trim_space model)) counter,
        )
        | some encoding ↦
            let loaded = load_codec encoding counter in
            (counted encoding text loaded.0, warn_unsupported encoding loaded)
      ]
