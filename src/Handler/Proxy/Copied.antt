-- ===== src/Handler/Proxy/Copied.antt =====
-- What reaches the client of the upstream's headers and body.
use mathlib.Core.List.{append-nil, append_assoc}
use rillan.Base.{
  ◌≡◌, ◌≢◌, refl, ap, sym, ◌∙◌, true, if◌then◌else◌, Option, none, some, List, [], ◌∷◌, ◌++◌, Str,
  str_eq, str_eq_iff, str_mem, Bool-cases, Option-cases, inl, inr, arith, ℕ, zero, suc, ◌≤◌,
}
use rillan.Base.Map.{lookup-put, lookup-put_other}
use rillan.Handler.Proxy.{
  Header, Body, chunk, last, Output, Client, CopyError, values, hop_by_hop_names,
  is_hop_by_hop_header, add_header, add_values, copy_headers, body_bytes, flushed, read_error, read,
  copy_loop, copy_stream, copy_body, copy_body_and_hash,
}

module _ (canonical : Str → Str) where
  -- The values under all the keys that are a name in the canonical form, in their order.
  abbrev pub gathered : Str → Header → List Str
  gathered name [] = []
  gathered name ((key, added) ∷ source) =
      let rest = gathered name source in if str_eq (canonical key) name then added ++ rest else rest

  add_header-values :
      (name key value : Str) (h : Header)
      → values name (add_header canonical key value h)
        ≡ values name h ++ (if str_eq (canonical key) name then value ∷ [] else [])
  unfolding add_header
  add_header-values name key value h = elim (Bool-cases (str_eq (canonical key) name)) [
    | inl e ↦ let same = (str_eq_iff (canonical key) name).0 e in rw (e, same, lookup-put) refl
    | inr e ↦
        rw
          (
            e,
            lookup-put_other (canonical key) name _ h
                (λ bad. absurd (ground (arith, e, str_eq_iff (canonical key) name, bad))),
          )
          (sym (append-nil _))
  ]

  add_values-values :
      (name key : Str) (added : List Str) (h : Header)
      → values name (add_values canonical key added h)
        ≡ values name h ++ (if str_eq (canonical key) name then added else [])
  unfolding add_values
  add_values-values name key [] h = ground (arith, append-nil (values name h))
  add_values-values name key (v ∷ vs) h = ground (
    arith,
    add_values-values name key vs (add_header canonical key v h),
    add_header-values name key v h,
    append_assoc (values name h) (v ∷ []) vs,
    append-nil (values name h),
  )

  is_hop_lem :
      (key name : Str)
      → str_eq (canonical key) name ≡ true
      → is_hop_by_hop_header canonical key ≡ str_mem name hop_by_hop_names
  unfolding is_hop_by_hop_header
  is_hop_lem key name e =
      ap (λ n. str_mem n hop_by_hop_names) ((str_eq_iff (canonical key) name).0 e)

  -- After the copy, the client's headers have under a canonical name the values that they had,
  -- followed by all those of the upstream under that name, but for the names of hop-by-hop
  -- headers, which get none.
  pub copy_headers-values :
      (target source : Header) (name : Str)
      → values name (copy_headers canonical target source)
        ≡ values name target ++ (if str_mem name hop_by_hop_names then [] else gathered name source)
  unfolding copy_headers
  copy_headers-values target [] name = ground (arith, append-nil (values name target))
  copy_headers-values target ((key, added) ∷ source) name = ground (
    arith,
    is_hop_lem key name,
    copy_headers-values target source name,
    copy_headers-values (add_values canonical key added target) source name,
    add_values-values name key added target,
    append_assoc (values name target) added (gathered name source),
    append-nil (values name target),
  )

-- The error that a body ends by, if it does not end with its file.
abbrev pub ending : Body → Option Str
ending (chunk bytes rest) = ending rest
ending (last bytes err) = err

-- How many reads a body has, up to the one that reports its end.
abbrev pub read_count : Body → ℕ
read_count (chunk bytes rest) = suc (read_count rest)
read_count (last bytes err) = 1

-- What was copied of a body is a first part of it, and all of it if there is no error.
record IsCopied (body : Body) (before after : Str) (err : Option CopyError) : Type 0 where
  part : (rest : Str) × (before ++ body_bytes body ≡ after ++ rest)
  whole : err ≡ none → (after ≡ before ++ body_bytes body) × (ending body ≡ none)

read_error-none : (err : Option Str) → read_error err ≡ none → err ≡ none
read_error-none none e = refl
read_error-none (some s) e = absurd (cc)

module _ (client : Client) where
  copy_stream-IsCopied :
      (body : Body) (out : Output)
      → let (final, err) = copy_stream client body out in
        IsCopied body out.written final.written err
  unfolding copy_stream body_bytes
  copy_stream-IsCopied (last [] err) out = record {
    part = ([], refl);
    whole = λ e. (sym (append-nil out.written), read_error-none err e);
  }
  copy_stream-IsCopied (last (b ∷ bs) err) out =
      elim (Bool-cases (client.accepts out.written (b ∷ bs))) [
        | inl taken ↦ rw taken (record {
          part = ([], sym (append-nil (out.written ++ (b ∷ bs))));
          whole = λ e. (refl, read_error-none err e);
        })
        | inr refused ↦ rw refused (record { part = (b ∷ bs, refl); whole = λ bad. absurd (cc) })
      ]
  copy_stream-IsCopied (chunk [] rest) out =
      let copied = copy_stream-IsCopied rest out in
      record { part = copied.part; whole = copied.whole }
  copy_stream-IsCopied (chunk (b ∷ bs) rest) out =
      let assoc = append_assoc out.written (b ∷ bs) (body_bytes rest) in
      elim (Bool-cases (client.accepts out.written (b ∷ bs))) [
        | inl taken ↦
            let copied = copy_stream-IsCopied rest (flushed (b ∷ bs) out) in
            rw taken (record {
              part = (copied.part.0, sym assoc ∙ copied.part.1);
              whole = λ e. ((copied.whole e).0 ∙ assoc, (copied.whole e).1);
            })
        | inr refused ↦
            rw refused
              (record { part = ((b ∷ bs) ++ body_bytes rest, refl); whole = λ bad. absurd (cc) })
      ]

  -- The loop returns within as many rounds as the body has reads.
  copy_loop-returns :
      (body : Body) (rounds : ℕ) (out : Output)
      → read_count body ≤ rounds
      → copy_loop client rounds body out ≡ some (copy_stream client body out)
  unfolding copy_loop copy_stream read
  copy_loop-returns (last bytes err) zero out le = absurd (omega (arith, le))
  copy_loop-returns (chunk bytes rest) zero out le = absurd (omega (arith, le))
  copy_loop-returns (last bytes err) (suc rounds) out le = ground arith
  copy_loop-returns (chunk bytes rest) (suc rounds) out le = ground (
    arith,
    copy_loop-returns rest rounds out (omega (arith, le)),
    copy_loop-returns rest rounds (flushed bytes out) (omega (arith, le)),
  )

  copy_stream-accepted :
      ((before bytes : Str) → client.accepts before bytes ≡ true)
      → (body : Body) (out : Output) → (copy_stream client body out).1 ≡ read_error (ending body)
  unfolding copy_stream
  copy_stream-accepted ok (last bytes err) out = ground (arith, ok out.written bytes)
  copy_stream-accepted ok (chunk bytes rest) out = ground (
    arith,
    ok out.written bytes,
    copy_stream-accepted ok rest out,
    copy_stream-accepted ok rest (flushed bytes out),
  )

  -- A copy of a stream to a client that can flush, of a body whose reads come to their end. The
  -- loop returns within as many rounds as the body has reads, and with the result of `copy_body`.
  -- The bytes that reach the client are a first part of the body; without an error they are
  -- the whole body, whose last read reports the end of the file, and the hash is that of the bytes
  -- sent; with an error there is no hash. If no write fails, the only error is that of the body's
  -- last read.
  pub copy_body_and_hash-IsCopied :
      (sha256 : Str → Str) (body : Body) (rounds : ℕ)
      → client.is_flusher ≡ true
      → read_count body ≤ rounds
      → let start : Output = record { written = []; flushes = 0 } in
        let (final, hash, err) = copy_body_and_hash client sha256 body true start in
        (copy_loop client rounds body start ≡ some (copy_body client body true start))
        × ((rest : Str) × (body_bytes body ≡ final.written ++ rest))
        × (err ≡ none
            → (final.written ≡ body_bytes body)
              × (ending body ≡ none)
              × (hash ≡ sha256 final.written))
        × (err ≢ none → hash ≡ [])
        × (((before bytes : Str) → client.accepts before bytes ≡ true)
            → err ≡ read_error (ending body))
  unfolding copy_body_and_hash copy_body
  copy_body_and_hash-IsCopied sha256 body rounds flusher enough =
      let start : Output = record { written = []; flushes = 0 } in
      let copied = copy_stream-IsCopied body start in
      let streams : copy_body client body true start ≡ copy_stream client body start =
        ground (arith, flusher) in
      let returned : copy_loop client rounds body start ≡ some (copy_body client body true start) =
        copy_loop-returns body rounds start enough ∙ ap some (sym streams) in
      let accepted = λ (ok : (before bytes : Str) → client.accepts before bytes ≡ true).
        copy_stream-accepted ok body start in
      elim (Option-cases (copy_stream client body start).1) [
        | inl e ↦
            let (all_in, ends) = copied.whole e in
            let run : copy_body_and_hash client sha256 body true start
                ≡ ((copy_stream client body start).0, sha256 (body_bytes body), none) =
              ground (arith, streams, e) in
            rw run (
              returned,
              copied.part,
              λ _. (all_in, ends, ap sha256 (sym all_in)),
              λ bad. absurd (bad refl),
              λ ok. sym e ∙ accepted ok,
            )
        | inr (err, e) ↦
            let run : copy_body_and_hash client sha256 body true start
                ≡ ((copy_stream client body start).0, [], some err) =
              ground (arith, streams, e) in
            rw run (returned, copied.part, λ bad. absurd (cc), λ _. refl, λ ok. sym e ∙ accepted ok)
      ]
