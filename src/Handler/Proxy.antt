-- ===== src/Handler/Proxy.antt =====
-- The upstream's response, passed on: `copyHeaders`, `copyBody` and `copyBodyAndHash`.
pub mod Copied
use rillan.Base.{
  ℕ, zero, suc, ◌&&◌, Bool, true, false, if◌then◌else◌, not, Option, none, some, List, [], ◌∷◌,
  ◌++◌, is_empty, Str, lit, str_mem, lookup,
}
use rillan.Base.Map.{put}
use rillan.Retrieval.{or_default}

-- http.Header: the values of each key.
abbrev pub Header : Type 0
Header = List (Str × List Str)

abbrev pub hop_by_hop_names : List Str
hop_by_hop_names =
    lit "Connection"
    ∷ lit "Keep-Alive"
    ∷ lit "Proxy-Authenticate"
    ∷ lit "Proxy-Authorization"
    ∷ lit "Te"
    ∷ lit "Trailer"
    ∷ lit "Transfer-Encoding"
    ∷ lit "Upgrade"
    ∷ []

abbrev pub values : Str → Header → List Str
values key headers = or_default [] (lookup key headers)

-- `canonical` is http.CanonicalHeaderKey, by which `Add` names a key.
module _ (canonical : Str → Str) where
  unfoldable pub is_hop_by_hop_header : Str → Bool
  is_hop_by_hop_header key = str_mem (canonical key) hop_by_hop_names

  -- `http.Header.Add`
  unfoldable pub add_header : Str → Str → Header → Header
  add_header key value headers =
      put (canonical key) (values (canonical key) headers ++ (value ∷ [])) headers

  -- The inner loop of `copyHeaders`.
  unfoldable pub add_values : Str → List Str → Header → Header
  unfolding add_header
  add_values key [] headers = headers
  add_values key (value ∷ rest) headers = add_values key rest (add_header key value headers)

  -- The headers that `target` ends as.
  unfoldable pub copy_headers : Header → Header → Header
  unfolding is_hop_by_hop_header add_values
  copy_headers target [] = target
  copy_headers target ((key, added) ∷ source) =
      let skipped = copy_headers target source in
      let copied = copy_headers (add_values key added target) source in
      if is_hop_by_hop_header key then skipped else copied

-- What an io.Reader returns, read after read: bytes, and with the last ones the end of the file
-- or, as a text, an error.
pub data Body : Type 0 where
  chunk : Str → Body → Body
  last : Str → Option Str → Body

-- What one `Read` of a body returns: bytes, the end if it reports one, and the body that is left. A
-- body that has reported its end goes on reporting it.
pub record ReadResult : Type 0 where
  pub bytes : Str
  pub ended : Option (Option Str)
  pub left : Body

unfoldable pub read : Body → ReadResult
read (chunk bytes rest) = record { bytes = bytes; ended = none; left = rest }
read (last bytes err) = record { bytes = bytes; ended = some err; left = last [] err }

pub data CopyError : Type 0 where
  no_flusher write_failed : CopyError
  read_failed : Str → CopyError

-- What was written to the client, and how often it was flushed.
pub record Output : Type 0 where
  pub written : Str
  pub flushes : ℕ

-- `accepts` says which writes succeed, of the bytes given after those written; `is_flusher` that
-- the writer can flush; and `io_copy` is io.Copy, for what is not a stream.
pub record Client : Type 0 where
  pub accepts : Str → Str → Bool
  pub is_flusher : Bool
  pub io_copy : Body → Output → Output × Option CopyError

abbrev pub flushed : Str → Output → Output
flushed bytes out = record { written = out.written ++ bytes; flushes = suc out.flushes }

-- What follows a read that is the last.
abbrev pub read_error : Option Str → Option CopyError
read_error none = none
read_error (some err) = some (CopyError.read_failed err)

-- The bytes that are read of a body, as far as the copy goes; io.TeeReader hashes them.
unfoldable pub body_bytes : Body → Str
body_bytes (chunk bytes rest) = bytes ++ body_bytes rest
body_bytes (last bytes err) = bytes

module _ (client : Client) where
  -- The loop of `copyBody`, as far as it gets in a number of rounds, of which each reads once.
  unfoldable pub copy_loop : ℕ → Body → Output → Option (Output × Option CopyError)
  unfolding read
  copy_loop zero body out = none
  copy_loop (suc rounds) body out =
      let got = read body in
      let copied = if is_empty got.bytes then out else flushed got.bytes out in
      let rest = copy_loop rounds got.left copied in
      if not (is_empty got.bytes) && not (client.accepts out.written got.bytes)
      then some (out, some CopyError.write_failed)
      else elim got.ended [ none ↦ rest | some err ↦ some (copied, read_error err) ]

  -- What the loop of `copyBody` returns, read by read. Nothing is written or flushed for a read
  -- of no bytes.
  unfoldable pub copy_stream : Body → Output → Output × Option CopyError
  copy_stream (last bytes err) out =
      if is_empty bytes
      then (out, read_error err)
      else if client.accepts out.written bytes
      then (flushed bytes out, read_error err)
      else (out, some CopyError.write_failed)
  copy_stream (chunk bytes rest) out =
      let unchanged = copy_stream rest out in
      let next = copy_stream rest (flushed bytes out) in
      if is_empty bytes
      then unchanged
      else if client.accepts out.written bytes
      then next
      else (out, some CopyError.write_failed)

  unfoldable pub copy_body : Body → Bool → Output → Output × Option CopyError
  unfolding copy_stream
  copy_body body streaming out =
      if not streaming
      then client.io_copy body out
      else if not client.is_flusher
      then (out, some CopyError.no_flusher)
      else copy_stream body out

  -- The hash, of all that was read, stands only with a copy that succeeds.
  unfoldable pub copy_body_and_hash :
      (Str → Str) → Body → Bool → Output → Output × Str × Option CopyError
  unfolding copy_body
  copy_body_and_hash sha256 body streaming out =
      let (final, err) = copy_body body streaming out in
      elim err [ none ↦ (final, sha256 (body_bytes body), none) | some e ↦ (final, [], some e) ]
