-- ===== src/Secrets/Tests.antt =====
-- A keyring that is a function of its names, and a codec that ends each field by a zero byte.
use mathlib.Core.Sum.{inr-injective}
use mathlib.Core.Option.{some-injective}
use rillan.Base.{
  has_prefix, subst, ℕ, zero, suc, ◌≡◌, ◌≢◌, ◌↔◌, inl, inr, refl, ap, ◌∙◌, Bool, ◌&&◌,
  if◌then◌else◌, Option, none, some, List, [], ◌∷◌, ◌++◌, map, length, arith, Str, lit, str_eq,
  str_eq_refl, trim_space,
}
use rillan.Secrets.{
  Credential, Binding, SecretError, KeyringError, Keyring, Codec, parse_ref, keyring_prefix,
  stamped, save, load, delete, resolve_bearer, split_last, validate_binding, secret_of,
}
use rillan.Secrets.Refs.{Lacks, parse_ref_iff}
use rillan.Secrets.Bearer.{IsBound, IsTokenOf, resolve_bearer_iff}
use rillan.Secrets.RoundTrip.{IsKeyring, IsCodec, load-save, load-delete}

abbrev Entries : Type 0
Entries = Str → Str → Option Str

abbrev is_entry : Str → Str → Str → Str → Bool
is_entry service account other name = str_eq other service && str_eq name account

abbrev ring : Keyring Entries
ring = record {
  get = λ service account s. elim (s service account) [
    | none ↦ inl KeyringError.missing
    | some value ↦ inr value
  ];
  set = λ service account value s.
      inr (λ other name. if is_entry service account other name then some value else s other name);
  delete = λ service account s.
      inr (λ other name. if is_entry service account other name then none else s other name);
}

ring-IsKeyring : IsKeyring ring
ring-IsKeyring = record {
  get_set = λ service account value s after e.
      subst (λ f. ring.get service account f ≡ inr value) (inr-injective _ _ e)
        (ground (arith, str_eq_refl service, str_eq_refl account));
  get_delete = λ service account s after e.
      subst (λ f. ring.get service account f ≡ inl KeyringError.missing) (inr-injective _ _ e)
        (ground (arith, str_eq_refl service, str_eq_refl account));
  get_missing = λ service account s e. cc;
}

-- A field, up to the zero byte that ends it, and what follows.
take_field : Str → Str × Str
take_field [] = ([], [])
take_field (c ∷ s) =
    let rest = take_field s in elim c [ zero ↦ ([], s) | suc d ↦ (d ∷ rest.0, rest.1) ]

take_field_append : (s rest : Str) → take_field (map suc s ++ (0 ∷ rest)) ≡ (s, rest)
unfolding take_field
take_field_append [] rest = refl
take_field_append (c ∷ s) rest = ap (λ r. (c ∷ r.0, r.1)) (take_field_append s rest)

write_fields : List Str → Str
write_fields [] = []
write_fields (s ∷ ss) = map suc s ++ (0 ∷ write_fields ss)

read_fields : ℕ → Str → List Str
read_fields zero s = []
read_fields (suc n) s = let (field, rest) = take_field s in field ∷ read_fields n rest

read_write : (ss : List Str) → read_fields (length ss) (write_fields ss) ≡ ss
unfolding read_fields write_fields
read_write [] = refl
read_write (s ∷ ss) =
    ap (λ r. r.0 ∷ read_fields (length ss) r.1) (take_field_append s (write_fields ss))
    ∙ ap (◌∷◌ s) (read_write ss)

abbrev fields_of : Credential → List Str
fields_of c =
    c.kind ∷ c.api_key ∷ c.access_token ∷ c.refresh_token ∷ c.id_token ∷ c.endpoint
    ∷ c.auth_strategy ∷ c.issuer ∷ c.audience ∷ c.stored_at ∷ []

abbrev of_fields : List Str → Option Credential
of_fields (a ∷ b ∷ c ∷ d ∷ e ∷ f ∷ g ∷ h ∷ i ∷ j ∷ []) = some (record {
  kind = a;
  api_key = b;
  access_token = c;
  refresh_token = d;
  id_token = e;
  endpoint = f;
  auth_strategy = g;
  issuer = h;
  audience = i;
  stored_at = j;
})
of_fields _ = none

abbrev json : Codec
json = record {
  marshal = λ c. some (write_fields (fields_of c));
  unmarshal = λ s. of_fields (read_fields 10 s);
}

json-IsCodec : IsCodec json
json-IsCodec c value e =
    subst (λ s. of_fields (read_fields 10 s) ≡ some c) (some-injective _ _ e)
      (ap of_fields (read_write (fields_of c)))

abbrev stored : Credential
stored = record {
  kind = lit "api_key";
  api_key = lit "k";
  access_token = [];
  refresh_token = [];
  id_token = [];
  endpoint = lit "https://a";
  auth_strategy = [];
  issuer = [];
  audience = [];
  stored_at = [];
}

abbrev empty_ring : Entries
empty_ring = λ service account. none

abbrev ref : Str
ref = lit " keyring://rillan/llm/a"

storing : Unit {0}
unfolding save load delete resolve_bearer parse_ref split_last validate_binding secret_of lit str_eq
    trim_space take_field write_fields read_fields has_prefix
storing = tt

saved :
    (after : Entries) × (save ring json (lit "now") ref stored empty_ring ≡ inr after)
    × (load ring json ref after ≡ inr (stamped (lit "now") stored))
unfolding storing
saved = (_, refl, refl)

deleted : (after : Entries) × (delete ring json ref saved.0 ≡ inr after)
unfolding storing
deleted = (_, refl)

abbrev elsewhere : Binding
elsewhere = record { endpoint = lit "https://b"; auth_strategy = []; issuer = []; audience = [] }

refused : resolve_bearer ring json ref elsewhere saved.0 ≡ inl SecretError.endpoint_mismatch
unfolding storing saved
refused = refl

refs_parsed : (parse_ref ref ≡ inr (lit "rillan/llm", lit "a")) ↔ (
    (trim_space ref ≡ keyring_prefix ++ (lit "rillan/llm" ++ (b'/' ∷ lit "a")))
    × (lit "rillan/llm" ≢ [])
    × (lit "a" ≢ [])
    × Lacks b'/' (lit "a"))
refs_parsed = parse_ref_iff ref (lit "rillan/llm") (lit "a")

resolve_bearer_iff_example : (resolve_bearer ring json ref elsewhere saved.0 ≡ inr (lit "k")) ↔ (
    (credential : Credential) × (load ring json ref saved.0 ≡ inr credential)
    × IsBound credential elsewhere
    × IsTokenOf (lit "k") credential)
resolve_bearer_iff_example = resolve_bearer_iff ring json ref elsewhere saved.0 (lit "k")

load-save_example : load ring json ref saved.0 ≡ inr (stamped (lit "now") stored)
load-save_example =
    load-save ring json ring-IsKeyring json-IsCodec (lit "now") ref stored empty_ring saved.0
      saved.1

deleted_gone : load ring json ref deleted.0 ≡ inl SecretError.not_found
deleted_gone = load-delete ring json ring-IsKeyring ref saved.0 deleted.0 deleted.1
