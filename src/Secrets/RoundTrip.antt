-- ===== src/Secrets/RoundTrip.antt =====
-- What is saved in the keyring is what is loaded from it.
use rillan.Base.{◌≡◌, inl, inr, sym, ap, ◌∙◌, some, Str, arith, Sum-cases, Option-cases}
use rillan.Secrets.{
  Credential, SecretError, KeyringError, Keyring, Codec, parse_ref, stamped, save, load, delete,
}

-- What the program relies on of a keyring: an entry that is set is read back, one
-- that is deleted is missing, and so is one that cannot be deleted for that reason.
pub record IsKeyring {S : Type 0} (ring : Keyring S) : Type 0 where
  pub get_set :
      (service account value : Str) (s after : S)
      → ring.set service account value s ≡ inr after
      → ring.get service account after ≡ inr value
  pub get_delete :
      (service account : Str) (s after : S)
      → ring.delete service account s ≡ inr after
      → ring.get service account after ≡ inl KeyringError.missing
  pub get_missing :
      (service account : Str) (s : S)
      → ring.delete service account s ≡ inl KeyringError.missing
      → ring.get service account s ≡ inl KeyringError.missing

-- What is marshalled unmarshals to the same credential.
abbrev pub IsCodec : Codec → Type 0
IsCodec json =
    (credential : Credential) (value : Str)
    → json.marshal credential ≡ some value
    → json.unmarshal value ≡ some credential

module _ {S : Type 0} (ring : Keyring S) (json : Codec) where
  saved_lem :
      (now ref : Str) (credential : Credential) (s after : S)
      → save ring json now ref credential s ≡ inr after
      → (service : Str) × (account : Str) × (value : Str) × (parse_ref ref ≡ inr (service, account))
        × (json.marshal (stamped now credential) ≡ some value)
        × (ring.set service account value s ≡ inr after)
  unfolding save
  saved_lem now ref credential s after e = elim (Sum-cases (parse_ref ref)) [
    | inl (err, p) ↦ absurd (ground (arith, e, p))
    | inr ((service, account), p) ↦ elim (Option-cases (json.marshal (stamped now credential))) [
      | inl m ↦ absurd (ground (arith, e, p, m))
      | inr (value, m) ↦ elim (Sum-cases (ring.set service account value s)) [
        | inl (err, w) ↦ absurd (ground (arith, e, p, m, w))
        | inr (after_set, w) ↦ (service, account, value, p, m, ground (arith, e, p, m, w))
      ]
    ]
  ]

  load_lem :
      (ref service account value : Str) (credential : Credential) (s : S)
      → parse_ref ref ≡ inr (service, account)
      → ring.get service account s ≡ inr value
      → json.unmarshal value ≡ some credential
      → load ring json ref s ≡ inr credential
  unfolding load
  load_lem ref service account value credential s p g u = rw (p, g, u, load)

  -- Under a lawful keyring and codec, a save that succeeds makes its reference load the
  -- credential, stamped with the time of the save.
  pub load-save :
      IsKeyring ring
      → IsCodec json
      → (now ref : Str) (credential : Credential) (s after : S)
      → save ring json now ref credential s ≡ inr after
      → load ring json ref after ≡ inr (stamped now credential)
  load-save lawful codec now ref credential s after e =
      let (service, account, value, p, m, w) = saved_lem now ref credential s after e in
      load_lem ref service account value (stamped now credential) after p
        (lawful.get_set service account value s after w) (codec (stamped now credential) value m)

  deleted_lem :
      IsKeyring ring
      → (ref : Str) (s after : S) → delete ring json ref s ≡ inr after
      → (service : Str) × (account : Str) × (parse_ref ref ≡ inr (service, account))
        × (ring.get service account after ≡ inl KeyringError.missing)
  unfolding delete
  deleted_lem lawful ref s after e = elim (Sum-cases (parse_ref ref)) [
    | inl (err, p) ↦ absurd (ground (arith, e, p))
    | inr ((service, account), p) ↦ elim (Sum-cases (ring.delete service account s)) [
      | inl (KeyringError.missing, d) ↦
          let same : s ≡ after = ground (arith, e, p, d) in
          (
            service,
            account,
            p,
            ap (ring.get service account) (sym same) ∙ lawful.get_missing service account s d,
          )
      | inl (KeyringError.unavailable, d) ↦ absurd (ground (arith, e, p, d))
      | inr (rest, d) ↦
          let same : rest ≡ after = ground (arith, e, p, d) in
          (
            service,
            account,
            p,
            ap (ring.get service account) (sym same) ∙ lawful.get_delete service account s rest d,
          )
    ]
  ]

  -- Under a lawful keyring, a reference does not load once it was deleted without an error,
  -- whether or not there was a credential.
  pub load-delete :
      IsKeyring ring
      → (ref : Str) (s after : S) → delete ring json ref s ≡ inr after
      → load ring json ref after ≡ inl SecretError.not_found
  unfolding load
  load-delete lawful ref s after e =
      let (service, account, p, gone) = deleted_lem lawful ref s after e in rw (p, gone, load)
