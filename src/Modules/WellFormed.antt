-- ===== src/Modules/WellFormed.antt =====
-- What a manifest that is loaded has.
use rillan.Base.{
  ◌≡◌, refl, ◌∙◌, subst, ◌⊎◌, inl, inr, fail_if, >>=-eq-inr, fail_if-eq-inr, Bool, true, false,
  List, [], ◌∷◌, All, is_empty, arith, Str, str_eq, str_mem, trim_space, Bool-cases,
}
use rillan.Config.{LlmProviderConfig, McpServerConfig, transport_http, transport_stdio}
use rillan.Modules.{LspServerConfig, LoadedModule}
use rillan.Modules.Manifest.{
  Manifest, ModuleError, normalize_all, normalize_command, check_transport, check_adapter,
  check_mcp_server, check_lsp_server, normalize_llm_adapters, normalize_mcp_servers,
  normalize_lsp_servers, load_module_manifest, loaded_of,
}

-- The trimmed identifiers are not empty, not in a set, and no two the same.
module _ {A : Type 0} (id_of : A → Str) where
  abbrev pub IsIdentified : List Str → List A → Type 0
  IsIdentified seen [] = Unit
  IsIdentified seen (x ∷ xs) =
      (is_empty (trim_space (id_of x)) ≡ false)
      × (str_mem (trim_space (id_of x)) seen ≡ false)
      × IsIdentified (trim_space (id_of x) ∷ seen) xs

  -- What the shared loop keeps, if each check does and does not change the identifier.
  normalize_all-IsIdentified :
      (check : A → ModuleError ⊎ A) (Good : A → Type 0)
      → ((x y : A) → check x ≡ inr y → Good y × (id_of x ≡ id_of y))
      → (seen : List Str) (xs ys : List A) → normalize_all id_of check seen xs ≡ inr ys
      → All Good ys × IsIdentified seen ys
  unfolding normalize_all
  normalize_all-IsIdentified check Good checked seen [] [] e = (tt, tt)
  normalize_all-IsIdentified check Good checked seen [] (y ∷ ys) e = absurd (cc)
  normalize_all-IsIdentified check Good checked seen (x ∷ xs) out e =
      let (u, named, e1) =
        >>=-eq-inr (fail_if (is_empty (trim_space (id_of x))) ModuleError.blank_id) _ e in
      let (v, fresh, e2) =
        >>=-eq-inr (fail_if (str_mem (trim_space (id_of x)) seen) ModuleError.declared_twice) _
          e1 in
      let (y, ok, e3) = >>=-eq-inr (check x) _ e2 in
      let (ys, rest, e4) =
        >>=-eq-inr (normalize_all id_of check (trim_space (id_of x) ∷ seen) xs) _ e3 in
      let (good, same) = checked x y ok in
      let (goods, ids) =
        normalize_all-IsIdentified check Good checked (trim_space (id_of x) ∷ seen) xs ys rest in
      let whole : y ∷ ys ≡ out = (cc) in
      subst (λ o. All Good o × IsIdentified seen o) whole
        (
          (good, goods),
          subst
              (λ i.
                (is_empty (trim_space i) ≡ false)
                × (str_mem (trim_space i) seen ≡ false)
                × IsIdentified (trim_space i ∷ seen) ys)
              same (fail_if-eq-inr _ _ named, fail_if-eq-inr _ _ fresh, ids),
        )

-- An endpoint or a command, as the transport asks for.
abbrev pub IsReachable : Str → Str → List Str → Type 0
IsReachable transport endpoint command =
    ((str_eq (trim_space transport) transport_http ≡ true)
      × (is_empty (trim_space endpoint) ≡ false))
    ⊎ ((str_eq (trim_space transport) transport_stdio ≡ true) × (is_empty command ≡ false))

abbrev pub IsAdapter : LlmProviderConfig → Type 0
IsAdapter a =
    (is_empty (trim_space a.backend) ≡ false) × IsReachable a.transport a.endpoint a.command

abbrev pub IsServer : McpServerConfig → Type 0
IsServer s = IsReachable s.transport s.endpoint s.command

-- A module whose parts are all there.
pub record IsModule (loaded : LoadedModule) : Type 0 where
  pub id : is_empty loaded.id ≡ false
  pub version : is_empty loaded.version ≡ false
  pub entrypoint : is_empty loaded.entrypoint ≡ false
  pub llm_adapters :
      All IsAdapter loaded.llm_adapters × IsIdentified (λ a. a.id) [] loaded.llm_adapters
  pub mcp_servers : All IsServer loaded.mcp_servers × IsIdentified (λ s. s.id) [] loaded.mcp_servers
  pub lsp_servers :
      All (λ s. is_empty s.command ≡ false) loaded.lsp_servers
      × IsIdentified (λ s. s.id) [] loaded.lsp_servers

module _ (is_abs : Str → Bool) (join : Str → Str → Str) where
  normalize_command-filled :
      (root : Str) (command : List Str)
      → is_empty (normalize_command is_abs join root command) ≡ is_empty command
  unfolding normalize_command
  normalize_command-filled root [] = refl
  normalize_command-filled root (first ∷ rest) = ground arith

  check_transport-IsReachable :
      (root transport endpoint : Str) (command out : List Str)
      → check_transport is_abs join root transport endpoint command ≡ inr out
      → IsReachable transport endpoint out
  unfolding check_transport
  check_transport-IsReachable root transport endpoint command out e =
      elim (Bool-cases (str_eq (trim_space transport) transport_http)) [
        | inl http ↦ inl (http, ground (arith, e, http))
        | inr other ↦ elim (Bool-cases (str_eq (trim_space transport) transport_stdio)) [
          | inr bad ↦ absurd (ground (arith, e, other, bad))
          | inl stdio ↦ elim (Bool-cases (is_empty command)) [
            | inl blank ↦ absurd (ground (arith, e, other, stdio, blank))
            | inr filled ↦
                let same : normalize_command is_abs join root command ≡ out =
                  ground (arith, e, other, stdio, filled) in
                inr (
                  stdio,
                  subst (λ c. is_empty c ≡ false) same
                      (normalize_command-filled root command ∙ filled),
                )
          ]
        ]
      ]

  check_adapter-IsAdapter :
      (root : Str) (x y : LlmProviderConfig)
      → check_adapter is_abs join root x ≡ inr y
      → IsAdapter y × (x.id ≡ y.id)
  unfolding check_adapter
  check_adapter-IsAdapter root x y e =
      let (u, named, e1) =
        >>=-eq-inr (fail_if (is_empty (trim_space x.backend)) ModuleError.no_backend) _ e in
      let (command, ok, e2) =
        >>=-eq-inr (check_transport is_abs join root x.transport x.endpoint x.command) _ e1 in
      let reachable =
        check_transport-IsReachable root x.transport x.endpoint x.command command ok in
      let whole : record (x) { command = command } ≡ y = (cc) in
      subst (λ z. IsAdapter z × (x.id ≡ z.id)) whole ((fail_if-eq-inr _ _ named, reachable), refl)

  check_mcp_server-IsServer :
      (root : Str) (x y : McpServerConfig)
      → check_mcp_server is_abs join root x ≡ inr y
      → IsServer y × (x.id ≡ y.id)
  unfolding check_mcp_server
  check_mcp_server-IsServer root x y e =
      let (command, ok, e2) =
        >>=-eq-inr (check_transport is_abs join root x.transport x.endpoint x.command) _ e in
      let reachable =
        check_transport-IsReachable root x.transport x.endpoint x.command command ok in
      let whole : record (x) { command = command } ≡ y = (cc) in
      subst (λ z. IsServer z × (x.id ≡ z.id)) whole (reachable, refl)

  check_lsp_server-filled :
      (root : Str) (x y : LspServerConfig)
      → check_lsp_server is_abs join root x ≡ inr y
      → (is_empty y.command ≡ false) × (x.id ≡ y.id)
  unfolding check_lsp_server
  check_lsp_server-filled root x y e =
      let (u, named, e1) = >>=-eq-inr (fail_if (is_empty x.command) ModuleError.no_command) _ e in
      let whole : record (x) { command = normalize_command is_abs join root x.command } ≡ y =
        (cc) in
      subst (λ z. (is_empty z.command ≡ false) × (x.id ≡ z.id)) whole
        (normalize_command-filled root x.command ∙ fail_if-eq-inr _ _ named, refl)

  pub load_module_manifest-IsModule :
      (root path : Str) (manifest : Manifest) (digest : Str) (loaded : LoadedModule)
      → load_module_manifest is_abs join root path manifest digest ≡ inr loaded
      → IsModule loaded × (loaded.manifest_sha256 ≡ digest)
  unfolding load_module_manifest normalize_llm_adapters normalize_mcp_servers normalize_lsp_servers
  load_module_manifest-IsModule root path manifest digest loaded e =
      let (u, named, e1) =
        >>=-eq-inr (fail_if (is_empty (trim_space manifest.id)) ModuleError.no_id) _ e in
      let (v, versioned, e2) =
        >>=-eq-inr (fail_if (is_empty (trim_space manifest.version)) ModuleError.no_version) _ e1 in
      let (w, entered, e3) =
        >>=-eq-inr (fail_if (is_empty manifest.entrypoint) ModuleError.no_entrypoint) _ e2 in
      let (adapters, llm, e4) =
        >>=-eq-inr
          (normalize_all (λ a. a.id) (check_adapter is_abs join root) [] manifest.llm_adapters) _
          e3 in
      let (mcps, mcp, e5) =
        >>=-eq-inr
          (normalize_all (λ s. s.id) (check_mcp_server is_abs join root) [] manifest.mcp_servers) _
          e4 in
      let (lsps, lsp, e6) =
        >>=-eq-inr
          (normalize_all (λ s. s.id) (check_lsp_server is_abs join root) [] manifest.lsp_servers) _
          e5 in
      let whole : loaded_of is_abs join root path manifest digest adapters mcps lsps ≡ loaded =
        (cc) in
      subst (λ m. IsModule m × (m.manifest_sha256 ≡ digest)) whole
        (
          record {
            id = fail_if-eq-inr _ _ named;
            version = fail_if-eq-inr _ _ versioned;
            entrypoint =
                normalize_command-filled root manifest.entrypoint ∙ fail_if-eq-inr _ _ entered;
            llm_adapters =
                normalize_all-IsIdentified (λ a. a.id) (check_adapter is_abs join root) IsAdapter
                  (check_adapter-IsAdapter root) [] manifest.llm_adapters adapters llm;
            mcp_servers =
                normalize_all-IsIdentified (λ s. s.id) (check_mcp_server is_abs join root) IsServer
                  (check_mcp_server-IsServer root) [] manifest.mcp_servers mcps mcp;
            lsp_servers =
                normalize_all-IsIdentified (λ s. s.id) (check_lsp_server is_abs join root)
                  (λ s. is_empty s.command ≡ false) (check_lsp_server-filled root) []
                  manifest.lsp_servers lsps lsp;
          },
          refl,
        )
