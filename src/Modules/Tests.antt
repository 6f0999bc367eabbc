-- ===== src/Modules/Tests.antt =====
-- Two modules, one of which is enabled, twice.
use rillan.Base.{
  ◌≡◌, refl, none, some, List, [], ◌∷◌, All, Str, lit, str_eq, str_mem, lookup, trim_space,
}
use rillan.Base.Map.{put}
use rillan.Modules.{LoadedModule, Catalog, by_id, filter_from, filter_enabled}
use rillan.Modules.Enabled.{IsNamed, IsFresh, filter_enabled-IsNamed}

abbrev module_of : Str → LoadedModule
module_of id = record {
  id = id;
  display_name = id;
  version = lit "1";
  root_path = lit "/m";
  manifest_sha256 = [];
  manifest_path = [];
  entrypoint = [];
  llm_adapters = [];
  mcp_servers = [];
  lsp_servers = [];
}

abbrev catalog : Catalog
catalog = record {
  modules_dir = lit "/m";
  modules = module_of (lit "a") ∷ module_of (lit "b") ∷ [];
}

abbrev left : Catalog
left = record { modules_dir = lit "/m"; modules = module_of (lit "b") ∷ [] }

abbrev enabled : List Str
enabled = lit " b" ∷ [] ∷ lit "b" ∷ []

running : Unit {0}
unfolding by_id filter_from filter_enabled put lookup str_eq str_mem trim_space lit
running = tt

filtered : filter_enabled catalog enabled ≡ some left
unfolding running
filtered = refl

missing : filter_enabled catalog (lit "b" ∷ lit "c" ∷ []) ≡ none
unfolding running
missing = refl

enabled-IsNamed : All (IsNamed catalog.modules enabled) left.modules × IsFresh [] left.modules
enabled-IsNamed = filter_enabled-IsNamed catalog left enabled filtered
