-- ===== src/Lib.antt =====
-- Verification of rillan, a local gateway between chat clients and model providers.
--
-- A chat request is scanned for secrets (internal/policy/scanner.go), the findings, the
-- classification and the project's policy are evaluated to a verdict
-- (internal/policy/evaluator.go), and the verdict, the preferences of the project and the request
-- choose among the configured providers (internal/routing). The agent (internal/agent) proposes
-- actions, which a person approves or denies.
--
-- The files:
--   * Base: text as lists of bytes, lists, maps as association lists, Go's int, sorting and the
--     printing of numbers. White space and letters are those of ASCII.
--   * Config: the records and constants of internal/config/config.go and the provider presets.
--   * Policy: the values of an evaluation (Policy/Types), `Scan` (Policy/Scanner: the matches of
--     all rules are sorted, and those that start inside the last one kept are dropped) and
--     `Evaluate` (Policy/Evaluator).
--   * Routing: `BuildCatalog` (Routing/Catalog) and `Decide` (Routing/Decide).
--   * Agent: the approval gate and its store (Agent/Approval), with a model of two calls at once
--     (Agent/Approval/Race), and the budget of a context package (Agent/Budget).
--   * Secrets: internal/secretstore, where credentials are bound to their endpoints.
--   * Config/Load: internal/config/load.go, the default configuration, the variables of the
--     environment, what is derived where a field is empty, `LoadForEdit` and `LoadWithMode`, and
--     `LoadProject` (Config/Load/Project), where the files are (Config/Load/Places), and the system
--     configuration with the policy that is sealed in it (Config/Load/System, with
--     internal/config/system_crypto.go).
--   * Config/Resolve: internal/config/load.go, the providers that the runtime hosts and their
--     credentials.
--   * Config/Validate: internal/config/validate.go, which configurations are accepted.
--   * Auth: internal/httpapi/auth_middleware.go, which requests reach a protected endpoint.
--   * Providers: internal/providers/host.go, the providers that are built from that configuration.
--   * Retrieval: internal/retrieval/pipeline.go, the context that is compiled from search results
--     and the summary for the log. Retrieval/Prepare is `Pipeline.Prepare`, with the fusion of its
--     two searches.
--   * Routing/Status: internal/routing/status.go, which candidates can serve.
--   * Chat: internal/openai, chat requests as JSON objects, their validation and the capabilities
--     that they need.
--   * Handler: internal/httpapi/chat_completions_handler.go. `ServeHTTP` is `serve_http` of
--     Handler/Serve, in stages: the request is admitted (`admit`), evaluated and routed
--     (`serve_admitted`, `serve_routed`, Handler/Route), prepared (`prepare_outbound`,
--     Handler/Plan), evaluated again (`serve_egress`, `release`) and delivered
--     (Handler/Serve/Deliver), and the response is copied (Handler/Proxy). What a request does on
--     the way, its events, metrics, headers and what it sends, is an `Exchange`.
--   * Index: internal/index, the patterns that choose the files (Index/Pattern), the walk that finds
--     them (Index/Discover), their chunks (Index/Chunk) and the blobs of embeddings
--     (Index/Vectors).
--   * Tokenize: internal/tokenize/tokenize.go, a counter with its cache (Tokenize/Cached) against
--     one without any (Tokenize/Refine).
--   * Classify: internal/classify/classifier.go, the intent of a request. Classify/Cut is the part
--     of the answer that is read.
--   * Modules: internal/modules/catalog.go, the modules of a project: how they are loaded
--     (Modules/Load, Modules/Manifest), which are enabled, and which are trusted (Modules/Trust).
--   * Runtime: internal/app, the runtime snapshot with the adapters of the modules, and its refresh
--     (Runtime/Reload). Runtime/Disk builds it from the files of the configuration, the project,
--     the system and the modules.
--   * Safety: how the verdict of the evaluation and the decision fit together.
--
-- Regular expressions, JSON, the keyring, hashes, the index store, the models, the upstream and
-- what a proposed action runs are parameters, and so are the arithmetic of scores and the recorder
-- of the chat handler's events, which it may lack and whose `Record` may fail. A response body is
-- the sequence of what its reads return, which ends. The state of the gate is passed on
-- explicitly, and each method of the store, which runs under its mutex, is one step.
-- Loops are recursions on lists, but for three that have fuel: the printing of a number, with one
-- more than the number, which each step divides by ten, the chunks of a file, with the number
-- of its lines, of which each round passes at least one, and the copy of a response body, with the
-- number of its reads, of which each round makes one.
--
-- Not modelled: what only reads and writes (YAML, SQL, HTTP clients, processes, the command line,
-- the audit file), clocks and logs, whose results are parameters where a decision depends on them;
-- the agent's package builder, tools and skills, which run git and read files; and the handlers of
-- internal/httpapi other than the chat handler, the authentication and the reload, which wrap JSON
-- around the gate and the runner.
pub mod Agent
pub mod Auth
pub mod Base
pub mod Chat
pub mod Classify
pub mod Config
pub mod Handler
pub mod Index
pub mod Modules
pub mod Policy
pub mod Providers
pub mod Retrieval
pub mod Routing
pub mod Runtime
pub mod Safety
pub mod Secrets
pub mod Tokenize
