-- ===== src/Lib.antt =====
-- A verification library for the Python core of agentcook.
--
-- The program builds AI agents from parts that share no state but what is passed to them:
--   * Compaction: strategies that shorten the history of a conversation to a window or a token budget
--     (agentcook-core/src/agentcook_core/compaction.py). `Compaction.Summary`, `Compaction.Window` and
--     `Compaction.Budget` are `SummaryCompaction`, `SlidingWindowCompaction` and `TokenBudgetPruning`;
--     `Compaction.Count` has the token counters.
--   * Pruning: strategies that drop single turns (agentcook-core/src/agentcook_core/pruning.py).
--     `Pruning.Scan` is the loop that they share; `Pruning.Duplicate`, `Pruning.Relevance` and
--     `Pruning.Composite` are the strategies.
--   * Router: the registry of models and the choice of one for a request
--     (agentcook-core/src/agentcook_core/model_router.py). `Router.Registry` is `ModelRegistry`,
--     `Router.Choice` is `_apply_policy`, `Router.Select` is `ModelRouter.select`.
--   * Memory: the layered memory of an agent (agentcook-core/src/agentcook_core/memory.py).
--     `Memory.Store` is `InMemoryStore`; `Memory.Identity`, `Memory.Soul` and `Memory.Manager` are the
--     classes that write to it and read from it.
--   * Hooks: hooks around a core callable (agentcook-core/src/agentcook_core/hook_runtime.py).
--     `Hooks.Registry` is `HookRegistry`, `Hooks.Pipeline` is `HookPipeline`, `Hooks.Builtin` the two
--     hooks that come with it.
--   * Fallback: a chain of providers
--     (agentcook-providers/src/agentcook_providers/fallback.py), in `Fallback.Chain`.
--   * Quota: which provider a turn of the chat uses
--     (agentcook/src/agentcook_app/middleware/quota.py), in `Quota.Resolver`.
--   * Skills: skills in markdown files with a frontmatter
--     (agentcook-core/src/agentcook_core/skill_loader.py). `Skills.Frontmatter` is
--     `parse_frontmatter`, `Skills.Manifest` has manifests and entries, `Skills.Registry` is
--     `SkillRegistry`.
--   * Plugins: plugin bundles (agentcook-core/src/agentcook_core/plugin_loader.py), which have skills
--     and connectors. `Plugins.Parts` has the readers of the parts, `Plugins.Loader` is `load_plugin`,
--     `Plugins.Registry` is `PluginRegistry`.
--   * MultiAgent: the choice of an agent for a task
--     (agentcook-core/src/agentcook_core/multi_agent.py). `MultiAgent.Route` is
--     `pattern_match_route`, `MultiAgent.Config` is `parse_router_config`,
--     `MultiAgent.Orchestrator` is `MultiAgentOrchestrator`.
--   * Connectors: connectors to other systems (agentcook-core/src/agentcook_core/connector.py).
--     `Connectors.Adapter` has the adapters, whose `open` is `open_adapter`, and
--     `Connectors.Manager` is `ConnectorManager`, whose `get` is `find`.
--   * Mcp: tools of MCP servers (agentcook-core/src/agentcook_core/mcp_adapter.py), in `Mcp.Client`
--     and `Mcp.Registry`.
--   * Sandbox: the execution of plugin code (agentcook-core/src/agentcook_core/sandbox_runner.py).
--     `Sandbox.Command` is `_build_command`, `Sandbox.Executor` has the `run` of both executors.
--   * Media: the rendering of attachments (agentcook-core/src/agentcook_core/media.py).
--     `Media.Escape` is what `html.escape` of Python's standard library is documented to do, which
--     the renderers call; `Media.Markdown`, `Media.Mermaid` and `Media.Cards` are the
--     renderers, `Media.Registry` is `MediaRegistry`.
--   * Turnstile: the check of a visitor
--     (agentcook/src/agentcook_app/middleware/turnstile.py), in `Turnstile.Verifier`.
--   * ChatStream: the streaming endpoint (agentcook/src/agentcook_app/routers/chat.py and
--     agentcook/src/agentcook_app/schemas_chat.py), which calls the verifier and a provider.
--     `ChatStream.Frames` has the two generators, `ChatStream.Endpoint` is `chat_stream`.
--   * Security: access tokens and scopes (agentcook/src/agentcook_app/security.py), in
--     `Security.Token`.
-- `Chat` has the messages of agentcook-core/src/agentcook_core/types.py. Functions keep the names of
-- the source; `init` is a constructor. A method of a mutable object takes the object's state and
-- answers with its result and the new state. The field `data` of `HookContext` is `data_values` here.
-- The theorems are in the modules called Laws or named for what they prove; runs at small inputs are
-- in the modules called Tests.
--
-- Conventions. Integers of the source that are never negative are natural numbers, the others are
-- `Prelude.Integers`. Floats are the parameter `Floats`, a type with the operations that the code
-- uses. Dicts are lists of keys and values in insertion order (`Prelude.Dict`). Times are readings of the clock in microseconds, one for each call
-- of an operation; the pipeline takes its two readings in nanoseconds. Exceptions are values. Embedders,
-- availability probes, providers, hooks, the core callable, `json.loads`, `json.dumps`, `repr` and
-- `str` of a dict, and `str.lower` are parameters, since their code is not in the repository or is the
-- user's; so are `re`, the HTTP clients, `subprocess.run`, `jwt.decode`, the environment and the
-- reading of files. Code that walks a text has it as a list of code points (`Prelude.Chars`). Every
-- loop is structural recursion on a list; there is no fuel but for the digits of a decimal, where it is
-- the number plus one, which is at least the number of its digits.
--
-- Not modelled: tracing, logging and metrics back ends; thread safety; the providers of single vendors;
-- the HTTP application but for the chat endpoint, the quota, the check of visitors and access tokens;
-- storage in Postgres, Redis and S3, and the network services. They are calls of SDKs, SQL and network
-- I/O for the most part.
pub mod Chat
pub mod ChatStream
pub mod Compaction
pub mod Connectors
pub mod Fallback
pub mod Hooks
pub mod Mcp
pub mod Media
pub mod Memory
pub mod MultiAgent
pub mod Plugins
pub mod Prelude
pub mod Pruning
pub mod Quota
pub mod Router
pub mod Samples
pub mod Sandbox
pub mod Security
pub mod Skills
pub mod Turnstile
