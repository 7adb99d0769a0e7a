-- ===== src/Lib.antt =====
-- notify-hub: a notification gateway. A client posts a notification with a bearer token; the API
-- enqueues a dispatch job; the dispatch service resolves the channel instances that it goes to and
-- enqueues one delivery job for each; the delivery service builds the channel's adapter and sends.
-- Channel instances and profiles live in SQLite and are edited in an admin panel.
--
-- Where the parts stand:
--   Base                  shared names, texts as UTF-16 units, dictionaries, sorting, tables by key
--   Core, Ports           src/core: the data, and the seams to the outside. `Io` is an asynchronous
--                         function: it reads and changes a `World` (the tables, the events sent and
--                         logged, the recorded outcomes, the ids drawn) and resolves or rejects.
--                         What answers from outside (HTTP, mail, clock, randomUUID, JSON.parse,
--                         URLSearchParams, the Unicode classes and case) is a field of `Externals`.
--   Db                    src/db: the rows, and each statement of the repositories as a function.
--                         Db/Channels and Db/Profiles are the repositories, Db/Integrity what the
--                         schema's constraints keep true, Db/InstallId the telemetry row,
--                         Db/Seed the first boot.
--   Channels              src/channels: adapters, registry, decorators, buildInstance.
--   Queue                 src/queue/in-memory-queue.ts
--   Dispatch, Delivery    src/dispatch/dispatch-service.ts and src/delivery/delivery-service.ts
--   Container             src/container.ts: `registerWorkers` over the in-memory queue, and the boot
--                         with its heartbeat (Boot).
--   Admin                 src/admin: the rules that a configuration must meet (Validation), writing
--                         one entity (Service), PUT /api/config (Replacing), the parser of the
--                         worker's log (WorkerLogs), the test send (TestSend), the status summary
--                         (Status), the thin routes (Routes), the static files (UiFiles), and of
--                         src/admin/ui (Panel) the pure parts, the state of the combobox and
--                         the handlers of the add-channel form and the profile cards.
--   Mcp                   src/mcp: the tools that write the configuration (Config), and those that
--                         are clients of the gateway (Sending) over `fetch`.
--   Api                   src/api: the bearer token and POST /notify, and the routes that read.
--   Config, Telemetry     src/config/load-config.ts, and the opt-in gate and heartbeat of src/telemetry.
--   Hook                  clients/claude-code/notify-hook.mjs: a run reads and changes a `HookWorld`,
--                         the files of the temporary directory and what was sent, spawned and printed;
--                         what answers it is a `Machine`. Hook/Settings, Hook/Caches, Hook/Wording,
--                         Hook/Payload and Hook/Run follow the sections of the file, and
--                         Hook/Debounce has the abstract session that `run` and `runDeferredSend`
--                         implement together.
--   Player                clients/local-tts-player/local-tts-server.mjs: the speech queue (Speech), the
--                         list of voices (Voices), and the requests (Server).
--   Tests                 small configurations that the theorems are applied to.
--
-- Every definition is by structural recursion; the polling of a test send counts its attempts. Only
-- `decimal` counts rounds: n + 1 of them for n, which is enough since each divides by ten. A SQL
-- statement that breaks a constraint throws, which is `none`; `created_at` texts are modelled by the
-- times that they spell, and JSON columns by their values. Objects used as dictionaries have own
-- properties only, so that the names every JavaScript object inherits are missing keys. Numbers in
-- JSON are integers. A deferred sender of the hook that wakes is one step, its POST included: a stop
-- that comes during the POST is outside the model.
--
-- Not modelled: BullMQ, Fastify, zod, PostHog, the MCP SDK and the other libraries and what only calls
-- them (src/bin, src/http, src/transports, the registration of routes and tools), the elements that
-- the panel draws, and the `main` function and the server socket of the client programs.
mod Base
pub mod Core
pub mod Db
pub mod Ports
pub mod Channels
pub mod Queue
pub mod Dispatch
pub mod Delivery
pub mod Container
pub mod Admin
pub mod Mcp
pub mod Api
pub mod Config
pub mod Telemetry
pub mod Hook
pub mod Player
mod Tests
