-- ===== src/Lib.antt =====
-- calendar-bridge mirrors the busy time of several Google calendars onto one another: each pass of
-- the engine lists the events of every account, puts an opaque "busy" block for each onto the other
-- accounts, and deletes the blocks whose source is gone.
--
-- The parts, by file of the repository, and how they call each other:
-- - internal/sync/sync.go, the engine. Calendar has the tests on wire events and the ownership tags
--   (isOwnedBlock, sourceIdentity, blocksTime, indexKey, timesEqual, copySpan). Engine/Model has
--   the state, Engine/Ensure is ensureBlock, and SyncOnce is cut where its comments cut it:
--   Engine/Fetch is step 1, Engine/Propagate step 2, Engine/Collect step 3, and Engine/Pass the
--   whole. The engine calls a CalendarClient per account.
-- - internal/sync/client.go. Client is the interface CalendarClient, and GoogleApi
--   googleCalendarClient over the calls of the Calendar API, which are a parameter (EventsApi).
-- - internal/sync/provider.go. Provider/Neutral has the provider-neutral events and the interface
--   Provider.
-- - internal/sync/google_provider.go. Provider/Mapping has the translations of events, and
--   Provider/Google the five operations of googleProvider, which calls a CalendarClient.
-- - internal/sync/provider_client.go. Provider/Bridge is providerClient, which makes a
--   CalendarClient of a Provider again.
-- - internal/sync/retry.go. Retry is the retry loop with its backoff, and Fault the errors with
--   their classification.
-- - internal/sync/retrying_client.go. Retry/Client is retryingClient, a CalendarClient around
--   another.
-- - cmd/calendar-bridge/main.go. Stack is buildEngine, which puts the clients of each account
--   together: providerClient on googleProvider on retryingClient on googleCalendarClient.
--   Daemon/Exit has the exit codes, reportSetupError and wasInterrupted, Daemon/Once is runSyncOnce
--   with what it prints, Daemon/Servers is startMetrics and startWebhook, Daemon/Setup what runSync
--   does before its poll loop, and Daemon/Loop that loop. Daemon/Command is main with parseFlags,
--   Daemon/Auth runAuth, and Daemon/Ui has syncNow, statusFn and the exit codes of runUI.
--   cmd/calendar-bridge/state.go. Daemon/State is syncState. cmd/calendar-bridge/version.go.
--   Daemon/Version is buildInfo.
-- - internal/config/config.go. Config has the types of the configuration, Config/Defaults
--   applyDefaults and threePollIntervals, Config/Validate Validate, which answers with a Problem
--   for each of its returns, and Config/Files Load, Save and IsLoopbackAddr. time.ParseDuration,
--   Duration.String, url.Parse, package net and the YAML library are parameters.
-- - internal/atomicfile. AtomicFile is Write with pathFree and syncDir, over Disk: the files and
--   the calls of package os, each of which may fail or be the last before a crash of the machine.
--   Config/Files and GoogleAuth write their files by it.
-- - internal/googleauth/googleauth.go. GoogleAuth/Tokens reads and writes the token file,
--   GoogleAuth/Source is persistingTokenSource, GoogleAuth/Client is Client with loadOAuthConfig,
--   GoogleAuth/Authorize is Authorize from the pasted line on, and GoogleAuth/Interactive the whole
--   of it. internal/googleauth/perms.go. GoogleAuth/Perms is checkSecretPerms. oauth2 and the JSON
--   of tokens are parameters.
-- - internal/webui/server.go and handlers.go. WebUi/Http has requests, responses and the world of
--   the handlers, WebUi/Guards authMiddleware and csrfGuard, WebUi/Handlers the handlers of the
--   API, which load and save the configuration by Config/Files, and WebUi/Server New, Handler and
--   the page.
-- - internal/webhook/receiver.go. Webhook/Receiver is ServeHTTP and Webhook/Debouncer the
--   debouncer, which Webhook/Quiet puts among timers. internal/webhook/manager.go. Webhook/Manager
--   registers, renews and stops the watch channels of a watcher, with its loop Run, and
--   Webhook/Ledger counts the channels, which Webhook/Held sets against those that are live at the
--   provider. internal/webhook/google_watcher.go. Webhook/GoogleWatcher
--   is the watcher on the Calendar API.
-- - internal/metrics/metrics.go. Metrics is the registry with New and Observe, Metrics/Text is
--   writeTo with the text format, and Metrics/Ready has the answers of the health probes.
--   Metrics/Scraper is a reader of the format, which the program does not have.
--
-- Base has the shared helpers: Boolean tests, association lists for maps (Base/Dict), integers over
-- the native numbers with the wrap of int64 (Base/Int), lists. Effect has the results of calls and
-- the monad of calls on a world.
--
-- The world W of a client, provider or engine is a type parameter that holds whatever calls can see
-- and change: the calendars, the clock, the context, the random numbers. A theorem about any world
-- and any client is about every behaviour of the calendar API, errors included; where it relies on
-- the API, a hypothesis on the client says so. A pair (value, error) of the source is a Result.
-- Maps that are shared in the source, the indexes of a pass, are handed on from one step to the
-- next.
--
-- Loops over lists are recursion on the list. The loops of UpdateBlock and DeleteBlock have two
-- attempts, and are recursion on that number; the retry loop is recursion on the number of rounds
-- left, max 1 MaxAttempts at first. The page loops of googleCalendarClient run as long as the API
-- names a next page; they take a bound on the pages, and give what the source gives if the API ends
-- within it (Pages). Times and durations are whole numbers of nanoseconds; the lookahead wraps as
-- an int64 does. The backoff ceiling is exact where the source computes it in float64, and the
-- durations of the metrics are nanoseconds, not float64 seconds.
--
-- A crash loses the directory entries since the last sync of the directory, or keeps them, and may
-- put anything into a file that was not synced (Disk.Survives). The calls on files take what
-- becomes of them from a list of events in the machine; those after its end work. Opening a
-- file and reading it are two calls for a token, and one for os.ReadFile, where both fail in the
-- same way.
--
-- Not modelled: logging and text on stderr; the fields of wire events that the program only carries
-- along, of which description and location stand for all; the embedded page; package flag, signals
-- and HTTP servers; and the help texts.
pub mod AtomicFile
pub mod Base
pub mod Calendar
pub mod Client
pub mod Config
pub mod Daemon
pub mod Disk
pub mod Effect
pub mod Engine
pub mod Fault
pub mod GoogleApi
pub mod GoogleAuth
pub mod Metrics
pub mod Provider
pub mod Retry
pub mod Stack
pub mod Tests
pub mod WebUi
pub mod Webhook
