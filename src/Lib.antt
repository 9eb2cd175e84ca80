-- ===== src/Lib.antt =====
-- DataNexus: the extract service (extract_service/). An application asks over HTTP for an extract of
-- fund data; a worker extracts the funds one by one, stages their files, publishes them at once and
-- notifies by an event or a webhook; a sweeper warns of the expiry and removes what is expired.
--
-- The parts, and how they interact. The handlers of extract_service/main.py check a request against
-- extract_service/auth.py, store it with extract_service/storage.py and put a job on the queue of
-- extract_service/worker.py. The worker writes files to extract_service/object_store.py, stores the
-- outcome, and publishes on extract_service/event_bus.py or schedules a webhook of
-- extract_service/webhooks.py, which also holds the sweeper.
--
-- Files. A class becomes a record, its methods functions on it, and module Service holds the state
-- that the parts share.
--   Models (Enums, Request, Events): the enumerations, request models with their validators, and
--     event schemas of extract_service/models.py.
--   Config, Errors, Domains, Metrics: the modules of these names in extract_service. Metrics.Summary and
--     Metrics.Snapshot have `Histogram.snapshot`, `Metrics.snapshot` and the rules of
--     extract_service/alerts.py; Metrics.Quantiles has the theorem on the first.
--   Prelude: shared helpers. Prelude.Strip, Numbers, Decimals and Splitting have `strip`, `str`, `int`
--     and `split` of Python, with the lemmas on reading back what was printed.
--   Exec: operations that change a state and may raise; what was written before a raise stays, as
--     each storage call commits its own transaction.
--   Storage (Rows, Apps, Extracts, Listing): the tables of class `Storage` as lists of rows, a query or an
--     update as one function. Storage.Lookup has lemmas on them.
--   EventBus (Log, Delivery): class `EventBus`, generic in events and handlers. Numbering, Retries,
--     Consumption and Gaps have its theorems.
--   Platform: formatting of instants, hashes, compression and serialisers, which the source takes
--     from outside: parameters. The theorems on tokens ask that the digests of `hmac` are hexadecimal
--     texts, and one that two digests do not collide; nothing else is asked of them.
--   ObjectStore.Files: class `ObjectStore`, the file system as the list of its prefixes, and a
--     rename as one step. ObjectStore.Publishing has its theorems.
--   ObjectStore.Tokens: `sign` and `verify`, on texts as they are sent. ObjectStore.Signing has their
--     theorems.
--   Service: the queue and flags of class `Worker`, the webhook queue, and the whole state.
--   Worker (Queue, Funds, Notify, Finalize, Process): class `Worker`, `_process` included. What other
--     tasks do during a sleep is a schedule of functions on the service, one per sleep; theorems
--     name what they ask of it. Priorities, Accounts, Written, Publication, Outcome, Terminal
--     and Races have its theorems; Marks has lemmas on a cancellation that arrives in a wait.
--   Auth (Principals, Limiter): extract_service/auth.py. Windows, Scope and Identity have its
--     theorems.
--   Webhooks (Delivery, Sweeper): the attempts of class `WebhookDelivery`, where the receiver is a
--     function from the request and the number of the attempt, and `RetentionSweeper.run_once`.
--     Attempts, Signed, Rounds and Retention have its theorems.
--   Api (Create, Cancel, Status, Listing, Files): the handlers `create_extract`, `cancel_extract`,
--     `get_extract_status`, `list_extracts`, with Storage.Listing for its query, `list_files` and
--     `download_file`. Idempotency, Replay, Cap, Cancelling, Reported, Pages, FilesListed and
--     Downloads have its theorems.
--   Startup: `_seed_demo_tenants` of extract_service/main.py. Startup.Restart has its theorem.
--   Logging: extract_service/logging_config.py, over any type of Python values, and
--     `context_middleware` of extract_service/main.py. Logging.Correlation has its theorem, which asks
--     that a text is not `None`, and is true unless it is empty.
--   Consumer.Handler: the handler of consumer_example/consumer.py, with the answers of the HTTP client
--     as a parameter. Consumer.Once has its theorems.
--   Lifecycle: the diagram of the statuses as an abstract specification (Diagram), what holds of the
--     extracts and the queue between two steps (Board), and the handlers, the worker and the sweeper
--     against it (Adding, Handlers, Reads, Running, Working, Sweeping, Refinement). A round of the
--     worker may contain any tasks at each of its waits; the round of another worker falls within
--     one wait.
--   Tests: concrete services, and the theorems at them.
--
-- Bounds and fuel. Every loop of the source that is modelled has a bound of its own: the attempts of
-- a fund and of a webhook count down from the settings, the deliveries of an event from five, and
-- the other loops run over a list. So nothing runs out of fuel. Instants are whole seconds, the rate
-- limiter's microseconds, on natural numbers: a subtraction that stops at 0 differs from the source
-- only within the first hours of 1970.
--
-- An expiry outside the calendar of Python, before the year 1 or after the year 9999, raises, and one
-- before 1970 counts as 1970; other instants are taken to lie in the calendar. The clock moves at
-- the waits of a task only, so two readings between two waits are equal; no result relies on the
-- manifest and the row having one expiry.
--
-- Not modelled: the texts of cursors, other response headers, the FastAPI set-up, sqlite's
-- connections, and the start and stop of tasks. The length of a backoff sleep
-- changes no state. Who waits on a paused bus is taken to go on, where the source would wait until
-- it stores the event: in the worker only metrics follow, and for the sweeper the bus is available.
-- A request reaches a handler validated as Models.Request says. Whether a partition is written is
-- asked of the platform, at each attempt; the manifest and the marker are taken to be written, and
-- files to be in their directory. The bounds of a list of extracts are instants,
-- where the source compares texts, which agrees for datetimes in UTC to the second. The queue of
-- asyncio is a list in the order of its jobs, as the standard library says.
pub mod Prelude
pub mod Models
pub mod Config
pub mod Errors
pub mod Domains
pub mod Exec
pub mod Metrics
pub mod Storage
pub mod EventBus
pub mod Platform
pub mod ObjectStore
pub mod Service
pub mod Startup
pub mod Worker
pub mod Auth
pub mod Webhooks
pub mod Api
pub mod Consumer
pub mod Lifecycle
pub mod Logging
pub mod Tests
