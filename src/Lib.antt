-- ===== src/Lib.antt =====
-- AudioBlock backend: a model of the parts of the server that carry its own logic, and what holds
-- of them.
--
-- The program follows the contracts of a music platform on the Stellar network. A worker polls the
-- RPC server for each contract, decodes the events, buffers them in a bounded queue and writes them
-- in batches to the table of raw events; a projector replays that table into read models. Beside
-- these stand the services of the HTTP API: sessions that rotate refresh tokens, a queue of
-- background jobs with retries, the collaborators of songs with their shares and the royalty payouts
-- that split by them, the playlists of listeners, the webhooks that tell artists of an event, the
-- subscriptions with their trials, the API keys, and a circuit breaker in front of the database.
--
-- The files and the code:
--   Base             shared names: Boolean tests, lists, texts, tables with a key
--   Indexer.Queue    src/workers/indexer/BoundedEventQueue.ts
--   Indexer.Guard    src/services/Soroban/IndexerReorgGuard.ts
--   Indexer.Events   src/services/IndexedEventService.ts, src/entities/IndexedEvent.ts
--   Indexer.Cursors  src/services/IndexerService.ts
--   Indexer.Reader   src/services/Soroban/SorobanEventReader.ts (fetchEvents)
--   Indexer.Backfill src/services/Soroban/BackfillService.ts, and fetchAllInRange of the reader
--   Indexer.Worker   src/workers/indexer/IndexerWorker.ts (flushQueue, persistProgress)
--   Indexer.Worker.Poll  the same file (pollOnce, pollInitialPage, drainPages)
--   Projector        src/services/EventProjector.ts and its interface of projections
--   Projector.Counts src/services/projections/OnChainEventCountProjection.ts
--   Tokens           src/services/RefreshTokenService.ts
--   Jobs             src/services/JobQueueService.ts, src/workers/JobQueueWorker.ts
--   Collaborators    src/services/CollaborationService.ts, src/entities/SongCollaborator.ts
--   Royalty          src/services/RoyaltyPayoutService.ts, src/entities/RoyaltyPayout.ts
--   Pages            the pages that a query with skip and take gives
--   Playlists        src/services/PlaylistService.ts, src/entities/Playlist.ts, PlaylistSong.ts and
--                    PlaylistCollaborator.ts: the tables, the rules of access
--   Playlists.Songs  the same service: songs added, removed, moved and put in a new order
--   Playlists.Sharing  the same service: follows, collaborators, visibility
--   Playlists.Calls  the calls as one type, and a run of them in any order by any users
--   Webhooks         src/services/WebhookService.ts, src/entities/WebhookSubscription.ts and
--                    WebhookDelivery.ts
--   Subscriptions    src/services/SubscriptionService.ts, src/entities/Subscription.ts
--   ApiKeys          src/services/ApiKeyService.ts, src/utils/apiKeyCrypto.ts, src/entities/ApiKey.ts,
--                    src/types/Permissions.ts
--   Circuit          src/utils/circuitBreaker.ts
--   Tests            runs at concrete inputs
--
-- A function keeps the name of the method that it models, in snake case. A table is the list of
-- its rows; a call that throws gives `none`, or the state that it leaves behind where it catches
-- the error. Where a caller sees which error was thrown, as with playlists, the call gives an
-- `Outcome`, and `Ensures P` says that its value has `P` where it does not throw. The time, random
-- tokens, the answers of the RPC server and those of the database to the saves of events, of the
-- cursor of a page and of webhooks are arguments, so that a theorem holds for all of them; the
-- other saves, such as that of a cursor that is new, are taken to succeed. Dates are numbers of
-- milliseconds; shares are whole hundredths of a percent. Ledger numbers and counters are natural
-- numbers: the entities declare them as JavaScript numbers, far below 2^53, although the Postgres
-- driver returns bigint columns as strings. A completed job's record expires in a step of its own,
-- since Redis drops it after its time to live; Redis's pop of several lists with a timeout is
-- taken as documented. A call through the circuit breaker is one step, so that timers and health
-- checks come before it or behind it.
--
-- Loops run on fuel and return `none` where it is used up. `flush_queue` takes the length of the
-- queue, since each round takes an item. A drain of pages needs one more round than there are
-- cursors that the server can give, since the source follows none twice; `apply_batches` needs one
-- more than there are rows, since a batch that is not full is the last. A delivery of a webhook is
-- tried three times at most, so its loop recurs on the tries that are left. A backfill needs more
-- than the last ledger, since each page moves its start on. The theorems on these loops state that
-- they return.
--
-- Not modelled: the log and the metrics, the timers that start a cycle, failures of the reads of the
-- database, a stop of the worker in the middle of a page, deliveries of two events at the same time,
-- the playlists that a language model suggests, and the parts that the components call but
-- that hold no logic of their own (the RPC client, TypeORM, the HTTP framework).
pub mod ApiKeys
pub mod Base
pub mod Circuit
pub mod Collaborators
pub mod Indexer
pub mod Jobs
pub mod Pages
pub mod Playlists
pub mod Projector
pub mod Royalty
pub mod Subscriptions
pub mod Tests
pub mod Tokens
pub mod Webhooks
