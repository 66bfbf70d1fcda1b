-- ===== src/Lib.antt =====
-- The core of xraytool: payments, prices, promo codes, referral rewards, subscription renewal, the
-- device limit, one-time codes, bans, traffic counters, the replication of a cluster from master to slaves,
-- and the order in which the host loads its plugins.
--
-- Parts, and the files that model them:
--   Prelude, Prelude/*   tests, lists, rows of tables, Go's 64-bit `int` (wrap-around written out)
--   GoLib                functions of Go's standard library, taken as a parameter
--   Result               errors as values
--   Transaction          gorm's statements and transactions, on a state of any type
--   Domain               internal/domain/models.go
--   PluginApi            the pricing contract of internal/pluginapi/pluginapi.go
--   Database, Database/* internal/database/repo_gorm.go and user_helpers.go, repository by repository
--   Pricing/Default      internal/plugins/pricing_default/plugin.go: CalculatePrice
--   Pricing/Legacy       internal/plugins/billing/service.go: the two price calculations
--   Billing/Settle       the same file: ProcessExternalPaymentStatus, UpdatePaymentStatus, ...
--   Billing/Create       the same file: CreatePayment
--   Referral             internal/plugins/referral/plugin.go: Handle
--   Lifecycle            internal/plugins/subscription_lifecycle/worker/expiry.go: handleExpiredBulk, handleWarnings
--   Otp, Otp/*           internal/plugins/api_server/server/auth_cache.go: the one-time codes
--   Antifraud, Antifraud/* internal/plugins/antifraud/state.go: the addresses that users are seen at
--   Antifraud/BanStore   internal/plugins/antifraud/module.go: the bans in memory and their sink
--   Antifraud/Enforcer   internal/plugins/antifraud/analyzer.go and module.go: handleEvent, tryUnban, recovery
--   BanCache, BanCache/* internal/pluginhost/bancache.go: the bans that an antifraud provider pushes
--   Replication/Frame    internal/plugins/cluster_replication/protocol/protocol.go
--   Replication/Tables   the rows of internal/plugins/cluster_replication/store.go, and its statements
--   Replication/Outbox   the same file: the journal, its acknowledgements and its pruning
--   Replication/Fraud    the same file: the queue of a slave's observations and the receipts of its master
--   Replication/Slave    the same file: a slave's inbox, metadata, desired users and snapshots
--   Replication/Apply    internal/plugins/cluster_replication/service.go: ApplyEvent
--   Replication/Ingest   internal/plugins/cluster_replication/transport.go: ingestFraudEvents
--   PluginHost/Graph     internal/pluginhost/host.go: Graph
--   PluginHost/Registry  internal/pluginhost/host.go: ServiceRegistry, publishDeclaredServices, scopedResolver.Resolve
--   Traffic, Traffic/*   internal/plugins/traffic_file/state.go: Update and Cumulative
--   Tests, Tests/*       a small database and the cases of the theorems
--
-- How they interact: a webhook or an administrator reports a status to the billing service, which runs
-- one transaction on the database, renews the subscription or credits the balance inside it, and then
-- dispatches "payment.completed"; the referral plugin handles that event with a transaction of its own.
-- CreatePayment asks the pricing engine, or its own older calculation, for the price, and redeems the
-- promo code inside the transaction that inserts the payment.
--
-- The expiry worker takes the subscriptions that have ended off the proxy engine, marks each and
-- announces it; before the end it sends the warnings that have come due and notes them in the database.
--
-- The cache of one-time codes and the cache of bans stand alone: the HTTP handlers request and verify
-- codes, the antifraud provider pushes bans, and the subscription handlers ask for them. A request and a
-- verification of a code take the mutex of the cache and that of an entry in turn: each critical section is
-- a step of Otp, an entry stays behind its pointer when it leaves the cache, and `Reach` is any
-- interleaving; `request_otp` and `verify_otp` are the calls with nothing in between. Each operation on
-- the bans holds its mutex and is one step; the question for a ban, which takes two locks,
-- has a parameter for the calls that run between them. The traffic counters are read from the engine,
-- which may restart and count from zero again; a map is a list of its pairs, whose order Go leaves open.
-- The frames are lists of bytes, and the varints of encoding/binary are a parameter with the laws that
-- its documentation states.
--
-- The database is the record `Db`: one list of rows for each table, in the order of the primary key,
-- and the next values of the automatic keys. A statement is a function from a database to an answer
-- and a database. `Faults` says which statements the driver refuses; a theorem that takes it holds for
-- every choice. A transaction (`WithTx`) keeps the database it started from when its body returns an
-- error or its end is refused. Transactions run one after the other: how the database engine keeps
-- concurrent ones apart is not part of the model. Timestamps that the
-- object mapper maintains by itself are not part of the model.
--
-- Row keys are naturals, instants are nanoseconds since the zero instant, `int` is an integer whose
-- arithmetic in the price calculations wraps to 64 bits. Each `time.Now()` of a function is a reading
-- of a `Clock`, numbered in the order of the text. A `float64` is its bit pattern, and its operations
-- are fields of `GoLib`. JSON metadata is an association list. A number in a JSON column comes back
-- as a `float64`.
--
-- A master writes the changes of the desired users to a journal and streams them to its slaves, which
-- acknowledge them; what all the allowed slaves have acknowledged is pruned. A slave queues the
-- observations of its anti-fraud plugin until the master acknowledges them; the master hands them to its
-- own provider and keeps a receipt of each. A slave applies an event to its engine and its
-- database and notes it in its inbox; a snapshot is staged row by row and activated at once. JSON,
-- Base64, SHA-256, the engine, the provider and uuid.New are parameters, and so is the writing of an
-- artifact to its files. The database of a node is a record of its own, with one list of rows for each table.
--
-- The anti-fraud module counts the addresses of each user in a window of time, bans who is over the
-- limit in the table of bans, in memory and in the engine, and pushes each decision to the cache of bans.
-- Its goroutines take turns: an observation, the end of a ban, an administrator's order and the recovery
-- after a start are each one step. The answers of the engine, of the repositories of subscriptions and
-- users, the HMAC of an address and the text of a reason are parameters, and logging is left out. The
-- table of bans has a unique index on the address, and is a map from addresses.
--
-- The host sorts the enabled plugins so that a plugin that publishes a service is loaded before those
-- that require it. Go's maps from names are functions there, and an error leaves out the names that its
-- text quotes. `sort.Slice` may leave equal names in any order; they are refused in the next step.
--
-- Definitions terminate by structural recursion, but for the loop of `Graph` (Kahn's algorithm), whose
-- fuel is the number of the enabled plugins: every round takes another of them.
--
-- Not modelled: HTTP handlers, RPC and plugin processes, proxy engines, configuration files, logging,
-- the queue of the event dispatcher, and the parts of the repositories that only list rows. SQL, the
-- object mapper and the drivers are not code of the repository: the model has the effect of each
-- statement as the code writes it.
pub mod Antifraud
pub mod BanCache
pub mod Billing
pub mod Database
pub mod Domain
pub mod GoLib
pub mod Lifecycle
pub mod Otp
pub mod PluginApi
pub mod PluginHost
pub mod Prelude
pub mod Pricing
pub mod Referral
pub mod Replication
pub mod Result
pub mod Tests
pub mod Traffic
pub mod Transaction
