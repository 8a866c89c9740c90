-- ===== src/Lib.antt =====
-- The backend of a prediction market: it mirrors the chain into a database, relays transactions
-- that users signed, keeps their sessions, and serves the shielded pool. The model is a shallow
-- embedding of the services in src/ of the repository.
--
-- Shared: Prelude (numbers, texts, results, Boolean tests with their lemmas, and integers in
-- Prelude/Int) and Store, the interface of a database table (prisma/schema.prisma) that every
-- stateful part is written against: what findUnique reads after a write or an updateMany.
-- Store/Functions implements it by functions; the tests run on that.
--
-- The parts:
--
-- - Events is src/chain/event-processor.service.ts: Events/Data and Events/Rows are the decoded
--   logs (src/chain/abis.ts) and the rows, Events/State the tables, caches and messages (marketRef,
--   publish), Events/Trades onTrade, insertTrade and updatePosition, Events/Shorts onShort,
--   Events/Lifecycle onResolved, onInvalidated, onRedeem and onSeedRedeemed, Events/Resolution the
--   bonded resolution, Events/Bans the ban list, Events/Creation createMarket and
--   onMetadataPublished, Events/Prices the price refresh with recordPoint of
--   src/prices/prices.service.ts, Events/Batch apply and processBatch. A handler takes the state to
--   a Run: done, or threw with what it had written.
-- - Admin/Metadata is src/admin/metadata-hash.ts, which Events/Creation calls.
-- - Chain is src/chain/indexer.service.ts: Chain/Plan splits the span, Chain/Order sorts the logs,
--   Chain/Indexer is tick and loop over any processor of batches, so that it does not depend on
--   Events beyond the type of a log; Chain/Indexer/Delivered and Complete are about the logs that a
--   run of ticks hands to it.
-- - Relay is src/relay/relay.service.ts: Relay/Gas is gasFor, Relay/Reverts revertReason and
--   isTransportFailure, Relay/Submit submit, submitResolution, submitPermit and sendFromRelayer
--   with the account rate and the daily cap, Relay/Wiring the boot with verifyWiring and
--   verifyResolutionWiring, on fuel of one call and five retries, which is what the code tries, and
--   Relay/Gauge publicState, gauge and cachedBalance with the read in flight that a burst of calls
--   shares. Relay/Settlement is src/relay/settlement.service.ts.
-- - Auth/Tokens is src/auth/auth-tokens.service.ts, Auth/Siwe src/auth/siwe.service.ts and
--   Auth/Login src/auth/auth.service.ts with normalizeAddress of src/common/utils/address.ts;
--   nonces are keys with a lifetime (Store/Expiring), and the database's reads and writes of a user
--   by its address are arguments.
-- - Admin/Access is src/admin/admin-access.service.ts with src/admin/roles.ts: roles read from the
--   contracts, through a cache of 30 seconds.
-- - Admin/Drafts is createDraft, listDrafts and upsertCategory of src/admin/admin.service.ts; its
--   operationsQueue is Markets/Queue.
-- - Markets/View is src/markets/market.serializer.ts, Markets/Positions markToMarket and serialize
--   of src/positions/positions.service.ts.
-- - Config is the guards of validateEnv in src/config/env.validation.ts, and the relay's getter of
--   src/config/app-config.service.ts, from which Relay/Wiring boots; Config/Served puts the
--   environment, the boot and a submission together.
-- - Users is src/users/users.service.ts, and Users/Identity src/unlink/unlink-identity.service.ts.
-- - Pool is src/pool: Pool/Leaves and Pool/Indexer are toLeaf and tick of pool-indexer.service.ts,
--   Pool/Trees is pool.tree.ts, Pool/Withdrawals is withdraw, publishAspRoot and shield of
--   pool.service.ts, Pool/State is state and scope, and Pool/Interleaved the same withdrawals
--   running concurrently, as steps between their awaits.
--
-- Time, randomness and what a node, a wallet, a JWT library, a hash or the Merkle tree package
-- answers are arguments of the operations. A market row is named by its engine address and market
-- id, which are unique, in place of the generated id. Numbers are unbounded, as the source's bigint
-- and Decimal columns are, and whether the text of a Decimal is plain digits, which BigInt takes,
-- is an argument of Events; a column that the source may take below zero is an integer. Loops are
-- structural recursion; the one bound, the number of ranges in a plan, is the source's own. The
-- walk over the causes of an error stops after eight, as in the source.
--
-- Not modelled: controllers, modules, validation of requests, configuration, the RPC and Redis
-- clients, realtime delivery, read-only queries, and the expiry of Redis counters. Concurrency is
-- modelled for the withdrawals of the pool and for the reads of the relay's balance, as steps in
-- any order; elsewhere a call ends before the next begins, and the nonce queue of the relay
-- (enqueue) is not modelled.
mod Prelude
pub mod Store
pub mod Users
pub mod Markets
pub mod Config
pub mod Events
pub mod Admin
pub mod Chain
pub mod Relay
pub mod Auth
pub mod Pool
