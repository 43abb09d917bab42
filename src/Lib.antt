-- ===== src/Lib.antt =====
-- A verification library for tenantkit, a Go library that keeps the tenants of one database apart.
--
-- A query goes through Database (DB and Tx of tenantkit/wrap.go). Interceptor (tenantkit/interceptor.go)
-- decides whether it is filtered: Detector (tenantkit/system_detector.go) lets system queries pass,
-- TenantContext (tenantkit/context.go, over Domain for domain/*.go) reads the tenant and the bypass flag,
-- Extractor (tenantkit/table_extractor.go, over Regexp) finds the tables. Engine (`injectTenantFilter` of
-- tenantkit/wrap.go) then rewrites it, behind QueryCache (tenantkit/query_cache.go): Inject has the four
-- injectors, Tables `extractAllTables` and `filterTenantTables`, Placeholder the counting, printing and
-- renumbering of placeholders.
--
-- The adapters stand beside that. Http has adapters/http-stdlib: Resolver the resolvers, Middleware the
-- middleware that puts the tenant in the context of a request, where Domain, and so TenantContext and the
-- adapters for SQL, find it, and RateLimit the middleware in front of a limiter. Limiter has
-- adapters/limiter-memory: FixedWindow, SlidingWindow, TokenBucket, and the facade in Memory. Quota has
-- adapters/quota-memory/quota_manager.go. Redis has adapters/quota-redis and adapters/limiter-redis, with
-- their Lua scripts. Enforcer has adapters/sql/enforcer.go, and Storage, which calls it, storage.go and
-- health_config.go (Settings, Handle) and transaction.go (Transaction) of adapters/sql. Sqlx has
-- adapters/sqlx. Functions keep the names of the source in snake case: `injectSelectFilter` is
-- `inject_select`, `AllowN` is `allow_n`.
--
-- Prelude, Text, Decimal, Assoc and Word model what the source uses of Go: lists, strings as lists of
-- bytes, strconv and Sscanf, maps as association lists, int64 with its wrap-around. Text changes the case
-- of ASCII letters and trims ASCII white space only. Regexp is a backtracking engine for the leftmost
-- match that package regexp gives. An operation that panics gives `panic`.
--
-- Inject.Flat and Inject.Shape say what the rewriting is for: which text is the condition of a statement,
-- and that the filter is a conjunct of it.
--
-- State is passed: an operation on a cache, a limiter or a quota manager takes it and returns the next one,
-- with its result. Locks are gone, so that a call is one step, and a call reads the clock once. The order
-- in which Go ranges over a map is an argument, any permutation. An argument of a query is a text or a
-- value that is known by a number. What the driver would receive stands for an execution.
--
-- Fuel: `joined_tables` gets one more than the length of its text, which suffices as each round drops a
-- keyword, and gives `none` where it does not; `match_at` gets one more than the length of the text, as
-- a repetition takes a byte; `show` gets the number plus one.
--
-- Parameters: what database/sql, sqlx, the handlers and the functions of a JWT do is an argument. Float
-- in Limiter.TokenBucket is float64, with laws of its order that IEEE arithmetic keeps, also for values
-- that are no number. Redis, with Structures of Redis.Limiter, is Redis: the commands that the code sends
-- and what their documentation says of them; Tests.Shared has one of association lists. A key expires
-- between calls only, so a sequence of calls is one before the expiry. The numbers of a Lua script are
-- doubles, whose rounding is part of Redis: exact up to 2^53, anything above.
--
-- Not modelled: logs; the sync pools of builders and argument slices, and with them that the arguments
-- which the injectors return stand in a slice of the pool that a concurrent call can overwrite; the hit
-- rate (a float); the adapters for third-party HTTP frameworks, gorm, PostgreSQL and metrics, most of
-- whose work is calls of those libraries; adapters/http-stdlib/timeout_config.go, which holds default
-- durations; and everything inside database/sql.
pub mod Prelude
pub mod Text
pub mod Decimal
pub mod Assoc
pub mod Placeholder
pub mod QueryCache
pub mod Tables
pub mod Inject
pub mod Engine
pub mod Domain
pub mod TenantContext
pub mod Detector
pub mod Regexp
pub mod Extractor
pub mod Interceptor
pub mod Database
pub mod Word
pub mod Limiter
pub mod Quota
pub mod Enforcer
pub mod Tests
pub mod Storage
pub mod Sqlx
pub mod Http
pub mod Redis
