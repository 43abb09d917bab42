-- ===== src/Http.antt =====
-- The HTTP adapter of net/http (adapters/http-stdlib): the resolvers, and the middleware for tenants
-- and for rate limits. A handler is a function of the request that it is given.
pub mod Resolver
pub mod Middleware
pub mod RateLimit
use tenantkit.Domain.{GoContext}
use tenantkit.Text.{Bytes}

-- The parts of *http.Request that the adapter reads; `header` is Header.Get, "" where there is none.
pub record Request : Type 0 where
  pub host : Bytes
  pub header : Bytes → Bytes
  pub path : Bytes
  pub remote_addr : Bytes
  pub ctx : GoContext
