-- ===== src/Web.antt =====
-- packages/plugin-tools-web/src/index.ts: which hosts the web tools may reach (Address, Policy), and
-- `web_fetch` with its redirects (Fetch). URL parsing, `isIP`, `toLowerCase`, the resolver and the
-- fetcher are parameters.
pub mod Address
pub mod Blocks
pub mod Mapped
pub mod Policy
pub mod Fetch
pub mod Cleared
pub mod Redirects
