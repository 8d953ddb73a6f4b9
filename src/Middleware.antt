-- ===== src/Middleware.antt =====
-- internal/middleware/middleware.go: a handler inside a row of middlewares, the first outermost.
pub mod Subnet
pub mod Hash
pub mod Gzip
pub mod Logging
pub mod Decrypt
use go_metrics_harvester.Base.{List, [], ◌∷◌}
use go_metrics_harvester.Http.{Handler, Middleware}

unfoldable pub combine : {S : Type 0} → Handler S → List (Middleware S) → Handler S
combine h [] = h
combine h (m ∷ rest) = m (combine h rest)
