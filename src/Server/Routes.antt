-- ===== src/Server/Routes.antt =====
-- The routes of NewServer, in internal/server/server.go, but for the profiler's.
use go_metrics_harvester.Base.{ℕ, String, Option, List, [], ◌∷◌, ◌++◌}
use go_metrics_harvester.Metric.{Strconv}
use go_metrics_harvester.Service.{Repository}
use go_metrics_harvester.Http.{Handler, Middleware, Net}
use go_metrics_harvester.Crypto.{Rsa}
use go_metrics_harvester.Middleware.{combine}
use go_metrics_harvester.Middleware.Hash.{Signing, with_hash}
use go_metrics_harvester.Middleware.Gzip.{Gzip, with_gzip}
use go_metrics_harvester.Middleware.Logging.{with_logging}
use go_metrics_harvester.Middleware.Subnet.{Addresses, with_trusted_subnets}
use go_metrics_harvester.Middleware.Decrypt.{Pem, with_decrypt}
use go_metrics_harvester.Server.{
  Web, ping_db_handler, list_metric_handler, get_metric_handler_json, update_handler_json,
  get_metric_handler, update_handler, updates_handler_json,
}

-- The patterns that the router knows.
pub data Route : Type 0 where
  root ping update updates value value_path update_path : Route

-- What the middlewares take from the libraries.
pub record Libraries : Type 1 where
  pub net : Net
  pub signing : Signing
  pub gzip : Gzip
  pub addresses : Addresses
  pub rsa : Rsa
  pub pem : Pem rsa

-- What NewServer takes of the configuration: `private_key` is the text of the file that CryptoKey names, if it names one.
pub record Settings : Type 0 where
  pub key : String
  pub trusted_subnet : String
  pub private_key : Option (List ℕ)
  pub store_interval : ℕ

module _ (l : Libraries) (cfg : Settings) where
  abbrev pub mdw : {S : Type 0} → List (Middleware S)
  mdw = with_hash l.net l.signing cfg.key ∷ with_gzip l.gzip ∷ with_logging ∷ []

  abbrev pub updates_mdw : {S : Type 0} → List (Middleware S)
  updates_mdw =
      mdw
      ++ with_trusted_subnets l.addresses l.net cfg.trusted_subnet
        ∷ with_decrypt l.net l.rsa l.pem cfg.private_key
        ∷ []

  unfoldable pub handle :
      {F W : Type 0} (web : Web F) (conv : Strconv F) (storage : Repository F W)
      → Route
      → Handler storage.State
  unfolding combine
  handle web conv storage root = combine (list_metric_handler l.net web conv storage) mdw
  handle web conv storage ping = with_logging (ping_db_handler l.net web conv storage)
  handle web conv storage update =
      combine (update_handler_json l.net web conv storage cfg.store_interval) mdw
  handle web conv storage updates =
      combine (updates_handler_json l.net web conv storage) updates_mdw
  handle web conv storage value = combine (get_metric_handler_json l.net web conv storage) mdw
  handle web conv storage value_path = with_logging (get_metric_handler l.net web conv storage)
  handle web conv storage update_path = with_logging (update_handler l.net web conv storage)
