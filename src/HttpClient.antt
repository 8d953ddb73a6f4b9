-- ===== src/HttpClient.antt =====
-- internal/httpclient/httpclient.go: Publish, which marshals, encrypts, compresses, signs and sends
-- a batch. Its realIP is that of the agent.
pub mod Delivery
pub mod Passage
pub mod Exchange
pub mod GeneratedKeys
pub mod Counted
use go_metrics_harvester.Base.{
  ℕ, suc, String, ◌⊎◌, inl, inr, Option, none, some, List, [], ◌∷◌, ◌++◌, ◌==◌, not, if◌then◌else◌,
  Error, wrap, Outcome, ok, err, panic, length,
}
use Prim.Native.String
use go_metrics_harvester.Base.Dict.{Dict, lookup}
use go_metrics_harvester.Metric.{Metric}
use go_metrics_harvester.Metric.Json.{Json}
use go_metrics_harvester.Retry.{do_fn}
use go_metrics_harvester.Crypto.{Rsa, encrypt}
use go_metrics_harvester.Http.{Net}
use go_metrics_harvester.Agent.Address.{Interface, real_ip}
use go_metrics_harvester.Middleware.Hash.{Signing, signature, hash_header_key}
use go_metrics_harvester.Middleware.Gzip.{Gzip, concat}

-- A POST as it is sent.
pub record Message : Type 0 where
  pub url : String
  pub headers : Dict String
  pub body : List ℕ

-- What the client takes from its libraries, `W` being the world that they change: http.NewRequest
-- and its error, the client's Do, net.Interfaces, time.Sleep, and the public key of a PEM block,
-- which is missing where it is no RSA key.
pub record Transport (rsa : Rsa) (W : Type 0) : Type 0 where
  pub new_request : String → Option Error
  pub send : Message → W → Option Error × W
  pub interfaces : W → Error ⊎ List Interface
  pub sleep : ℕ → W → W
  pub decode : List ℕ → Option (List ℕ)
  pub parse_public_key : List ℕ → Error ⊎ Option rsa.PublicKey

-- The fields of the client: `public_key` is missing where no file is configured.
pub record Client : Type 0 where
  pub address : String
  pub key : String
  pub public_key : Option (List ℕ)

-- compress. Writes to a buffer do not fail.
unfoldable pub compress : Gzip → List ℕ → List ℕ
compress gz buf =
    let (chunks, z) = gz.write_chunk gz.new_writer buf in
    concat chunks ++ concat (gz.close_writer z)

-- The headers that Publish adds, in its order.
unfoldable pub headers : Net → Signing → String → String → List ℕ → Dict String
headers net g key addr buf =
    let plain =
      ("Content-Type", "application/json")
      ∷ ("Accept-Encoding", "gzip")
      ∷ ("Content-Encoding", "gzip")
      ∷ ("X-Real-IP", addr)
      ∷ [] in
    if not (key == "") then plain ++ (hash_header_key, signature net g key buf) ∷ [] else plain

module _ {W : Type 0} (net : Net) (g : Signing) (rsa : Rsa) (t : Transport rsa W) (c : Client) where
  abbrev pub message : String → List ℕ → Message
  message addr buf = record {
    url = String.◌++◌ c.address "/updates/";
    headers = headers net g c.key addr buf;
    body = buf;
  }

  abbrev pub sent : Option Error × W → Option Error × W
  sent (none, w) = (none, w)
  sent (some e, w) = (some (wrap "send request" e), w)

  abbrev addressed : List ℕ → W → Error ⊎ String → Option Error × W
  addressed buf w (inl e) = (some (wrap "get ip address" e), w)
  addressed buf w (inr addr) = sent (t.send (message addr buf) w)

  -- The function that is retried. The reply's status is not read.
  unfoldable pub attempt : List ℕ → W → Option Error × W
  unfolding headers
  attempt buf w = elim (t.new_request (String.◌++◌ c.address "/updates/")) [
    | some e ↦ (some (wrap "new request" e), w)
    | none ↦ addressed buf w (real_ip (t.interfaces w))
  ]

  abbrev pub encrypted :
      Option (Outcome (List ℕ) × rsa.Random) → Option (Outcome (List ℕ) × rsa.Random)
  encrypted (some (err e, r)) = some (err (wrap "encrypt body" e), r)
  encrypted o = o

  abbrev under_key :
      List ℕ → rsa.Random → Error ⊎ Option rsa.PublicKey → Option (Outcome (List ℕ) × rsa.Random)
  under_key buf r (inl e) = some (err (wrap "parse public key" e), r)
  under_key buf r (inr none) = some (panic, r)
  under_key buf r (inr (some public)) = encrypted (encrypt rsa (suc (length buf)) public buf [] r)

  abbrev under_block :
      List ℕ → rsa.Random → Option (List ℕ) → Option (Outcome (List ℕ) × rsa.Random)
  under_block buf r none = some (panic, r)
  under_block buf r (some block) = under_key buf r (t.parse_public_key block)

  -- The encryption, `none` where it does not end.
  unfoldable pub seal :
      Option (List ℕ) → List ℕ → rsa.Random → Option (Outcome (List ℕ) × rsa.Random)
  seal none buf r = some (ok buf, r)
  seal (some key) buf r = under_block buf r (t.decode key)

  abbrev pub tried : rsa.Random → Option Error × W → Outcome (Unit {0}) × (rsa.Random × W)
  tried r (none, w) = (ok tt, (r, w))
  tried r (some e, w) = (err (wrap "error while publish" e), (r, w))

  abbrev sealed :
      Gzip
      → W
      → Option (Outcome (List ℕ) × rsa.Random)
      → Option (Outcome (Unit {0}) × (rsa.Random × W))
  sealed gz w (some (ok buf, r)) = some (tried r (do_fn (attempt (compress gz buf)) t.sleep w))
  sealed gz w (some (err e, r)) = some (err e, (r, w))
  sealed gz w (some (panic, r)) = some (panic, (r, w))
  sealed gz w none = none

  unfoldable pub publish :
      {F : Type 0}
      → Json F
      → Gzip
      → List (Metric F)
      → rsa.Random × W
      → Option (Outcome (Unit {0}) × (rsa.Random × W))
  unfolding seal attempt compress
  publish j gz m (r, w) = elim (j.encode m) [
    | inl e ↦ some (err (wrap "marshal" e), (r, w))
    | inr buf ↦ sealed gz w (seal c.public_key buf r)
  ]
