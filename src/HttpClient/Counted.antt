-- ===== src/HttpClient/Counted.antt =====
-- PollCount from the agent's map through Publish and the server's route to the storage.
use go_metrics_harvester.Base.{
  ℕ, ◌+◌, ◌%◌, ◌<◌, String, ◌≡◌, ◌⊎◌, inr, refl, ap, ◌∙◌, Option, none, some, List, [], ◌∷◌,
  Outcome, ok, err, panic, All, arith, length,
}
use mathlib.Core.List.{Permᴰ}
use go_metrics_harvester.Base.Dict.{Dict, values}
use go_metrics_harvester.Metric.{Metric, Strconv, int64_mod}
use go_metrics_harvester.Metric.Json.{Json}
use go_metrics_harvester.Memory
use go_metrics_harvester.Memory.{Storage}
use go_metrics_harvester.Memory.Totals.{total, last_value, with_data, get-update}
use go_metrics_harvester.Memory.Typed.{IsTypedStore}
use go_metrics_harvester.Middleware.Subnet.{InSubnet}
use go_metrics_harvester.Agent.Address.{real_ip}
use go_metrics_harvester.Agent.Counts.{
  agent_types, IsReport, repository, publish_metrics-eq, batch-IsAccepted,
}
use go_metrics_harvester.HttpClient.{Transport, Client, seal, publish}
use go_metrics_harvester.HttpClient.Exchange.{IsConnected, crashes, publish-update}
use go_metrics_harvester.Server.{Web}
use go_metrics_harvester.Server.Routes.{Libraries, Settings}

module _ {F : Type 0} (W : Type 0) (visit stored : List (Metric F) → List (Metric F))
    (json : Json F) (l : Libraries) (web : Web F) (conv : Strconv F)
    (t : Transport l.rsa (Storage F)) (c : Client) (cfg : Settings) where
  -- What follows a call of Publish that returned no error.
  abbrev behind :
      (l.rsa.Random × Storage F → Option (l.rsa.Random × Storage F))
      → Option (Outcome (Unit {0}) × (l.rsa.Random × Storage F))
      → Option (l.rsa.Random × Storage F)
  behind k (some (ok _, p)) = k p
  behind k (some (err e, p)) = none
  behind k (some (panic, p)) = none
  behind k none = none

  -- Publish with the values of one map after the other, up to the first error: the reports of an
  -- agent, in the order of their calls.
  unfoldable pub publish_all :
      List (Dict (Metric F)) → l.rsa.Random × Storage F → Option (l.rsa.Random × Storage F)
  publish_all [] p = some p
  publish_all (d ∷ ds) p =
      behind (publish_all ds) (publish l.net l.signing l.rsa t c json l.gzip (visit (values d)) p)

  -- The text of a batch, which the server decodes to the batch.
  pub record IsReadable (m : List (Metric F)) : Type 0 where
    pub text : List ℕ
    pub encoded : json.encode m ≡ inr text
    pub decoded : web.decode_list (inr text) ≡ inr m

  publish_report :
      (d : Dict (Metric F)) (s : Storage F) (r : l.rsa.Random) (addr : String)
      → ((l : List (Metric F)) → Permᴰ l (visit l))
      → IsConnected l web conv (repository W visit stored json) t c cfg
      → c.public_key ≡ none
      → (cfg.trusted_subnet ≡ "") ⊎ InSubnet l.addresses cfg.trusted_subnet addr
      → real_ip (t.interfaces s) ≡ inr addr
      → IsReport d
      → IsReadable (visit (values d))
      → (Memory.update (visit (values d)) s).0 ≡ ok tt
      → publish l.net l.signing l.rsa t c json l.gzip (visit (values d)) (r, s)
        ≡ some (ok tt, (r, (Memory.update (visit (values d)) s).1))
  unfolding seal
  publish_report d s r addr shuffles con plain inside ip report readable done =
      publish-update l web conv (repository W visit stored json) t c cfg json (visit (values d)) s
        readable.text readable.text r r addr con inside ip readable.encoded readable.decoded
        (batch-IsAccepted W visit stored json d s shuffles report) (ap crashes done)
        (ap (λ k. seal l.net l.signing l.rsa t c k readable.text r) plain)

  -- Between a client without encryption and a server over the memory storage that are connected, from
  -- an address that the trusted subnet covers if one is configured, any number of reports whose texts
  -- the server decodes are all published without an error, and each adds 1 to the server's counter
  -- PollCount, modulo 2 ^ 64, whatever polls their maps come from and in whatever order they are
  -- visited, where some poll had filled each map and the storage keeps the agent's type for each name.
  pub get-publish_all :
      (ds : List (Dict (Metric F))) (v : Metric F) (n : ℕ) (o : Option F) (s : Storage F)
      (r : l.rsa.Random) (addr : String)
      → ((m : List (Metric F)) → Permᴰ m (visit m))
      → IsConnected l web conv (repository W visit stored json) t c cfg
      → c.public_key ≡ none
      → (cfg.trusted_subnet ≡ "") ⊎ InSubnet l.addresses cfg.trusted_subnet addr
      → ((s' : Storage F) → real_ip (t.interfaces s') ≡ inr addr)
      → All IsReport ds
      → All (λ d. IsReadable (visit (values d))) ds
      → IsTypedStore agent_types s
      → n < int64_mod
      → Memory.get "PollCount" s ≡ some (with_data v n o)
      → (o' : Option F) × (s' : Storage F) × (publish_all ds (r, s) ≡ some (r, s'))
        × (Memory.get "PollCount" s' ≡ some (with_data v ((n + length ds) % int64_mod) o'))
  unfolding publish_all
  get-publish_all [] v n o s r addr shuffles con plain inside ip reports readable typed lt e =
      (o, s, refl, e ∙ ap (λ k. some (with_data v k o)) (omega arith))
  get-publish_all (d ∷ ds) v n o s r addr shuffles con plain inside ip (report, reports)
        (readable, rest) typed lt e =
      let m : List (Metric F) = visit (values d) in
      let (_, done, typed', one) =
        publish_metrics-eq W visit stored json d s shuffles report typed in
      let first = publish_report d s r addr shuffles con plain inside (ip s) report readable done in
      let (o', s', run, held) =
        get-publish_all ds v ((n + total "PollCount" m) % int64_mod) (last_value "PollCount" m o)
          (Memory.update m s).1 r addr shuffles con plain inside ip reports rest typed'
          (omega arith) (get-update m v n o "PollCount" s lt e done) in
      (
        o',
        s',
        ap (behind (publish_all ds)) first ∙ run,
        held ∙ ap (λ k. some (with_data v k o')) (omega arith),
      )
