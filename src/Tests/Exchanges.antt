-- ===== src/Tests/Exchanges.antt =====
-- A client that publishes one counter, encrypted, to a server over the memory storage.
use go_metrics_harvester.Base.{
  ℕ, eq_iff, ok_inj, All, panic, wrap, false, ◌%◌, ◌≡◌, ◌⊎◌, inl, inr, refl, none, some, List, [],
  ◌∷◌, Error, ok, other, err, ◌+◌, ◌/◌, Outcome, sym, ap, Option, arith,
}
use mathlib.Core.List.{reverse}
use go_metrics_harvester.Metric.{Metric}
use go_metrics_harvester.Service.{Repository}
use go_metrics_harvester.Service.Rules.{IsAccepted}
use go_metrics_harvester.Service.InMemory.{memory}
use go_metrics_harvester.Http.{Body, Request}
use go_metrics_harvester.Crypto.{Rsa, encrypt, loop}
use go_metrics_harvester.Crypto.Certificate.{Keys, generate_cert}
use go_metrics_harvester.Base.Dict.{values, lookup, assign}
use go_metrics_harvester.Metric.{counter, int64_mod}
use go_metrics_harvester.Metric.Json.{Json}
use go_metrics_harvester.Memory
use go_metrics_harvester.Memory.{Storage}
use go_metrics_harvester.Agent.{count_metric}
use go_metrics_harvester.Agent.Counts.{repository as reported}
use go_metrics_harvester.HttpClient.Counted.{IsReadable, publish_all, get-publish_all}
use go_metrics_harvester.HttpClient.GeneratedKeys.{Matches, with_decrypt-generate_cert}
use go_metrics_harvester.Middleware.Decrypt.{with_decrypt}
use go_metrics_harvester.Middleware.Subnet.{InSubnet}
use go_metrics_harvester.HttpClient.{Message, Transport, Client, seal, publish}
use go_metrics_harvester.HttpClient.Delivery.{header_of}
use go_metrics_harvester.HttpClient.Passage.{keyed, unkeyed}
use go_metrics_harvester.HttpClient.Exchange.{
  IsConnected, crashes, delivered, publish-update, publish-update_panics,
}
use go_metrics_harvester.Server.{Web}
use go_metrics_harvester.Server.Routes.{Libraries, Settings, handle, updates}
use go_metrics_harvester.Tests.Samples.{
  reverse-Permᴰ, pad, count_of, gauge_of, both, codec, padding, padding-InvertsBlocks,
}
use go_metrics_harvester.Tests.Services.{count_of-IsAccepted}
use go_metrics_harvester.Tests.Webs.{
  echo, texts, one_address, constant, plain_gzip, plain-Unpacks, pem,
}
use go_metrics_harvester.Tests.Agents.{
  polled_twice, polled_twice-IsReport, counted_41, counted_41-IsTypedStore, interfaces,
  real_ip-of_interfaces,
}
use go_metrics_harvester.Tests.Handlers.{web, conv}

abbrev libraries : Libraries
libraries = record {
  net = texts;
  signing = constant;
  gzip = plain_gzip;
  addresses = one_address;
  rsa = padding;
  pem = pem;
}

abbrev config : Settings
config = record {
  key = "k";
  trusted_subnet = "10.0.0.1";
  private_key = some (1 ∷ []);
  store_interval = 0;
}

abbrev client : Client
client = record { address = "http://server"; key = "k"; public_key = some (2 ∷ []) }

abbrev decode_body : Body → Error ⊎ List (Metric ℕ)
decode_body (inl e) = inl e
decode_body (inr b) = codec.decode b

abbrev json_web : Web ℕ
json_web = record web { decode_list = decode_body }

abbrev repository : Repository ℕ ℕ
repository = memory reverse codec

abbrev arriving : Message → Request
arriving m = record { header = header_of m; body = inr m.body }

-- The server decodes texts as `w` does.
abbrev wire : Web ℕ → Transport padding repository.State
wire w = record {
  new_request = λ _. none;
  send = λ m s.
      delivered (other "EOF") (handle libraries config w conv repository updates (arriving m) s);
  interfaces = λ _. inr interfaces;
  sleep = λ _ s. s;
  decode = λ b. some b;
  parse_public_key = λ _. inr (some 8);
}

abbrev wire-IsConnected :
    (w : Web ℕ) → IsConnected libraries w conv repository (wire w) client config
wire-IsConnected w = record {
  same_key = refl;
  paired =
      keyed {public = 2 ∷ []} {private = 1 ∷ []} {block = 2 ∷ []} {block' = 1 ∷ []} 8 refl refl refl
        refl (padding-InvertsBlocks 8) (omega arith);
  unpacks = plain-Unpacks;
  names_gzip = refl;
  valid_url = refl;
  arrive = arriving;
  delivers =
      λ m. record { same_body = refl; accepts = refl; content = refl; sender = refl; sign = refl };
  aborted = other "EOF";
  sends = λ m s. refl;
}

inside : InSubnet one_address "10.0.0.1" "10.0.0.1"
inside = record {
  ip = "10.0.0.1";
  net = "10.0.0.1";
  is_address = refl;
  is_subnet = refl;
  inside = refl;
}

sealed_counter :
    (w : Web ℕ)
    → seal texts constant padding (wire w) client (some (2 ∷ [])) (1 ∷ 5 ∷ []) 0
      ≡ some (ok (2 ∷ 1 ∷ 5 ∷ 0 ∷ 0 ∷ 0 ∷ 0 ∷ 0 ∷ []), 1)
unfolding seal encrypt loop
sealed_counter w = refl

stored : crashes (repository.update (count_of 5 ∷ []) both).0 ≡ false
unfolding Memory.update Memory.upsert Memory.merge lookup assign
stored = refl

publish-update_example :
    publish texts constant padding
      (wire json_web)
      client
      codec
      plain_gzip
      (count_of 5 ∷ [])
      (0, both)
    ≡ some (ok tt, (1, (repository.update (count_of 5 ∷ []) both).1))
publish-update_example =
    publish-update libraries json_web conv repository (wire json_web) client config codec
      (count_of 5 ∷ []) both (1 ∷ 5 ∷ []) (2 ∷ 1 ∷ 5 ∷ 0 ∷ 0 ∷ 0 ∷ 0 ∷ 0 ∷ []) 0 1 "10.0.0.1"
      (wire-IsConnected json_web) (inr inside) real_ip-of_interfaces refl refl
      (count_of-IsAccepted 5, tt) stored (sealed_counter json_web)

-- A counter that fits, and one under the name of a gauge: each attempt adds 3 before it panics.
abbrev clashing : List (Metric ℕ)
clashing = count_of 3 ∷ record (count_of 1) { id = "g" } ∷ []

abbrev after_attempt : ℕ → Storage ℕ
after_attempt n = record { storage = ("c", count_of n) ∷ ("g", gauge_of "g" 7) ∷ [] }

clashing-IsAccepted : All IsAccepted clashing
clashing-IsAccepted = (
  count_of-IsAccepted 3,
  (record { named = λ p. ground (arith, eq_iff "g" ""); typed = inr refl }, tt),
)

update-after_attempt :
    (n : ℕ)
    → repository.update clashing (after_attempt n) ≡ (panic, after_attempt ((n + 3) % int64_mod))
unfolding Memory.update Memory.upsert Memory.merge lookup assign
update-after_attempt n = refl

abbrev clashing_web : Web ℕ
clashing_web = record web { decode_list = λ b. inr clashing }

abbrev clashing_codec : Json ℕ
clashing_codec = record { encode = λ m. inr (1 ∷ 5 ∷ []); decode = λ b. inr clashing }

publish-update_panics_example :
    publish texts constant padding
      (wire clashing_web)
      client
      clashing_codec
      plain_gzip
      clashing
      (0, both)
    ≡ some (
      err (wrap "error while publish" (wrap "send request" (other "EOF"))),
      (1, after_attempt 14),
    )
publish-update_panics_example =
    publish-update_panics libraries clashing_web conv repository (wire clashing_web) client config
      clashing_codec clashing both (after_attempt 8) (after_attempt 11) (after_attempt 14)
      (1 ∷ 5 ∷ []) (2 ∷ 1 ∷ 5 ∷ 0 ∷ 0 ∷ 0 ∷ 0 ∷ 0 ∷ []) 0 1 "10.0.0.1"
      (wire-IsConnected clashing_web) (inr inside) (λ s. real_ip-of_interfaces) (λ n s. refl) refl
      refl clashing-IsAccepted (update-after_attempt 5) (update-after_attempt 8)
      (update-after_attempt 11) (sealed_counter clashing_web)

-- The padding cipher beside a hash of 32 bytes, with keys of as many bytes as hold the bits asked for, and texts
-- that hold a key as it is.
abbrev padding_256 : Rsa
padding_256 = record padding { hash_size = 32 }

abbrev key_of : List ℕ → Error ⊎ ℕ
key_of [] = inl (other "asn1: syntax error")
key_of (k ∷ _) = inr k

abbrev whole : ℕ → ℕ → Outcome ℕ × ℕ
whole bits r = (ok ((bits + 7) / 8), r + 1)

abbrev keys : Keys padding_256
keys = record {
  generate_key = whole;
  marshal_public_key = λ k. inr (k ∷ []);
  marshal_private_key = λ k. k ∷ [];
  encode = λ type b. b;
}

abbrev certified : Libraries
certified = record {
  net = texts;
  signing = constant;
  gzip = plain_gzip;
  addresses = one_address;
  rsa = padding_256;
  pem = record { decode = λ b. some b; parse_private_key = key_of; message = λ _. "error" };
}

abbrev found : Error ⊎ ℕ → Error ⊎ Option ℕ
found (inl e) = inl e
found (inr k) = inr (some k)

abbrev certified_wire : Transport padding_256 ℕ
certified_wire = record {
  new_request = λ _. none;
  send = λ m s. (none, s);
  interfaces = λ _. inr interfaces;
  sleep = λ _ s. s;
  decode = λ b. some b;
  parse_public_key = λ b. found (key_of b);
}

key_inj : {a b : List ℕ} → ◌≡◌ {A = Error ⊎ List ℕ} (inr a) (inr b) → a ≡ b
key_inj p = cc p

whole-eq : (bits r k : ℕ) → (whole bits r).0 ≡ ok k → k ≡ (bits + 7) / 8
whole-eq bits r k e = sym (ok_inj e)

certified-Matches : Matches certified certified_wire keys
certified-Matches = record {
  decode-encode = λ type b. refl;
  pem_decode-encode = λ type b. refl;
  parse-marshal_public_key = λ k b e. ap (λ b'. found (key_of b')) (sym (key_inj e));
  parse-marshal_private_key = λ k. refl;
  size-generate_key = whole-eq;
  inverts = λ bits r k e. record { inverts = (padding-InvertsBlocks k).inverts };
  hash_size-eq = refl;
}

sealed_counter_256 :
    seal texts constant padding_256 certified_wire client (some (512 ∷ [])) (1 ∷ 5 ∷ []) 0
    ≡ some (ok (pad 512 (1 ∷ 5 ∷ [])), 1)
unfolding seal encrypt loop
sealed_counter_256 = refl

generated : (generate_cert padding_256 keys 0).0 ≡ ok (512 ∷ [], 512 ∷ [])
unfolding generate_cert
generated = refl

with_decrypt-generate_cert_example :
    with_decrypt texts padding_256 certified.pem
      (some (512 ∷ []))
      echo
      (record { header = λ _. ""; body = inr (pad 512 (1 ∷ 5 ∷ [])) })
      0
    ≡ echo (record { header = λ _. ""; body = inr (1 ∷ 5 ∷ []) }) 0
with_decrypt-generate_cert_example =
    with_decrypt-generate_cert certified certified_wire client config keys certified-Matches echo
      (record { header = λ _. ""; body = inr [] }) 0 (512 ∷ []) (512 ∷ []) (1 ∷ 5 ∷ [])
      (pad 512 (1 ∷ 5 ∷ [])) 0 0 1 generated sealed_counter_256

-- A client without encryption that reports what the agent has polled; the texts stand for that batch.
abbrev polled_batch : List (Metric ℕ)
polled_batch = reverse (values polled_twice)

abbrev report_codec : Json ℕ
report_codec = record { encode = λ m. inr (9 ∷ []); decode = λ b. inr polled_batch }

abbrev report_web : Web ℕ
report_web = record web { decode_list = λ b. inr polled_batch }

abbrev plain_client : Client
plain_client = record { address = "http://server"; key = "k"; public_key = none }

abbrev plain_config : Settings
plain_config = record config { private_key = none }

abbrev report_wire : Transport padding (Storage ℕ)
report_wire = record {
  new_request = λ _. none;
  send = λ m s. delivered (other "EOF") (
      handle libraries plain_config report_web conv (reported ℕ reverse reverse report_codec)
        updates (arriving m) s);
  interfaces = λ _. inr interfaces;
  sleep = λ _ s. s;
  decode = λ b. some b;
  parse_public_key = λ _. inr (some 8);
}

report_wire-IsConnected :
    IsConnected libraries report_web conv
      (reported ℕ reverse reverse report_codec)
      report_wire
      plain_client
      plain_config
report_wire-IsConnected = record {
  same_key = refl;
  paired = unkeyed;
  unpacks = plain-Unpacks;
  names_gzip = refl;
  valid_url = refl;
  arrive = arriving;
  delivers =
      λ m. record { same_body = refl; accepts = refl; content = refl; sender = refl; sign = refl };
  aborted = other "EOF";
  sends = λ m s. refl;
}

polled-IsReadable :
    IsReadable ℕ reverse reverse report_codec libraries report_web conv report_wire plain_client
      plain_config polled_batch
polled-IsReadable = record { text = 9 ∷ []; encoded = refl; decoded = refl }

get-publish_all_example :
    (o : Option ℕ) × (s : Storage ℕ) × (publish_all ℕ reverse reverse report_codec libraries
        report_web conv report_wire plain_client plain_config
        (polled_twice ∷ polled_twice ∷ [])
        (0, counted_41)
      ≡ some (0, s))
    × (Memory.get "PollCount" s
        ≡ some (record { id = "PollCount"; mtype = counter; delta = some 43; value = o }))
unfolding Memory.get lookup
get-publish_all_example =
    get-publish_all ℕ reverse reverse report_codec libraries report_web conv report_wire
      plain_client plain_config (polled_twice ∷ polled_twice ∷ []) (count_metric "PollCount" 0) 41
      none counted_41 0 "10.0.0.1" reverse-Permᴰ report_wire-IsConnected refl (inr inside)
      (λ s. real_ip-of_interfaces) (polled_twice-IsReport, (polled_twice-IsReport, tt))
      (polled-IsReadable, (polled-IsReadable, tt)) counted_41-IsTypedStore (omega arith) refl
