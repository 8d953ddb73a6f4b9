-- ===== src/Tests/Webs.antt =====
-- The middlewares at work on requests from 10.0.0.1.
use go_metrics_harvester.Base.{
  ℕ, ◌+◌, String, ◌≡◌, ◌≢◌, ◌↔◌, ◌⊎◌, inl, inr, refl, ap, true, false, none, some, List, [], ◌∷◌,
  ◌++◌, ◌==◌, eq_iff, if◌then◌else◌, Error,
}
use mathlib.Core.Bool.{false≢true}
use mathlib.Core.Path.{ap₂}
use mathlib.Core.List.{append-nil}
use go_metrics_harvester.Http.{
  set_header, write_header, write, Body, Request, Reply, Handler, Net, answer, refuse, written,
}
use go_metrics_harvester.Middleware.Subnet
use go_metrics_harvester.Middleware.Subnet.{
  Addresses, InSubnet, with_trusted_subnets, with_trusted_subnets_guards,
  unary_server_interceptor_iff,
}
use go_metrics_harvester.Middleware.Hash.{
  Signing, hash_header_key, IsSigned, close, with_hash, with_hash_guards,
}
use go_metrics_harvester.Middleware.Gzip.{
  Gzip, concat, stream, Unpacks, packed, with_gzip, with_gzip_unpacks, with_gzip_opens,
}
use go_metrics_harvester.Middleware.Decrypt.{Pem}
use go_metrics_harvester.Tests.Samples.{padding}

abbrev pub texts : Net
texts = record {
  error_calls =
      λ msg code. set_header "Content-Type" "text/plain" ∷ write_header code ∷ write (0 ∷ []) ∷ [];
  bytes = λ s. if s == "" then [] else 1 ∷ [];
}

abbrev pub one_address : Addresses
one_address = record {
  Ip = String;
  Subnet = String;
  parse_ip = λ s. if s == "" then none else some s;
  parse_cidr = λ s. some s;
  contains = λ net ip. net == ip;
}

abbrev from_home : String → String
from_home key =
    if key == "X-Real-IP" then "10.0.0.1" else if key == "Accept-Encoding" then "gzip" else ""

abbrev pub request : Request
request = record { header = from_home; body = inr (4 ∷ 5 ∷ []) }

-- Counts its calls, and echoes the body.
abbrev pub echo_body : Body → ℕ → Reply ℕ
echo_body (inl e) s = answer (write_header 500 ∷ []) s
echo_body (inr b) s = answer (write_header 201 ∷ write b ∷ []) (s + 1)

abbrev pub echo : Handler ℕ
echo req s = echo_body req.body s

pub named : (s : String) → (s == "") ≡ false → s ≢ ""
named s e p = cc (e, (eq_iff s "").1 p)

with_trusted_subnets_guards_example :
    (InSubnet one_address "10.0.0.1" "10.0.0.1"
      × (with_trusted_subnets one_address texts "10.0.0.1" echo request 0 ≡ echo request 0))
    ⊎ ((¬ InSubnet one_address "10.0.0.1" "10.0.0.1")
        × (with_trusted_subnets one_address texts "10.0.0.1" echo request 0
            ≡ refuse texts "forbidden" 403 0))
with_trusted_subnets_guards_example =
    with_trusted_subnets_guards one_address texts "10.0.0.1" echo request 0 (named "10.0.0.1" refl)

unary_server_interceptor_iff_example :
    (Subnet.unary_server_interceptor one_address "10.0.0.1" ("10.0.0.2" ∷ []) false true ≡ false)
    ↔ (◌≢◌ {A = String} "10.0.0.1" ""
        × ((address : String) × (rest : List String) × ("10.0.0.2" ∷ [] ≡ address ∷ rest)
            × (¬ InSubnet one_address "10.0.0.1" address)))
unary_server_interceptor_iff_example =
    unary_server_interceptor_iff one_address "10.0.0.1" ("10.0.0.2" ∷ []) false true false≢true

-- A signature that is the text "s" for every body.
abbrev pub constant : Signing
constant = record { hmac = λ key body. key ++ body; base64 = λ _. "s" }

with_hash_guards_example :
    ((◌≡◌ {A = String} (request.header hash_header_key) "" ⊎ IsSigned texts constant "k" request)
      × (with_hash texts constant "k" echo request 0
          ≡ close texts constant "k" (written (echo request 0).calls) (echo request 0)))
    ⊎ (◌≢◌ {A = String} (request.header hash_header_key) ""
        × (¬ IsSigned texts constant "k" request)
        × ((msg : String) × (with_hash texts constant "k" echo request 0
              ≡ close texts constant "k" [] (refuse texts msg 400 0))))
with_hash_guards_example = with_hash_guards texts constant "k" echo request 0 (named "k" refl)

-- A format that adds nothing.
abbrev opened_plain : Body → Error ⊎ Body
opened_plain (inl e) = inl e
opened_plain (inr b) = inr (inr b)

abbrev pub plain_gzip : Gzip
plain_gzip = record {
  Writer = Unit;
  new_writer = tt;
  write_chunk = λ z b. (b ∷ [], z);
  close_writer = λ _. [];
  open_reader = opened_plain;
  contains = λ s t. s == t;
}

stream-plain : (bs : List (List ℕ)) → stream plain_gzip tt bs ≡ concat bs
unfolding stream concat
stream-plain [] = refl
stream-plain (b ∷ bs) = ap₂ (λ xs ys. xs ++ ys) (append-nil b) (stream-plain bs)

pub plain-Unpacks : Unpacks plain_gzip
plain-Unpacks = record { open-stream = λ bs. ap (λ b. inr (inr b)) (stream-plain bs) }

with_gzip_unpacks_example :
    (opened_plain (inr (written (with_gzip plain_gzip echo request 0).calls))
      ≡ inr (inr (written (echo request 0).calls)))
    × ((with_gzip plain_gzip echo request 0).state ≡ (echo request 0).state)
    × ((with_gzip plain_gzip echo request 0).logged ≡ (echo request 0).logged)
    × ((with_gzip plain_gzip echo request 0).panicked ≡ (echo request 0).panicked)
with_gzip_unpacks_example = with_gzip_unpacks plain_gzip echo request 0 plain-Unpacks refl refl

abbrev zipped : Request
zipped = record {
  header = λ key. if key == "Content-Encoding" then "gzip" else "";
  body = inr (4 ∷ 5 ∷ 6 ∷ []);
}

zipped_body : zipped.body ≡ inr (stream plain_gzip tt ((4 ∷ []) ∷ (5 ∷ 6 ∷ []) ∷ []))
unfolding stream concat
zipped_body = refl

with_gzip_opens_example :
    with_gzip plain_gzip echo zipped 0
    ≡ packed plain_gzip
        (zipped.header "Accept-Encoding" == "gzip")
        echo
        (record zipped { body = inr (concat ((4 ∷ []) ∷ (5 ∷ 6 ∷ []) ∷ [])) })
        0
with_gzip_opens_example =
    with_gzip_opens plain_gzip echo zipped 0 ((4 ∷ []) ∷ (5 ∷ 6 ∷ []) ∷ []) plain-Unpacks refl
      zipped_body

abbrev pub pem : Pem padding
pem = record { decode = λ b. some b; parse_private_key = λ b. inr 8; message = λ _. "error" }
