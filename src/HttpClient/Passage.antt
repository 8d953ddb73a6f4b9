-- ===== src/HttpClient/Passage.antt =====
-- A message of Publish on its way through the middlewares of the route /updates/.
use go_metrics_harvester.Base.{
  ℕ, suc, String, ◌≡◌, ◌⊎◌, inl, inr, refl, sym, ap, ◌∙◌, true, Bool-cases, Option, none, some,
  List, [], ◌==◌, not, if◌then◌else◌, arith, Outcome, ok, err, panic, length,
}
use mathlib.Core.Path.{subst}
use go_metrics_harvester.Base.Dict.{lookup}
use go_metrics_harvester.Http.{Request, Handler}
use go_metrics_harvester.Crypto.RoundTrip.{InvertsBlocks, IsLongKey, decrypt-encrypt}
use go_metrics_harvester.Middleware.{combine}
use go_metrics_harvester.Middleware.Hash.{signature, hash_header_key}
use go_metrics_harvester.Middleware.Gzip.{Unpacks}
use go_metrics_harvester.Middleware.Subnet.{InSubnet}
use go_metrics_harvester.Middleware.Decrypt.{with_decrypt, with_decrypt_opens}
use go_metrics_harvester.HttpClient.{Transport, Client, compress, headers, message, seal, encrypted}
use go_metrics_harvester.HttpClient.Delivery.{
  Delivers, SameEffect, same, then', with_hash_passes, with_logging_passes,
  with_trusted_subnets_passes, compress_opens,
}
use go_metrics_harvester.Server.Routes.{Libraries, Settings, updates_mdw}

module _ {W : Type 0} (l : Libraries) (t : Transport l.rsa W) (c : Client) (cfg : Settings) where
  -- The texts of two keys that belong together, or no keys at all.
  pub data Paired : Option (List ℕ) → Option (List ℕ) → Type 0 where
    unkeyed : Paired none none
    keyed :
        {public private block block' : List ℕ} (k : l.rsa.PrivateKey)
        → t.decode public ≡ some block
        → t.parse_public_key block ≡ inr (some (l.rsa.public_key k))
        → l.pem.decode private ≡ some block'
        → l.pem.parse_private_key block' ≡ inr k
        → InvertsBlocks l.rsa k
        → IsLongKey l.rsa k
        → Paired (some public) (some private)

  encrypted-eq-ok :
      (o : Option (Outcome (List ℕ) × l.rsa.Random)) (buf : List ℕ) (r : l.rsa.Random)
      → encrypted l.net l.signing l.rsa t c o ≡ some (ok buf, r)
      → o ≡ some (ok buf, r)
  encrypted-eq-ok none buf r e = e
  encrypted-eq-ok (some (ok b, r')) buf r e = e
  encrypted-eq-ok (some (panic, r')) buf r e = e
  encrypted-eq-ok (some (err x, r')) buf r e = cc e

  -- The server decrypts what the client sealed.
  pub with_decrypt-seal :
      {S : Type 0} {public private : Option (List ℕ)} (h : Handler S) (req : Request) (s : S)
      (text buf : List ℕ) (r r' : l.rsa.Random)
      → Paired public private
      → seal l.net l.signing l.rsa t c public text r ≡ some (ok buf, r')
      → with_decrypt l.net l.rsa l.pem private h (record req { body = inr buf }) s
        ≡ h (record req { body = inr text }) s
  unfolding seal with_decrypt
  with_decrypt-seal h req s text buf r r' unkeyed e =
      let plain : buf ≡ text = cc e in ap (λ b. h (record req { body = inr b }) s) plain
  with_decrypt-seal h req s text buf r r'
        (keyed {public} {private} {block} {block'} k d p d' p' inv long) e =
      let made = encrypted-eq-ok _ buf r' (rw (d, p, seal) at e) in
      with_decrypt_opens l.net l.rsa l.pem h (record req { body = inr buf }) s private block' buf
        text k d' p' refl
        (decrypt-encrypt l.rsa k _ (suc (length buf)) text [] buf r r' inv long made (omega arith))

  sent_headers :
      (addr : String) (buf : List ℕ) (req : Request)
      → Delivers (message l.net l.signing l.rsa t c addr buf) req
      → (req.header "Content-Encoding" ≡ "gzip")
        × (req.header "X-Real-IP" ≡ addr)
        × (req.header hash_header_key
            ≡ (if not (c.key == "") then signature l.net l.signing c.key buf else ""))
  unfolding headers lookup
  sent_headers addr buf req d = elim (Bool-cases (c.key == "")) [
    | inl off ↦ (rw off at d.content, rw off at d.sender, rw off (rw off at d.sign))
    | inr on ↦ (rw on at d.content, rw on at d.sender, rw on (rw on at d.sign))
  ]

  -- A request that arrives as Publish sent it goes through all the middlewares of the route and
  -- has the effect of the handler on the text that was sealed.
  pub updates_mdw_pass :
      {S : Type 0} (h : Handler S) (req : Request) (s : S) (addr : String) (text buf : List ℕ)
      (r r' : l.rsa.Random)
      → c.key ≡ cfg.key
      → Paired c.public_key cfg.private_key
      → Unpacks l.gzip
      → l.gzip.contains "gzip" "gzip" ≡ true
      → (cfg.trusted_subnet ≡ "") ⊎ InSubnet l.addresses cfg.trusted_subnet addr
      → seal l.net l.signing l.rsa t c c.public_key text r ≡ some (ok buf, r')
      → Delivers (message l.net l.signing l.rsa t c addr (compress l.gzip buf)) req
      → SameEffect (combine h (updates_mdw l cfg) req s) (h (record req { body = inr text }) s)
  unfolding combine
  updates_mdw_pass h req s addr text buf r r' keys paired u zip inside made d =
      let (zipped, sender, sign) = sent_headers addr (compress l.gzip buf) req d in
      let there = record req { body = inr buf } in
      then'
        (with_hash_passes l.net l.signing cfg.key _ req s (compress l.gzip buf) d.same_body (
          subst
            (λ key. req.header hash_header_key ≡ (
              if not (key == "") then signature l.net l.signing key (compress l.gzip buf) else ""))
            keys sign))
        (then'
          (compress_opens l.gzip _ req s buf u (ap (λ e. l.gzip.contains e "gzip") zipped ∙ zip)
            d.same_body)
          (then' (with_logging_passes _ there s) (
            same (
              with_trusted_subnets_passes l.addresses l.net cfg.trusted_subnet _ there s (
                subst (λ a. (cfg.trusted_subnet ≡ "") ⊎ InSubnet l.addresses cfg.trusted_subnet a)
                  (sym sender) inside)
              ∙ with_decrypt-seal h req s text buf r r' paired made))))
