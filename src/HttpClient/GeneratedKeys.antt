-- ===== src/HttpClient/GeneratedKeys.antt =====
-- The key texts that GenerateCert makes, at the client that encrypts and at the server that decrypts.
use go_metrics_harvester.Base.{
  ℕ, ◌+◌, ◌/◌, String, ◌≡◌, inr, some, List, ok, Action, arith, >>=-eq-ok, lifted, lifted-eq-ok,
  ok_inj, pure, ◌>>=◌,
}
use mathlib.Core.Path.{subst}
use go_metrics_harvester.Http.{Request, Handler}
use go_metrics_harvester.Crypto.RoundTrip.{InvertsBlocks, IsLongKey}
use go_metrics_harvester.Crypto.Certificate.{Keys, texts, generate_cert}
use go_metrics_harvester.HttpClient.{Transport, Client, seal}
use go_metrics_harvester.HttpClient.Passage.{Paired, keyed, with_decrypt-seal}
use go_metrics_harvester.Middleware.Decrypt.{with_decrypt}
use go_metrics_harvester.Server.Routes.{Libraries, Settings}

-- What the libraries document: a PEM block decodes to what was encoded, a key parses from what it was
-- marshalled to, the modulus of a generated key has the bits asked for, in so many whole bytes, and
-- decryption with a generated key undoes encryption. The hash function is SHA-256.
pub record Matches {W : Type 0} (l : Libraries) (t : Transport l.rsa W) (keys : Keys l.rsa)
    : Type 0 where
  pub decode-encode : (type : String) (b : List ℕ) → t.decode (keys.encode type b) ≡ some b
  pub pem_decode-encode : (type : String) (b : List ℕ) → l.pem.decode (keys.encode type b) ≡ some b
  pub parse-marshal_public_key :
      (k : l.rsa.PublicKey) (b : List ℕ)
      → keys.marshal_public_key k ≡ inr b
      → t.parse_public_key b ≡ inr (some k)
  pub parse-marshal_private_key :
      (k : l.rsa.PrivateKey) → l.pem.parse_private_key (keys.marshal_private_key k) ≡ inr k
  pub size-generate_key :
      (bits : ℕ) (r : l.rsa.Random) (k : l.rsa.PrivateKey)
      → (keys.generate_key bits r).0 ≡ ok k
      → l.rsa.size (l.rsa.public_key k) ≡ (bits + 7) / 8
  pub inverts :
      (bits : ℕ) (r : l.rsa.Random) (k : l.rsa.PrivateKey)
      → (keys.generate_key bits r).0 ≡ ok k
      → InvertsBlocks l.rsa k
  pub hash_size-eq : l.rsa.hash_size ≡ 32

module _ {W : Type 0} (l : Libraries) (t : Transport l.rsa W) (c : Client) (cfg : Settings)
    (keys : Keys l.rsa) (matches : Matches l t keys) where
  texts-Paired :
      (k : l.rsa.PrivateKey) (cert : List ℕ)
      → keys.marshal_public_key (l.rsa.public_key k) ≡ inr cert
      → InvertsBlocks l.rsa k
      → IsLongKey l.rsa k
      → Paired l t c cfg (some (texts l.rsa keys k cert).0) (some (texts l.rsa keys k cert).1)
  texts-Paired k cert e inv long =
      keyed k (matches.decode-encode "CERTIFICATE" cert)
        (matches.parse-marshal_public_key (l.rsa.public_key k) cert e)
        (matches.pem_decode-encode "RSA PRIVATE KEY" (keys.marshal_private_key k))
        (matches.parse-marshal_private_key k) inv long

  generate_cert-Paired :
      (public private : List ℕ) (r : l.rsa.Random)
      → (generate_cert l.rsa keys r).0 ≡ ok (public, private)
      → Paired l t c cfg (some public) (some private)
  unfolding generate_cert
  generate_cert-Paired public private r e =
      let marshalled : l.rsa.PrivateKey → Action l.rsa.Random (List ℕ × List ℕ) = λ k.
        lifted (keys.marshal_public_key (l.rsa.public_key k)) >>= λ cert.
        pure (texts l.rsa keys k cert) in
      let (k, made, rest) = >>=-eq-ok marshalled (keys.generate_key 4096) r e in
      let (cert, marshal, done) =
        >>=-eq-ok (λ (cert : List ℕ). pure (texts l.rsa keys k cert))
          (lifted (keys.marshal_public_key (l.rsa.public_key k))) _ rest in
      let both : texts l.rsa keys k cert ≡ (public, private) = ok_inj done in
      let long : IsLongKey l.rsa k =
        omega (arith, matches.size-generate_key 4096 r k made, matches.hash_size-eq) in
      subst (λ (p : List ℕ × List ℕ). Paired l t c cfg (some p.0) (some p.1)) both
        (texts-Paired k cert (lifted-eq-ok (keys.marshal_public_key _) _ marshal)
          (matches.inverts 4096 r k made) long)

  -- A body that a client seals with the first text that GenerateCert returned reaches the handler as
  -- the client had it, at a server that is configured with the second text, where the libraries keep
  -- what they document.
  pub with_decrypt-generate_cert :
      {S : Type 0} (h : Handler S) (req : Request) (s : S) (public private text buf : List ℕ)
      (r r' r'' : l.rsa.Random)
      → (generate_cert l.rsa keys r).0 ≡ ok (public, private)
      → seal l.net l.signing l.rsa t c (some public) text r' ≡ some (ok buf, r'')
      → with_decrypt l.net l.rsa l.pem (some private) h (record req { body = inr buf }) s
        ≡ h (record req { body = inr text }) s
  with_decrypt-generate_cert h req s public private text buf r r' r'' e sealed =
      with_decrypt-seal l t c cfg h req s text buf r' r'' (generate_cert-Paired public private r e)
        sealed
