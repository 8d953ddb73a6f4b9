-- ===== src/Crypto/Certificate.antt =====
-- GenerateCert of internal/crypto/crypto.go.
use go_metrics_harvester.Base.{ℕ, String, ◌⊎◌, List, Error, Action, pure, ◌>>=◌, lifted}
use go_metrics_harvester.Crypto.{Rsa}

-- What GenerateCert takes from crypto/rsa, crypto/x509 and encoding/pem: rsa.GenerateKey of so many
-- bits, MarshalPKIXPublicKey, MarshalPKCS1PrivateKey, and pem.Encode of a block of some type into a
-- buffer.
pub record Keys (rsa : Rsa) : Type 0 where
  pub generate_key : ℕ → Action rsa.Random rsa.PrivateKey
  pub marshal_public_key : rsa.PublicKey → Error ⊎ List ℕ
  pub marshal_private_key : rsa.PrivateKey → List ℕ
  pub encode : String → List ℕ → List ℕ

module _ (rsa : Rsa) (keys : Keys rsa) where
  -- The two texts of a key.
  abbrev pub texts : rsa.PrivateKey → List ℕ → List ℕ × List ℕ
  texts private cert = (
    keys.encode "CERTIFICATE" cert,
    keys.encode "RSA PRIVATE KEY" (keys.marshal_private_key private),
  )

  unfoldable pub generate_cert : Action rsa.Random (List ℕ × List ℕ)
  generate_cert = do
    private ← keys.generate_key 4096
    cert ← lifted (keys.marshal_public_key (rsa.public_key private))
    pure (texts private cert)
