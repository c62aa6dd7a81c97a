-- ===== src/Tls/Policy.antt =====
-- src/tls/botan/tls_policy.h: `TLS_All_Policy`.
use nimlib.Prelude.{Bool, true, List, [], ◌∷◌}
use nimlib.Prelude.Text.{Text, codes}

unfoldable pub allowed_ciphers : List Text
allowed_ciphers =
    codes "ChaCha20Poly1305"
    ∷ codes "AES-256/OCB(12)"
    ∷ codes "AES-128/OCB(12)"
    ∷ codes "AES-256/GCM"
    ∷ codes "AES-128/GCM"
    ∷ codes "AES-256/CCM"
    ∷ codes "AES-128/CCM"
    ∷ codes "AES-256/CCM(8)"
    ∷ codes "AES-128/CCM(8)"
    ∷ codes "Camellia-256/GCM"
    ∷ codes "Camellia-128/GCM"
    ∷ codes "ARIA-256/GCM"
    ∷ codes "ARIA-128/GCM"
    ∷ codes "AES-256"
    ∷ codes "AES-128"
    ∷ codes "Camellia-256"
    ∷ codes "Camellia-128"
    ∷ codes "SEED"
    ∷ codes "3DES"
    ∷ []

unfoldable pub allowed_key_exchange_methods : List Text
allowed_key_exchange_methods =
    codes "ECDHE_PSK" ∷ codes "DHE_PSK" ∷ codes "PSK" ∷ codes "ECDH" ∷ codes "DH" ∷ codes "RSA" ∷ []

unfoldable pub allowed_signature_methods : List Text
allowed_signature_methods = codes "ECDSA" ∷ codes "RSA" ∷ codes "DSA" ∷ codes "IMPLICIT" ∷ []

unfoldable pub allow_tls12 : Bool
allow_tls12 = true
