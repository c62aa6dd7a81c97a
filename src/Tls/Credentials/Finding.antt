-- ===== src/Tls/Credentials/Finding.antt =====
-- src/tls/botan/credentials.cpp: what `CredentialsProvider` gives to the Botan library.
use nimlib.Prelude.{
  Bool, true, false, ◌&&◌, ◌||◌, not, Option, none, some, List, [], ◌∷◌, if◌then◌else◌,
}
use nimlib.Prelude.Text.{Text, codes, text_eq}
use nimlib.Tls.Credentials.{Botan, value_exists, ExternalPsk, CertificateInfo, CredentialsProvider}

module _ (B : Botan) where
  open B use {
    Certificate, PrivateKey, PublicKey, Name, Store, Secret, Stream, same_certificate, same_name,
    issuer_dn, matches_dns_name, private_algo_name, public_algo_name, fingerprint_public,
    has_system_store, system_store, in_memory_store, load_private_key, load_public_key, open_stream,
    end_of_data, read_certificate, remaining, base_psk_identity,
  }

  unfoldable pub trusted_certificate_authorities : CredentialsProvider B → Text → List Store
  trusted_certificate_authorities p type =
      if text_eq type (codes "tls-server") then [] else p.m_certstores

  -- The first certificate of a chain, `certs[0]`.
  abbrev pub first_of : List Certificate → Option Certificate
  first_of [] = none
  first_of (c ∷ certs) = some c

  -- The two loops of `find_cert_chain` for a client: the chains for one name, then the names. The
  -- inner `none` is that no chain is found.
  abbrev pub issued_if :
      Name
      → List Certificate
      → Option (Option (List Certificate))
      → Option Certificate
      → Option (Option (List Certificate))
  issued_if dn certs rest none = none
  issued_if dn certs rest (some c) = if same_name dn (issuer_dn c) then some (some certs) else rest

  unfoldable pub issued_by : Name → List (CertificateInfo B) → Option (Option (List Certificate))
  issued_by dn [] = some none
  issued_by dn (cred ∷ creds) = issued_if dn cred.certs (issued_by dn creds) (first_of cred.certs)

  abbrev pub issued_or :
      Option (List Certificate) → Option (Option (List Certificate)) → Option (List Certificate)
  issued_or rest none = none
  issued_or rest (some none) = rest
  issued_or rest (some (some certs)) = some certs

  unfoldable pub issued_by_any : List Name → List (CertificateInfo B) → Option (List Certificate)
  issued_by_any [] creds = some []
  issued_by_any (dn ∷ acceptable_cas) creds =
      issued_or (issued_by_any acceptable_cas creds) (issued_by dn creds)

  abbrev pub is_empty : Text → Bool
  is_empty [] = true
  is_empty (c ∷ t) = false

  -- The test of the host name, `none` if `certs[0]` is out of range.
  abbrev pub wrong_host : Text → Option Certificate → Option Bool
  wrong_host [] c = some false
  wrong_host (h ∷ host) none = none
  wrong_host (h ∷ host) (some c) = some (not (matches_dns_name c (h ∷ host)))

  abbrev pub chosen :
      List Certificate → Option (List Certificate) → Option Bool → Option (List Certificate)
  chosen certs rest none = none
  chosen certs rest (some true) = rest
  chosen certs rest (some false) = some certs

  -- The loop of `find_cert_chain` for a server.
  unfoldable pub serving : List Text → Text → List (CertificateInfo B) → Option (List Certificate)
  serving algos hostname [] = some []
  serving algos hostname (i ∷ creds) =
      let rest = serving algos hostname creds in
      if value_exists algos (private_algo_name i.key)
      then chosen i.certs rest (wrong_host hostname (first_of i.certs))
      else rest

  unfoldable pub find_cert_chain :
      CredentialsProvider B → List Text → List Name → Text → Text → Option (List Certificate)
  find_cert_chain p algos acceptable_cas type hostname =
      if text_eq type (codes "tls-client")
      then issued_by_any acceptable_cas p.m_certs
      else if text_eq type (codes "tls-server")
      then serving algos hostname p.m_certs
      else some []

  -- The inner `none` is an empty pointer.
  abbrev pub public_if : List Text → Option PublicKey → Option (Option PublicKey)
  public_if [] q = some q
  public_if (a ∷ algos) none = none
  public_if (a ∷ algos) (some q) =
      some (if value_exists (a ∷ algos) (public_algo_name q) then some q else none)

  unfoldable pub find_raw_public_key : CredentialsProvider B → List Text → Option (Option PublicKey)
  find_raw_public_key p algos = public_if algos p.m_raw_pubkey.public_key

  -- `private_key_for(cert)`.
  abbrev pub key_if :
      Certificate
      → PrivateKey
      → Option (Option PrivateKey)
      → Option Certificate
      → Option (Option PrivateKey)
  key_if cert k rest none = none
  key_if cert k rest (some c) = if same_certificate cert c then some (some k) else rest

  unfoldable pub key_for : Certificate → List (CertificateInfo B) → Option (Option PrivateKey)
  key_for cert [] = some none
  key_for cert (i ∷ creds) = key_if cert i.key (key_for cert creds) (first_of i.certs)

  unfoldable pub private_key_for : CredentialsProvider B → Certificate → Option (Option PrivateKey)
  private_key_for p cert = key_for cert p.m_certs

  abbrev pub private_if :
      PublicKey → Option PrivateKey → Option PublicKey → Option (Option PrivateKey)
  private_if raw_public_key k none = none
  private_if raw_public_key k (some q) =
      some (if text_eq (fingerprint_public q) (fingerprint_public raw_public_key) then k else none)

  -- `private_key_for(raw_public_key)`.
  unfoldable pub private_key_for_raw :
      CredentialsProvider B → PublicKey → Option (Option PrivateKey)
  private_key_for_raw p raw_public_key =
      private_if raw_public_key p.m_raw_pubkey.private_key p.m_raw_pubkey.public_key

  abbrev pub identity_or : Option Text → Bool → Text → Text
  identity_or none known base = base
  identity_or (some identity) known base = if known then identity else base

  unfoldable pub psk_identity : CredentialsProvider B → Text → Text → Text → Text
  psk_identity p type context identity_hint =
      identity_or p.m_psk_identity
        (text_eq type (codes "tls-client") || text_eq type (codes "tls-server"))
        (base_psk_identity type context identity_hint)

  abbrev pub prf_matches : Text → Option Text → Bool
  prf_matches own none = true
  prf_matches own (some prf) = text_eq own prf

  abbrev pub id_matches : Text → List Text → Bool
  id_matches own [] = true
  id_matches own (i ∷ ids) = value_exists (i ∷ ids) own

  abbrev pub preshared :
      Option Secret
      → Option Text
      → Text
      → List Text
      → Option Text
      → List (ExternalPsk Secret)
      → List (ExternalPsk Secret)
  preshared none identity own ids prf base = base
  preshared (some psk) none own ids prf base = base
  preshared (some psk) (some identity) own ids prf base =
      if prf_matches own prf && id_matches identity ids
      then record { identity = identity; prf = own; secret = psk } ∷ []
      else []

  -- `base` is what the call of the base class returns.
  unfoldable pub find_preshared_keys :
      CredentialsProvider B
      → List Text
      → Option Text
      → List (ExternalPsk Secret)
      → List (ExternalPsk Secret)
  find_preshared_keys p ids prf base = preshared p.m_psk p.m_psk_identity p.m_psk_prf ids prf base
