-- ===== src/Tls/Credentials/Making.antt =====
-- src/tls/botan/credentials.cpp: the constructors of `CredentialsProvider` and `load_credentials`.
use nimlib.Prelude.{
  ℕ, zero, suc, Bool, ◌&&◌, Option, none, some, List, [], ◌∷◌, ◌++◌, if◌then◌else◌,
}
use nimlib.Prelude.Text.{Text, codes}
use nimlib.Tls.Credentials.{
  Botan, KeyFile, loaded, decoding_error, other_error, CredentialsProvider,
}

module _ (B : Botan) where
  open B use {
    Certificate, PrivateKey, PublicKey, Name, Store, Secret, Stream, same_certificate, same_name,
    issuer_dn, matches_dns_name, private_algo_name, public_algo_name, fingerprint_public,
    has_system_store, system_store, in_memory_store, load_private_key, load_public_key, open_stream,
    end_of_data, read_certificate, remaining, base_psk_identity,
  }

  abbrev pub pushed : List Certificate → Option Certificate → List Certificate
  pushed certs none = certs
  pushed certs (some c) = certs ++ c ∷ []

  -- The loop of `load_credentials` over the certificates: `none` when the fuel ends. An attempt that
  -- throws adds nothing.
  unfoldable pub read_chain : ℕ → Stream → List Certificate → Option (List Certificate)
  read_chain zero input certs = none
  read_chain (suc fuel) input certs =
      let (c, behind) = read_certificate input in
      let rest = read_chain fuel behind (pushed certs c) in
      if end_of_data input then some certs else rest

  abbrev pub with_chain :
      CredentialsProvider B
      → PrivateKey
      → Option (List Certificate)
      → Option (CredentialsProvider B)
  with_chain p k none = none
  with_chain p k (some []) = none
  with_chain p k (some (c ∷ certs)) =
      some (record p { m_certs = p.m_certs ++ record { certs = c ∷ certs; key = k } ∷ [] })

  abbrev pub from_stream :
      CredentialsProvider B → PrivateKey → Option Stream → Option (CredentialsProvider B)
  from_stream p k none = none
  from_stream p k (some input) = with_chain p k (read_chain (suc (remaining input)) input [])

  abbrev pub with_public :
      CredentialsProvider B → Text → PrivateKey → KeyFile PublicKey → Option (CredentialsProvider B)
  with_public p cred k (loaded q) =
      some (record p { m_raw_pubkey = record { private_key = some k; public_key = some q } })
  with_public p cred k decoding_error = from_stream p k (open_stream cred)
  with_public p cred k other_error = none

  abbrev pub with_private :
      CredentialsProvider B → Text → Option PrivateKey → Option (CredentialsProvider B)
  with_private p cred none = none
  with_private p cred (some k) = with_public p cred k (load_public_key cred)

  -- `load_credentials(cred, key)`. The fuel of the loop is one more than the attempts that are left
  -- (`Loading.read_chain_total`).
  unfoldable pub load_credentials :
      CredentialsProvider B → Text → Text → Option (CredentialsProvider B)
  load_credentials p cred key = with_private p cred (load_private_key key)

  abbrev pub value_or : Option Text → Text → Text
  value_or none d = d
  value_or (some t) d = t

  abbrev pub initial : Option Secret → Option Text → Option Text → CredentialsProvider B
  initial psk psk_identity psk_prf = record {
    m_certs = [];
    m_raw_pubkey = record { private_key = none; public_key = none };
    m_certstores = [];
    m_psk = psk;
    m_psk_identity = psk_identity;
    m_psk_prf = value_or psk_prf (codes "SHA-256");
  }

  -- The constructor of a client: its four steps.
  abbrev pub with_store : CredentialsProvider B → Option Store → Option (CredentialsProvider B)
  with_store p none = none
  with_store p (some s) = some (record p { m_certstores = p.m_certstores ++ s ∷ [] })

  abbrev pub with_ca : CredentialsProvider B → Text → Option (CredentialsProvider B)
  with_ca p [] = some p
  with_ca p (c ∷ path) = with_store p (in_memory_store (c ∷ path))

  abbrev pub with_client :
      CredentialsProvider B → Option Text → Option Text → Option (CredentialsProvider B)
  with_client p none none = some p
  with_client p (some cred) (some key) = load_credentials p cred key
  with_client p cred key = none

  abbrev pub with_system_store : CredentialsProvider B → Bool → CredentialsProvider B
  with_system_store p use_system_store =
      if has_system_store && use_system_store
      then record p { m_certstores = p.m_certstores ++ system_store ∷ [] }
      else p

  abbrev pub then_system : Bool → Option (CredentialsProvider B) → Option (CredentialsProvider B)
  then_system use_system_store none = none
  then_system use_system_store (some p) = some (with_system_store p use_system_store)

  abbrev pub then_client :
      Bool
      → Option Text
      → Option Text
      → Option (CredentialsProvider B)
      → Option (CredentialsProvider B)
  then_client use_system_store cred key none = none
  then_client use_system_store cred key (some p) =
      then_system use_system_store (with_client p cred key)

  unfoldable pub new_client :
      Bool
      → Text
      → Option Text
      → Option Text
      → Option Secret
      → Option Text
      → Option Text
      → Option (CredentialsProvider B)
  unfolding load_credentials
  new_client use_system_store ca_path client_cred client_key psk psk_identity psk_prf =
      then_client use_system_store client_cred client_key
        (with_ca (initial psk psk_identity psk_prf) ca_path)

  -- The constructor of a server.
  unfoldable pub new_server :
      Text → Text → Option Secret → Option Text → Option Text → Option (CredentialsProvider B)
  new_server server_cred server_key psk psk_identity psk_prf =
      load_credentials (initial psk psk_identity psk_prf) server_cred server_key
