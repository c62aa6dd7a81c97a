-- ===== src/Tls/Credentials/Tests.antt =====
-- Runs of src/tls/botan/credentials.cpp over a small stand-in for the Botan library.
use nimlib.Prelude.{
  ℕ, zero, suc, ◌≡◌, refl, Bool, true, false, Option, none, some, List, [], ◌∷◌, length, arith,
  ◌==◌,
}
use nimlib.Prelude.Text.{Text, Text-discrete, codes}
use nimlib.Tls.Credentials.{
  Botan, KeyFile, loaded, decoding_error, CertificateInfo, CredentialsProvider, value_exists,
}
use nimlib.Tls.Credentials.Making.{load_credentials, new_server, read_chain}
use nimlib.Tls.Credentials.Finding.{
  find_cert_chain, private_key_for, find_raw_public_key, private_key_for_raw, find_preshared_keys,
}
use nimlib.Tls.Credentials.Chains.{Serves, find_cert_chain-new_server}
use nimlib.Tls.Credentials.Keys.{private_key_for-find_cert_chain, raw_key-new_server}

-- A file of certificates holds one number for each, and 0 for an entry that cannot be read.
abbrev first_entry : List ℕ → Option ℕ × List ℕ
first_entry [] = (none, [])
first_entry (zero ∷ xs) = (none, xs)
first_entry (suc n ∷ xs) = (some n, xs)

abbrev ends : List ℕ → Bool
ends [] = true
ends (x ∷ xs) = false

abbrev toy : Botan
toy = record {
  Certificate = ℕ;
  PrivateKey = Text;
  PublicKey = Text;
  Name = ℕ;
  Store = ℕ;
  Secret = Text;
  Stream = List ℕ;
  same_certificate = λ c d. c == d;
  same_name = λ c d. c == d;
  issuer_dn = λ c. c;
  matches_dns_name = λ c host. true;
  private_algo_name = λ k. k;
  public_algo_name = λ k. k;
  fingerprint_public = λ k. k;
  has_system_store = true;
  system_store = 9;
  in_memory_store = λ path. some 1;
  load_private_key = λ t. some t;
  load_public_key = λ t. decoding_error;
  open_stream = λ t. some t;
  end_of_data = ends;
  read_certificate = first_entry;
  remaining = length;
  base_psk_identity = λ type context hint. [];
}

abbrev server : CredentialsProvider toy
server = record {
  m_certs = record { certs = 5 ∷ 7 ∷ []; key = codes "RSA" } ∷ [];
  m_raw_pubkey = record { private_key = none; public_key = none };
  m_certstores = [];
  m_psk = none;
  m_psk_identity = none;
  m_psk_prf = codes "SHA-256";
}

server_made : new_server toy (6 ∷ 0 ∷ 8 ∷ []) (codes "RSA") none none none ≡ some server
unfolding new_server load_credentials read_chain
server_made = refl

find_cert_chain-new_server_example :
    (chain : List ℕ) × (find_cert_chain toy server
        (codes "RSA" ∷ [])
        []
        (codes "tls-server")
        (codes "a")
      ≡ some chain)
    × Serves toy (codes "RSA" ∷ []) (codes "a") server.m_certs chain
find_cert_chain-new_server_example =
    find_cert_chain-new_server toy (6 ∷ 0 ∷ 8 ∷ []) (codes "RSA") none none none server
      (codes "RSA" ∷ []) [] (codes "a") server_made

finds :
    find_cert_chain toy server (codes "RSA" ∷ []) [] (codes "tls-server") (codes "a")
    ≡ some (5 ∷ 7 ∷ [])
unfolding find_cert_chain Text-discrete value_exists nimlib.Tls.Credentials.Finding.serving
finds = refl

private_key_for-find_cert_chain_example :
    (k : Text) × (private_key_for toy server 5 ≡ some (some k))
    × (value_exists (codes "RSA" ∷ []) k ≡ true)
private_key_for-find_cert_chain_example =
    private_key_for-find_cert_chain toy server (codes "RSA" ∷ []) [] (codes "a") 5 (7 ∷ []) (tt, tt)
      (tt, tt) refl finds

raw_key-new_server_example :
    (find_raw_public_key toy server (codes "RSA" ∷ []) ≡ none)
    × (private_key_for_raw toy server (codes "k") ≡ none)
raw_key-new_server_example =
    raw_key-new_server toy (6 ∷ 0 ∷ 8 ∷ []) (codes "RSA") none none none server (codes "RSA") []
      (codes "k") server_made (λ e. grind (arith, e))
