-- ===== src/Tls/Credentials.antt =====
-- src/tls/botan/credentials.h and credentials.cpp: `CredentialsProvider`.
--
-- What the Botan library does is a parameter. Shared pointers are values, and an empty one is `none`.
-- `none` as a result is an exception, a pointer that is followed without a value, or an access out of
-- range.
pub mod Making
pub mod Finding
pub mod Chains
pub mod Loading
pub mod Keys
mod Tests
use nimlib.Prelude.{ℕ, Bool, true, false, Option, List, [], ◌∷◌, if◌then◌else◌}
use nimlib.Prelude.Text.{Text, text_eq}

-- What `Botan::X509::load_key` does: a key, a `Decoding_Error`, or another exception.
pub data KeyFile (A : Type 0) : Type 0 where
  loaded : A → KeyFile A
  decoding_error : KeyFile A
  other_error : KeyFile A

-- The types and calls of Botan. `in_memory_store`, `load_private_key` and `open_stream` give `none`
-- when they throw; `read_certificate` gives the certificate, or `none` when it throws, and the stream
-- behind the attempt. `remaining` is a bound on the attempts that are left. The two calls of the base
-- class `Credentials_Manager` are the last.
pub record Botan : Type 1 where
  pub Certificate : Type 0
  pub PrivateKey : Type 0
  pub PublicKey : Type 0
  pub Name : Type 0
  pub Store : Type 0
  pub Secret : Type 0
  pub Stream : Type 0
  pub same_certificate : Certificate → Certificate → Bool
  pub same_name : Name → Name → Bool
  pub issuer_dn : Certificate → Name
  pub matches_dns_name : Certificate → Text → Bool
  pub private_algo_name : PrivateKey → Text
  pub public_algo_name : PublicKey → Text
  pub fingerprint_public : PublicKey → Text
  pub has_system_store : Bool
  pub system_store : Store
  pub in_memory_store : Text → Option Store
  pub load_private_key : Text → Option PrivateKey
  pub load_public_key : Text → KeyFile PublicKey
  pub open_stream : Text → Option Stream
  pub end_of_data : Stream → Bool
  pub read_certificate : Stream → Option Certificate × Stream
  pub remaining : Stream → ℕ
  pub base_psk_identity : Text → Text → Text → Text

-- `std::find` over the strings, and `value_exists`, whose loop runs over the indices.
unfoldable pub value_exists : List Text → Text → Bool
value_exists [] val = false
value_exists (v ∷ vec) val = let rest = value_exists vec val in if text_eq v val then true else rest

-- `ExternalPSK`, as its constructor is called.
pub record ExternalPsk (Secret : Type 0) : Type 0 where
  pub identity : Text
  pub prf : Text
  pub secret : Secret

module _ (B : Botan) where
  open B use {Certificate, PrivateKey, PublicKey, Name, Store, Secret, Stream}

  pub record CertificateInfo : Type 0 where
    pub certs : List Certificate
    pub key : PrivateKey

  pub record RawPublicKeyInfo : Type 0 where
    pub private_key : Option PrivateKey
    pub public_key : Option PublicKey

  pub record CredentialsProvider : Type 0 where
    pub m_certs : List CertificateInfo
    pub m_raw_pubkey : RawPublicKeyInfo
    pub m_certstores : List Store
    pub m_psk : Option Secret
    pub m_psk_identity : Option Text
    pub m_psk_prf : Text
