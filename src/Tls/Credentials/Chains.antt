-- ===== src/Tls/Credentials/Chains.antt =====
-- The chain that `find_cert_chain` of src/tls/botan/credentials.cpp gives to a server.
use nimlib.Prelude.{
  ◌≡◌, refl, ap, inl, inr, Bool, true, false, ◌&&◌, Option, some, List, [], ◌∷◌, ◌++◌, All,
  Bool-cases, not,
}
use nimlib.Prelude.Text.{Text, codes, Text-discrete}
use nimlib.Tls.Credentials.{Botan, value_exists, CertificateInfo, CredentialsProvider}
use nimlib.Tls.Credentials.Making.{new_server}
use nimlib.Tls.Credentials.Finding.{first_of, wrong_host, chosen, serving, find_cert_chain}
use nimlib.Tls.Credentials.Loading.{HasFirst, IsSound, new_server-IsSound}

module _ (B : Botan) where
  open B use {Certificate, PrivateKey, Name, Secret, matches_dns_name, private_algo_name}

  -- The first certificate is for the host; for no host at all, any is.
  unfoldable pub is_for : Text → List Certificate → Bool
  is_for [] certs = true
  is_for (h ∷ host) [] = false
  is_for (h ∷ host) (c ∷ certs) = matches_dns_name c (h ∷ host)

  -- The key is of one of the algorithms, and the first certificate is for the host.
  unfoldable pub fits : List Text → Text → CertificateInfo B → Bool
  fits algos host i = value_exists algos (private_algo_name i.key) && is_for host i.certs

  -- The first of the chains that fits; none if no one does.
  pub data Serves (algos : List Text) (host : Text) (is : List (CertificateInfo B))
      (chain : List Certificate) : Type 0 where
    found :
        (before : List (CertificateInfo B)) (i : CertificateInfo B)
        (after : List (CertificateInfo B))
        → is ≡ before ++ i ∷ after
        → All (λ j. fits algos host j ≡ false) before
        → fits algos host i ≡ true
        → chain ≡ i.certs
        → Serves algos host is chain
    not_found : All (λ j. fits algos host j ≡ false) is → chain ≡ [] → Serves algos host is chain

  Serves_later :
      (algos : List Text) (host : Text) (i : CertificateInfo B) (is : List (CertificateInfo B))
      (chain : List Certificate)
      → fits algos host i ≡ false
      → Serves algos host is chain
      → Serves algos host (i ∷ is) chain
  Serves_later algos host i is chain e (found before j after d unfit fit c) =
      found (i ∷ before) j after (ap (λ xs. i ∷ xs) d) (e, unfit) fit c
  Serves_later algos host i is chain e (not_found unfit c) = not_found (e, unfit) c

  wrong_host_lem :
      (host : Text) (certs : List Certificate)
      → HasFirst B certs
      → wrong_host B host (first_of B certs) ≡ some (not (is_for host certs))
  unfolding is_for
  wrong_host_lem [] certs h = refl
  wrong_host_lem (h ∷ host) [] first = absurd first
  wrong_host_lem (h ∷ host) (c ∷ certs) first = refl

  chosen-Serves :
      (algos : List Text) (host : Text) (i : CertificateInfo B) (is : List (CertificateInfo B))
      (rest : List Certificate)
      → value_exists algos (private_algo_name i.key) ≡ true
      → HasFirst B i.certs
      → Serves algos host is rest
      → (chain : List Certificate) × (chosen B i.certs
            (some rest)
            (wrong_host B host (first_of B i.certs))
          ≡ some chain)
        × Serves algos host (i ∷ is) chain
  unfolding fits
  chosen-Serves algos host i is rest e first h = elim (Bool-cases (is_for host i.certs)) [
    | inl b ↦ (
      i.certs,
      rw (wrong_host_lem host i.certs first, b) refl,
      found [] i is refl tt (rw (e, b) refl) refl,
    )
    | inr b ↦ (
      rest,
      rw (wrong_host_lem host i.certs first, b) refl,
      Serves_later algos host i is rest (rw (e, b) refl) h,
    )
  ]

  serving-Serves :
      (algos : List Text) (host : Text) (is : List (CertificateInfo B))
      → All (λ (i : CertificateInfo B). HasFirst B i.certs) is
      → (chain : List Certificate) × (serving B algos host is ≡ some chain)
        × Serves algos host is chain
  unfolding serving fits
  serving-Serves algos host [] h = ([], refl, not_found tt refl)
  serving-Serves algos host (i ∷ is) (h, hs) =
      let (rest, e, s) = serving-Serves algos host is hs in
      elim (Bool-cases (value_exists algos (private_algo_name i.key))) [
        | inl b ↦ rw (b, e) (chosen-Serves algos host i is rest b h s)
        | inr b ↦ (rest, rw b e, Serves_later algos host i is rest (rw b refl) s)
      ]

  -- Each chain of the provider having a first certificate, as the constructors leave it,
  -- `find_cert_chain` for a server returns: the first chain whose key is of one of the algorithms and
  -- whose first certificate matches the host name (any does if the name is empty), and an empty one
  -- exactly if there is none.
  pub find_cert_chain-Serves :
      (p : CredentialsProvider B) (algos : List Text) (acceptable_cas : List Name) (host : Text)
      → IsSound B p
      → (chain : List Certificate) × (find_cert_chain B p algos acceptable_cas
            (codes "tls-server")
            host
          ≡ some chain)
        × Serves algos host p.m_certs chain
  unfolding find_cert_chain Text-discrete
  find_cert_chain-Serves p algos acceptable_cas host h = serving-Serves algos host p.m_certs h

  -- A provider that the constructor of a server has made gives to `find_cert_chain` for a server the
  -- first of its chains whose key is of one of the algorithms and whose first certificate matches the
  -- host name (any does if the name is empty), and an empty chain only if there is none: no access is
  -- out of range.
  pub find_cert_chain-new_server :
      (server_cred server_key : Text) (psk : Option Secret) (psk_identity psk_prf : Option Text)
      (q : CredentialsProvider B) (algos : List Text) (acceptable_cas : List Name) (host : Text)
      → new_server B server_cred server_key psk psk_identity psk_prf ≡ some q
      → (chain : List Certificate) × (find_cert_chain B q algos acceptable_cas
            (codes "tls-server")
            host
          ≡ some chain)
        × Serves algos host q.m_certs chain
  find_cert_chain-new_server server_cred server_key psk psk_identity psk_prf q algos acceptable_cas
        host e =
      find_cert_chain-Serves q algos acceptable_cas host
        (new_server-IsSound B server_cred server_key psk psk_identity psk_prf q e)
