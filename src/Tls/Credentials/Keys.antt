-- ===== src/Tls/Credentials/Keys.antt =====
-- The keys that src/tls/botan/credentials.cpp finds for the certificates that it gives.
use nimlib.Prelude.{
  ◌≡◌, refl, sym, ap, ◌∙◌, true, false, Option, none, some, List, [], ◌∷◌, ◌++◌, All, arith, subst,
  ◌≢◌, some_inj,
}
use nimlib.Prelude.Text.{Text, codes}
use nimlib.Tls.Credentials.{Botan, value_exists, CertificateInfo, CredentialsProvider}
use nimlib.Tls.Credentials.Making.{initial, new_server}
use nimlib.Tls.Credentials.Finding.{
  first_of, key_if, key_for, private_key_for, find_cert_chain, find_raw_public_key,
  private_key_for_raw,
}
use nimlib.Tls.Credentials.Loading.{
  HasFirst, IsSound, Loads, raw_key, chain, load_credentials-Loads,
}
use nimlib.Tls.Credentials.Chains.{Serves, found, not_found, fits, find_cert_chain-Serves}

module _ (B : Botan) where
  open B use {Certificate, PrivateKey, PublicKey, Name, Secret, same_certificate, private_algo_name}

  -- The first certificates of two chains differ.
  abbrev pub FirstsDiffer : List Certificate → List Certificate → Type 0
  FirstsDiffer (c ∷ certs) (d ∷ others) = same_certificate c d ≡ false
  FirstsDiffer certs others = Unit

  -- No chain has the first certificate of an earlier one.
  abbrev pub AreDistinct : List (CertificateInfo B) → Type 0
  AreDistinct [] = Unit
  AreDistinct (i ∷ is) =
      All (λ (j : CertificateInfo B). FirstsDiffer j.certs i.certs) is × AreDistinct is

  All-mid :
      {A : Type 0} (P : A → Type 0) (xs : List A) (y : A) (ys : List A) → All P (xs ++ y ∷ ys) → P y
  All-mid P [] y ys (h, hs) = h
  All-mid P (x ∷ xs) y ys (h, hs) = All-mid P xs y ys hs

  All-front :
      {A : Type 0} (P : A → Type 0) (xs : List A) (y : A) (ys : List A)
      → All P (xs ++ y ∷ ys)
      → All P xs
  All-front P [] y ys h = tt
  All-front P (x ∷ xs) y ys (h, hs) = (h, All-front P xs y ys hs)

  key_if_other :
      (c : Certificate) (k : PrivateKey) (certs certs' : List Certificate)
      (rest : Option (Option PrivateKey))
      → HasFirst B certs'
      → FirstsDiffer (c ∷ certs) certs'
      → key_if B c k rest (first_of B certs') ≡ rest
  key_if_other c k certs [] rest first e = absurd first
  key_if_other c k certs (d ∷ certs') rest first e = rw e refl

  key_for-found :
      (before : List (CertificateInfo B)) (i : CertificateInfo B) (after : List (CertificateInfo B))
      (c : Certificate) (certs : List Certificate)
      → All (λ (j : CertificateInfo B). HasFirst B j.certs) before
      → AreDistinct (before ++ i ∷ after)
      → i.certs ≡ c ∷ certs
      → same_certificate c c ≡ true
      → key_for B c (before ++ i ∷ after) ≡ some (some i.key)
  unfolding key_for
  key_for-found [] i after c certs h d e same = rw (e, same) refl
  key_for-found (j ∷ before) i after c certs (h, hs) (d, ds) e same =
      let differ : FirstsDiffer (c ∷ certs) j.certs =
        subst (λ xs. FirstsDiffer xs j.certs) e
          (All-mid (λ (k : CertificateInfo B). FirstsDiffer k.certs j.certs) before i after d) in
      key_if_other c j.key certs j.certs (key_for B c (before ++ i ∷ after)) h differ
      ∙ key_for-found before i after c certs hs ds e same

  Serves-key :
      (is : List (CertificateInfo B)) (algos : List Text) (host : Text) (c : Certificate)
      (certs : List Certificate)
      → All (λ (j : CertificateInfo B). HasFirst B j.certs) is
      → AreDistinct is
      → same_certificate c c ≡ true
      → Serves B algos host is (c ∷ certs)
      → (k : PrivateKey) × (key_for B c is ≡ some (some k))
        × (value_exists algos (private_algo_name k) ≡ true)
  unfolding fits
  Serves-key is algos host c certs h d same (found before i after e unfit fit f) = (
    i.key,
    rw e (
        key_for-found before i after c certs
          (All-front _ before i after
            (subst (All (λ (j : CertificateInfo B). HasFirst B j.certs)) e h))
          (subst AreDistinct e d) (sym f) same),
    grind (arith, fit),
  )
  Serves-key is algos host c certs h d same (not_found unfit f) = absurd (grind (arith, f))

  -- In a provider whose chains have first certificates, all different, the certificate that stands
  -- first in the chain given to a server leads back to a private key, and this is of one of the
  -- algorithms that were asked for.
  pub private_key_for-find_cert_chain :
      (p : CredentialsProvider B) (algos : List Text) (acceptable_cas : List Name) (host : Text)
      (c : Certificate) (certs : List Certificate)
      → IsSound B p
      → AreDistinct p.m_certs
      → same_certificate c c ≡ true
      → find_cert_chain B p algos acceptable_cas (codes "tls-server") host ≡ some (c ∷ certs)
      → (k : PrivateKey) × (private_key_for B p c ≡ some (some k))
        × (value_exists algos (private_algo_name k) ≡ true)
  unfolding private_key_for
  private_key_for-find_cert_chain p algos acceptable_cas host c certs sound distinct same e =
      let (chain', f, s) = find_cert_chain-Serves B p algos acceptable_cas host sound in
      Serves-key p.m_certs algos host c certs sound distinct same
        (subst (Serves B algos host p.m_certs) (some_inj (sym f ∙ e)) s)

  raw_faults :
      (p q : CredentialsProvider B) (a : Text) (algos : List Text) (r : PublicKey)
      → p.m_raw_pubkey.public_key ≡ none
      → q.m_certs ≢ p.m_certs
      → Loads B p q
      → (find_raw_public_key B q (a ∷ algos) ≡ none) × (private_key_for_raw B q r ≡ none)
  unfolding find_raw_public_key private_key_for_raw
  raw_faults p q a algos r e new (raw_key k s f) = absurd (new (ap (λ x. x.m_certs) f))
  raw_faults p q a algos r e new (chain c certs k f) =
      let g : q.m_raw_pubkey.public_key ≡ none = ap (λ x. x.m_raw_pubkey.public_key) f ∙ e in
      (rw g refl, rw g refl)

  -- A provider of a server that has loaded a chain of certificates has no raw key: asked for a raw
  -- public key of some algorithm, or for the private key of one, it follows an empty pointer.
  pub raw_key-new_server :
      (server_cred server_key : Text) (psk : Option Secret) (psk_identity psk_prf : Option Text)
      (q : CredentialsProvider B) (a : Text) (algos : List Text) (r : PublicKey)
      → new_server B server_cred server_key psk psk_identity psk_prf ≡ some q
      → q.m_certs ≢ []
      → (find_raw_public_key B q (a ∷ algos) ≡ none) × (private_key_for_raw B q r ≡ none)
  unfolding new_server
  raw_key-new_server server_cred server_key psk psk_identity psk_prf q a algos r e new =
      let p = initial B psk psk_identity psk_prf in
      raw_faults p q a algos r refl new (load_credentials-Loads B p q server_cred server_key e)
