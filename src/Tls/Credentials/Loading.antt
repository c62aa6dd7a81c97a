-- ===== src/Tls/Credentials/Loading.antt =====
-- What src/tls/botan/credentials.cpp loads: every chain has a first certificate.
use nimlib.Prelude.{
  ℕ, zero, suc, ◌<◌, ◌≡◌, refl, sym, inl, inr, Bool, false, Option, none, some, List, [], ◌∷◌, ◌++◌,
  All, arith, Bool-cases, some_inj, subst, ◌&&◌,
}
use nimlib.Prelude.Text.{Text}
use nimlib.Tls.Credentials.{
  Botan, KeyFile, loaded, decoding_error, other_error, CertificateInfo, CredentialsProvider,
}
use nimlib.Tls.Credentials.Making.{
  pushed, read_chain, with_chain, from_stream, with_public, with_private, load_credentials, initial,
  with_store, with_ca, with_client, with_system_store, then_system, then_client, new_client,
  new_server,
}

module _ (B : Botan) where
  open B use {
    Certificate, PrivateKey, PublicKey, Secret, Stream, end_of_data, read_certificate, remaining,
    open_stream, load_public_key, load_private_key, in_memory_store, has_system_store,
  }

  -- An attempt to read a certificate takes something from the stream.
  abbrev TakesSome : Type 0
  TakesSome = (s : Stream) → end_of_data s ≡ false → remaining (read_certificate s).1 < remaining s

  -- If every attempt to read a certificate from a stream that has not ended takes something from it,
  -- the loop over the certificates ends, whatever the attempts give.
  read_chain_total :
      (fuel : ℕ) (s : Stream) (certs : List Certificate)
      → TakesSome
      → remaining s < fuel
      → (chain : List Certificate) × (read_chain B fuel s certs ≡ some chain)
  unfolding read_chain
  read_chain_total zero s certs takes h = absurd (omega arith)
  read_chain_total (suc fuel) s certs takes h = elim (Bool-cases (end_of_data s)) [
    | inl e ↦ (certs, rw e refl)
    | inr e ↦
        let less = takes s e in
        let (chain, f) =
          read_chain_total fuel (read_certificate s).1 (pushed B certs (read_certificate s).0) takes
            (omega (arith, less, h)) in
        (chain, rw e f)
  ]

  -- A chain with a first certificate.
  abbrev pub HasFirst : List Certificate → Type 0
  HasFirst [] = ⊥
  HasFirst (c ∷ certs) = Unit

  abbrev pub IsSound : CredentialsProvider B → Type 0
  IsSound p = All (λ (i : CertificateInfo B). HasFirst i.certs) p.m_certs

  -- What is loaded: a raw key, or one more chain.
  pub data Loads (p q : CredentialsProvider B) : Type 0 where
    raw_key :
        (k : PrivateKey) (r : PublicKey)
        → q ≡ record p { m_raw_pubkey = record { private_key = some k; public_key = some r } }
        → Loads p q
    chain :
        (c : Certificate) (certs : List Certificate) (k : PrivateKey)
        → q ≡ record p { m_certs = p.m_certs ++ record { certs = c ∷ certs; key = k } ∷ [] }
        → Loads p q

  module _ (p q : CredentialsProvider B) where
    with_chain-Loads :
        (k : PrivateKey) (o : Option (List Certificate)) → with_chain B p k o ≡ some q → Loads p q
    with_chain-Loads k none e = absurd (grind (arith, e))
    with_chain-Loads k (some []) e = absurd (grind (arith, e))
    with_chain-Loads k (some (c ∷ certs)) e = chain c certs k (sym (some_inj e))

    from_stream-Loads :
        (k : PrivateKey) (o : Option Stream) → from_stream B p k o ≡ some q → Loads p q
    from_stream-Loads k none e = absurd (grind (arith, e))
    from_stream-Loads k (some s) e = with_chain-Loads k _ e

    with_public-Loads :
        (cred : Text) (k : PrivateKey) (o : KeyFile PublicKey)
        → with_public B p cred k o ≡ some q
        → Loads p q
    with_public-Loads cred k (loaded r) e = raw_key k r (sym (some_inj e))
    with_public-Loads cred k decoding_error e = from_stream-Loads k (open_stream cred) e
    with_public-Loads cred k other_error e = absurd (grind (arith, e))

    with_private-Loads :
        (cred : Text) (o : Option PrivateKey) → with_private B p cred o ≡ some q → Loads p q
    with_private-Loads cred none e = absurd (grind (arith, e))
    with_private-Loads cred (some k) e = with_public-Loads cred k (load_public_key cred) e

    -- If `load_credentials` returns, it has set the pair of raw keys, or has added one chain with a
    -- first certificate, and has changed nothing else.
    pub load_credentials-Loads :
        (cred key : Text) → load_credentials B p cred key ≡ some q → Loads p q
    unfolding load_credentials
    load_credentials-Loads cred key e = with_private-Loads cred (load_private_key key) e

  snoc-All :
      (is : List (CertificateInfo B)) (i : CertificateInfo B)
      → All (λ (i : CertificateInfo B). HasFirst i.certs) is
      → HasFirst i.certs
      → All (λ (i : CertificateInfo B). HasFirst i.certs) (is ++ i ∷ [])
  snoc-All [] i h k = (k, tt)
  snoc-All (j ∷ is) i (h, hs) k = (h, snoc-All is i hs k)

  Loads-IsSound : (p q : CredentialsProvider B) → Loads p q → IsSound p → IsSound q
  Loads-IsSound p q (raw_key k r e) h = subst IsSound (sym e) h
  Loads-IsSound p q (chain c certs k e) h =
      subst IsSound (sym e) (snoc-All p.m_certs (record { certs = c ∷ certs; key = k }) h tt)

  -- A provider that the constructor of a server makes has a first certificate in each chain.
  pub new_server-IsSound :
      (server_cred server_key : Text) (psk : Option Secret) (psk_identity psk_prf : Option Text)
      (q : CredentialsProvider B)
      → new_server B server_cred server_key psk psk_identity psk_prf ≡ some q
      → IsSound q
  unfolding new_server
  new_server-IsSound server_cred server_key psk psk_identity psk_prf q e =
      Loads-IsSound (initial B psk psk_identity psk_prf) q
        (load_credentials-Loads (initial B psk psk_identity psk_prf) q server_cred server_key e) tt

  with_store-IsSound :
      (p q : CredentialsProvider B) (o : Option B.Store)
      → IsSound p
      → with_store B p o ≡ some q
      → IsSound q
  with_store-IsSound p q none h e = absurd (grind (arith, e))
  with_store-IsSound p q (some s) h e = subst IsSound (some_inj e) h

  with_ca-IsSound :
      (p q : CredentialsProvider B) (path : Text)
      → IsSound p
      → with_ca B p path ≡ some q
      → IsSound q
  with_ca-IsSound p q [] h e = subst IsSound (some_inj e) h
  with_ca-IsSound p q (c ∷ path) h e = with_store-IsSound p q (in_memory_store (c ∷ path)) h e

  with_client-IsSound :
      (p q : CredentialsProvider B) (cred key : Option Text)
      → IsSound p
      → with_client B p cred key ≡ some q
      → IsSound q
  with_client-IsSound p q none none h e = subst IsSound (some_inj e) h
  with_client-IsSound p q none (some key) h e = absurd (grind (arith, e))
  with_client-IsSound p q (some cred) none h e = absurd (grind (arith, e))
  with_client-IsSound p q (some cred) (some key) h e =
      Loads-IsSound p q (load_credentials-Loads p q cred key e) h

  with_system-IsSound :
      (p : CredentialsProvider B) (use_system_store : Bool)
      → IsSound p
      → IsSound (with_system_store B p use_system_store)
  with_system-IsSound p use_system_store h =
      elim (Bool-cases (has_system_store && use_system_store)) [ inl e ↦ rw e h | inr e ↦ rw e h ]

  then_system-IsSound :
      (use_system_store : Bool) (o : Option (CredentialsProvider B)) (q : CredentialsProvider B)
      → ((p : CredentialsProvider B) → o ≡ some p → IsSound p)
      → then_system B use_system_store o ≡ some q
      → IsSound q
  then_system-IsSound use_system_store none q h e = absurd (grind (arith, e))
  then_system-IsSound use_system_store (some p) q h e =
      subst IsSound (some_inj e) (with_system-IsSound p use_system_store (h p refl))

  then_client-IsSound :
      (use_system_store : Bool) (cred key : Option Text) (o : Option (CredentialsProvider B))
      (q : CredentialsProvider B)
      → ((p : CredentialsProvider B) → o ≡ some p → IsSound p)
      → then_client B use_system_store cred key o ≡ some q
      → IsSound q
  then_client-IsSound use_system_store cred key none q h e = absurd (grind (arith, e))
  then_client-IsSound use_system_store cred key (some p) q h e =
      then_system-IsSound use_system_store (with_client B p cred key) q
        (λ r f. with_client-IsSound p r cred key (h p refl) f) e

  -- So has one that the constructor of a client makes.
  pub new_client-IsSound :
      (use_system_store : Bool) (ca_path : Text) (client_cred client_key : Option Text)
      (psk : Option Secret) (psk_identity psk_prf : Option Text) (q : CredentialsProvider B)
      → new_client B use_system_store ca_path client_cred client_key psk psk_identity psk_prf
        ≡ some q
      → IsSound q
  unfolding new_client
  new_client-IsSound use_system_store ca_path client_cred client_key psk psk_identity psk_prf q e =
      then_client-IsSound use_system_store client_cred client_key
        (with_ca B (initial B psk psk_identity psk_prf) ca_path) q
        (λ p f. with_ca-IsSound (initial B psk psk_identity psk_prf) p ca_path tt f) e
