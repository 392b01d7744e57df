-- ===== src/Probe/Key.antt =====
-- Where the key of security/tls_peer_key.py comes from, and what a runner concludes from a probe.
use model_runner_client.Base.{
  Bool-cases, inl, inr, ◌≢◌, not, ◌≡◌, ◌↔◌, refl, Bool, true, false, Option, none, some, String,
  arith,
}
use model_runner_client.Base.Eq.{◌==◌, string_equality}
use model_runner_client.Runner.{PeerTlsRsaKey}
use model_runner_client.Probe.{
  SocketException, verification_failed, ssl_error, os_error, unexpected, found, fails, ProbeFailure,
  closed_after_handshake, no_certificate, ReadEnd, received, read_raises, cut_off, Session, Opening,
  opened, open_raises, open_cut_off, left_open, PublicKey, rsa_public_key, other_public_key, X509,
  connect_exception, extract_key, read_certificate, inspect, after_read, after_open,
  fetch_peer_rsa_spki_mtls,
}

fails_ne_found : (why : ProbeFailure) (p : PeerTlsRsaKey) → fails why ≢ found p
fails_ne_found why p e = cc

-- A byte came before the end of the stream.
abbrev pub has_byte : ReadEnd → Bool
has_byte (received b) = not (b == "")
has_byte _ = false

-- The first byte came, if it was waited for.
abbrev pub is_ready : Bool → Session → Bool
is_ready true s = has_byte s.first_read
is_ready false s = true

connect_exception-found : (e : SocketException) (p : PeerTlsRsaKey) → connect_exception e ≢ found p
unfolding connect_exception
connect_exception-found (verification_failed code msg) p h = cc
connect_exception-found (ssl_error t) p h = cc
connect_exception-found (os_error t) p h = cc
connect_exception-found (unexpected t) p h = cc

module _ {Cert : Type 0} (x : X509 Cert) where
  -- The TLS layer returned a certificate with an RSA key.
  abbrev pub HasRsaLeaf : Option (Option String) → PeerTlsRsaKey → Type 0
  HasRsaLeaf ssl_object p =
      (leaf_der : String) × (cert : Cert) × (k : String) × (ssl_object ≡ some (some leaf_der))
      × ((leaf_der == "") ≡ false)
      × (x.load_der leaf_der ≡ some cert)
      × (x.public_key cert ≡ some (rsa_public_key k))
      × (p ≡ record { leaf_cert_pem = x.pem_bytes cert; spki_der = x.spki_bytes k })

  extract_key-found :
      (cert : Cert) (o : Option PublicKey) (p : PeerTlsRsaKey)
      → extract_key x cert o ≡ found p
      → (k : String) × (o ≡ some (rsa_public_key k))
        × (p ≡ record { leaf_cert_pem = x.pem_bytes cert; spki_der = x.spki_bytes k })
  unfolding extract_key
  extract_key-found cert none p e = cc
  extract_key-found cert (some (rsa_public_key k)) p e = (k, refl, cc)
  extract_key-found cert (some other_public_key) p e = cc

  read_certificate-found :
      (o : Option Cert) (p : PeerTlsRsaKey)
      → read_certificate x o ≡ found p
      → (cert : Cert) × (k : String) × (o ≡ some cert)
        × (x.public_key cert ≡ some (rsa_public_key k))
        × (p ≡ record { leaf_cert_pem = x.pem_bytes cert; spki_der = x.spki_bytes k })
  unfolding read_certificate
  read_certificate-found none p e = cc
  read_certificate-found (some cert) p e =
      let (k, h, q) = extract_key-found cert (x.public_key cert) p e in (cert, k, refl, h, q)

  inspect-found :
      (o : Option (Option String)) (p : PeerTlsRsaKey) → inspect x o ≡ found p → HasRsaLeaf o p
  unfolding inspect
  inspect-found none p e = cc
  inspect-found (some none) p e = cc
  inspect-found (some (some der)) p e = elim (Bool-cases (der == "")) [
    | inl h ↦ absurd (fails_ne_found no_certificate p (rw h at e))
    | inr h ↦
        let (cert, k, l, h', q) = read_certificate-found (x.load_der der) p (rw h at e) in
        (der, cert, k, refl, h, l, h', q)
  ]

  inspect-finds :
      (o : Option (Option String)) (p : PeerTlsRsaKey) → HasRsaLeaf o p → inspect x o ≡ found p
  unfolding inspect read_certificate extract_key
  inspect-finds o p (der, cert, k, a, b, d, e, q) = simp (a, b, d, e, q) refl

  -- The connection was opened, and the leaf certificate was read from it.
  abbrev pub IsProbed : Bool → Opening → PeerTlsRsaKey → Type 0
  IsProbed check o p =
      (s : Session) × (o ≡ opened s) × (is_ready check s ≡ true) × HasRsaLeaf s.ssl_object p

  after_read-found :
      (r : ReadEnd) (s : Session) (p : PeerTlsRsaKey)
      → (after_read x r s).1 ≡ found p
      → (has_byte r ≡ true) × HasRsaLeaf s.ssl_object p
  unfolding after_read
  after_read-found (received b) s p e = elim (Bool-cases (b == "")) [
    | inl h ↦ absurd (fails_ne_found closed_after_handshake p (rw h at e))
    | inr h ↦ (rw h refl, inspect-found s.ssl_object p (rw h at e))
  ]
  after_read-found (read_raises t) s p e = absurd (connect_exception-found t p e)
  after_read-found cut_off s p e = cc

  after_read-finds :
      (r : ReadEnd) (s : Session) (p : PeerTlsRsaKey)
      → has_byte r ≡ true
      → HasRsaLeaf s.ssl_object p
      → (after_read x r s).1 ≡ found p
  unfolding after_read
  after_read-finds (received b) s p h l = elim (Bool-cases (b == "")) [
    | inl e ↦ ground arith
    | inr e ↦ rw e (inspect-finds s.ssl_object p l)
  ]
  after_read-finds (read_raises t) s p h l = cc
  after_read-finds cut_off s p h l = cc

  after_open-found :
      (check : Bool) (s : Session) (p : PeerTlsRsaKey)
      → ((after_open x check s).1 ≡ found p)
        ↔ ((is_ready check s ≡ true) × HasRsaLeaf s.ssl_object p)
  unfolding after_open
  after_open-found true s p =
      (after_read-found s.first_read s p, λ (h, l). after_read-finds s.first_read s p h l)
  after_open-found false s p =
      (λ e. (refl, inspect-found s.ssl_object p e), λ (h, l). inspect-finds s.ssl_object p l)

  fetch_peer_rsa_spki_mtls-found :
      (check : Bool) (o : Opening) (p : PeerTlsRsaKey)
      → (fetch_peer_rsa_spki_mtls x check o).1 ≡ found p
      → IsProbed check o p
  unfolding fetch_peer_rsa_spki_mtls
  fetch_peer_rsa_spki_mtls-found check (opened s) p e =
      let (h, l) = (after_open-found check s p).0 e in (s, refl, h, l)
  fetch_peer_rsa_spki_mtls-found check (open_raises t) p e = absurd (connect_exception-found t p e)
  fetch_peer_rsa_spki_mtls-found check open_cut_off p e = cc

  fetch_peer_rsa_spki_mtls-finds :
      (check : Bool) (o : Opening) (p : PeerTlsRsaKey)
      → IsProbed check o p
      → (fetch_peer_rsa_spki_mtls x check o).1 ≡ found p
  unfolding fetch_peer_rsa_spki_mtls
  fetch_peer_rsa_spki_mtls-finds check o p (s, a, h, l) =
      rw a ((after_open-found check s p).1 (h, l))

  after_read-left_open :
      (r : ReadEnd) (s : Session) → ((after_read x r s).0 ≡ left_open) ↔ (has_byte r ≡ false)
  unfolding after_read
  after_read-left_open (received b) s = ground arith
  after_read-left_open (read_raises t) s = ground arith
  after_read-left_open cut_off s = ground arith

  after_open-left_open :
      (check : Bool) (s : Session)
      → ((after_open x check s).0 ≡ left_open) ↔ (is_ready check s ≡ false)
  unfolding after_open
  after_open-left_open true s = after_read-left_open s.first_read s
  after_open-left_open false s = ground arith

  fetch_peer_rsa_spki_mtls-left_open :
      (check : Bool) (o : Opening)
      → (fetch_peer_rsa_spki_mtls x check o).0 ≡ left_open
      → (s : Session) × (o ≡ opened s) × (is_ready check s ≡ false)
  unfolding fetch_peer_rsa_spki_mtls
  fetch_peer_rsa_spki_mtls-left_open check (opened s) e =
      (s, refl, (after_open-left_open check s).0 e)
  fetch_peer_rsa_spki_mtls-left_open check (open_raises t) e = cc
  fetch_peer_rsa_spki_mtls-left_open check open_cut_off e = cc

  fetch_peer_rsa_spki_mtls-leaves_open :
      (check : Bool) (o : Opening) (s : Session)
      → o ≡ opened s
      → is_ready check s ≡ false
      → (fetch_peer_rsa_spki_mtls x check o).0 ≡ left_open
  unfolding fetch_peer_rsa_spki_mtls
  fetch_peer_rsa_spki_mtls-leaves_open check o s a h = rw a ((after_open-left_open check s).1 h)

  -- The probe gives a key exactly if the connection was opened, its first byte came where the probe
  -- waits for it, and the TLS layer returned a certificate with an RSA key: it is that key, with that
  -- certificate. The transport is left open exactly if the connection was opened and the awaited
  -- first byte did not come: in all other cases an opened connection is aborted.
  pub fetch_peer_rsa_spki_mtls_lem :
      (check : Bool) (o : Opening)
      → ((p : PeerTlsRsaKey)
          → ((fetch_peer_rsa_spki_mtls x check o).1 ≡ found p) ↔ IsProbed check o p)
        × (((fetch_peer_rsa_spki_mtls x check o).0 ≡ left_open)
            ↔ ((s : Session) × (o ≡ opened s) × (is_ready check s ≡ false)))
  fetch_peer_rsa_spki_mtls_lem check o = (
    λ p. (fetch_peer_rsa_spki_mtls-found check o p, fetch_peer_rsa_spki_mtls-finds check o p),
    (
      fetch_peer_rsa_spki_mtls-left_open check o,
      λ (s, a, h). fetch_peer_rsa_spki_mtls-leaves_open check o s a h,
    ),
  )
