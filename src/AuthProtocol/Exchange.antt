-- ===== src/AuthProtocol/Exchange.antt =====
-- What both hosts have after the three messages.
use schneeflocke.AuthProtocol.{State, AuthProtocol, Answers, own_cert, learn}
use schneeflocke.AuthProtocol.Handshake.{known, exchange_ends}
use schneeflocke.AuthProtocol.Wire.{Wire, new_protocol, answers, exchange, nothing}
use schneeflocke.Authentication.{
  Authentication, Certificate, CertType, fingerprint, update_cert, get_cert,
}
use schneeflocke.Base.{
  ◌≡◌, ◌≢◌, ◌⊎◌, refl, sym, subst, ◌∙◌, Bool, true, false, Option, none, some, [], ◌∷◌,
  if◌then◌else◌, Bytes, same, same_iff, same_refl, Bool-cases, inl, inr, arith, lookup-insert,
}
use schneeflocke.Error.{Error}

-- The own certificate is set, with its fingerprint, as `setIdentity` leaves it.
abbrev pub IsReady : Authentication → Certificate → Type 0
IsReady a c = (a.certificate ≡ some c) × (a.cert_fingerprint ≡ c.fingerprint)

abbrev pub HasCertificate : Option Authentication → Type 0
HasCertificate none = Unit {0}
HasCertificate (some a) = (c : Certificate) × IsReady a c

own_text :
    (keys : Bool) (a : Option Authentication) (fp : Bytes)
    → HasCertificate a
    → (t : Bytes) × (own_cert (if keys then a else none) fp ≡ some t)
unfolding own_cert
own_text false a fp h = ([], refl)
own_text true none fp h = ([], refl)
own_text true (some a) fp (c, (set, _)) = elim (Bool-cases (same fp a.cert_fingerprint)) [
  | inl e ↦ ([], rw e refl)
  | inr e ↦ (c.text, rw (e, set) refl)
]

-- Over a channel that works, and with or without an exchange of keys, the protocol comes to its end
-- on both sides when one host connects to another that expects this host or anybody: each side is
-- finished, has the other's name and tells `NoError` once, and each knows which of them began.
pub exchange-finished :
    (v : Wire) (keys : Bool) (imp : Bytes → Option Certificate) (version x y expected : Bytes)
    (sa sb : State) (a b : Option Authentication)
    → (expected ≡ []) ⊎ (expected ≡ x)
    → HasCertificate a
    → HasCertificate b
    → (p q : AuthProtocol) × (exchange v
          (answers keys imp version)
          expected
          (new_protocol x sa a)
          (new_protocol y sb b)
        ≡ some (p, q))
      × (p.state ≡ State.finished)
      × (q.state ≡ State.finished)
      × (p.other ≡ y)
      × (q.other ≡ x)
      × (p.told ≡ Error.no_error ∷ [])
      × (q.told ≡ Error.no_error ∷ [])
      × (p.was_active ≡ true)
      × (q.was_active ≡ false)
exchange-finished v keys imp version x y expected sa sb a b e ha hb =
    let (mine, f) = own_text keys b (known imp version x y keys a) hb in
    let (his, g) = own_text keys a [] ha in
    (
      _,
      _,
      exchange_ends imp version x y v keys expected mine his sa sb a b e f g,
      refl,
      refl,
      refl,
      refl,
      refl,
      refl,
      refl,
      refl,
    )

get-update :
    (i : Bytes) (c : Certificate) (a : Authentication)
    → get_cert i (update_cert i (record { type = CertType.peer; cert = some c }) a)
      ≡ record { type = CertType.peer; cert = some c }
unfolding get_cert update_cert
get-update i c a =
    ground (
      arith,
      lookup-insert i i (record { type = CertType.peer; cert = some c }) a.certs,
      same_refl i,
    )

learn-fingerprint :
    (w : Answers) (i : Bytes) (a : Authentication) (c : Certificate)
    → w.text_import c.text ≡ some c
    → c.text ≢ []
    → fingerprint (get_cert i (learn w i c.text a)) ≡ c.fingerprint
unfolding learn fingerprint
learn-fingerprint w i a c readable full = elim (Bool-cases (same c.text [])) [
  | inl e ↦ absurd (full ((same_iff c.text []).0 e))
  | inr e ↦ rw (e, readable, get-update i c a) refl
]

-- What the peer knows after a message with `t`, which `own_cert` chose for the fingerprint `fp`.
own_cert-learn :
    (w : Answers) (i fp t : Bytes) (own peer : Authentication) (c : Certificate)
    → IsReady own c
    → w.text_import c.text ≡ some c
    → c.text ≢ []
    → own_cert (some own) fp ≡ some t
    → (fp ≡ fingerprint (get_cert i peer)) ⊎ (fp ≢ c.fingerprint)
    → fingerprint (get_cert i (learn w i t peer)) ≡ c.fingerprint
unfolding own_cert
own_cert-learn w i fp t own peer c (set, same_fp) readable full e d =
    elim (Bool-cases (same fp own.cert_fingerprint)) [
      | inr other ↦
          let chosen : c.text ≡ t = ground (arith, other, set, e) in
          subst (λ (z : Bytes). fingerprint (get_cert i (learn w i z peer)) ≡ c.fingerprint) chosen
            (learn-fingerprint w i peer c readable full)
      | inl known_fp ↦
          let fits : fp ≡ c.fingerprint = (same_iff fp own.cert_fingerprint).0 known_fp ∙ same_fp in
          let chosen : [] ≡ t = ground (arith, known_fp, e) in
          elim d [
            | inr differs ↦ absurd (differs fits)
            | inl was ↦
                subst (λ (z : Bytes). fingerprint (get_cert i (learn w i z peer)) ≡ c.fingerprint)
                  chosen (unlearnt (sym was ∙ fits))
          ]
    ]
  where
    unlearnt :
        fingerprint (get_cert i peer) ≡ c.fingerprint
        → fingerprint (get_cert i (learn w i [] peer)) ≡ c.fingerprint
    unlearnt h = unfold learn same in h

-- Where keys are exchanged, the protocol leaves each side with a certificate of the other that has
-- the fingerprint of the other's own one, whatever either had stored before, provided that GnuTLS
-- reads back the texts of both and neither these nor the asking host's fingerprint is empty.
pub exchange-certificates :
    (v : Wire) (imp : Bytes → Option Certificate) (version x y expected : Bytes) (sa sb : State)
    (a b : Authentication) (c d : Certificate)
    → (expected ≡ []) ⊎ (expected ≡ x)
    → IsReady a c
    → IsReady b d
    → imp c.text ≡ some c
    → imp d.text ≡ some d
    → c.text ≢ []
    → d.text ≢ []
    → [] ≢ c.fingerprint
    → (p q : AuthProtocol) × (a' b' : Authentication) × (exchange v
          (answers true imp version)
          expected
          (new_protocol x sa (some a))
          (new_protocol y sb (some b))
        ≡ some (p, q))
      × (p.authentication ≡ some a')
      × (q.authentication ≡ some b')
      × (fingerprint (get_cert y a') ≡ d.fingerprint)
      × (fingerprint (get_cert x b') ≡ c.fingerprint)
exchange-certificates v imp version x y expected sa sb a b c d e ra rb rc rd tc td fc =
    let (mine, f) = own_text true (some b) (known imp version x y true (some a)) (d, rb) in
    let (his, g) = own_text true (some a) [] (c, ra) in
    (
      _,
      _,
      _,
      _,
      exchange_ends imp version x y v true expected mine his sa sb (some a) (some b) e f g,
      refl,
      refl,
      own_cert-learn (answers true imp version nothing) y _ mine b a d rb rd td f (inl refl),
      own_cert-learn (answers true imp version nothing) x [] his a b c ra rc tc g (inr fc),
    )
