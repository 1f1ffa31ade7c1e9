-- ===== src/Authentication.antt =====
-- libschnee/schnee/p2p/Authentication.cpp and Authentication.h: the certificates that a host keeps,
-- its own and those of its peers. What is behind a certificate is GnuTLS; here it is what the code
-- asks of it, its text, its fingerprint and its common name.
use schneeflocke.Base.{
  Bool, true, false, not, ◌||◌, Option, none, some, [], if◌then◌else◌, Bytes, Map, same, lookup,
  insert, erase,
}

pub record Certificate : Type 0 where
  pub text : Bytes
  pub fingerprint : Bytes
  pub common_name : Bytes

pub data CertType : Type 0 where
  peer error : CertType

-- `cert` may be a null pointer.
pub record CertInfo : Type 0 where
  pub type : CertType
  pub cert : Option Certificate

pub record Authentication : Type 0 where
  pub key_set : Bool
  pub identity : Bytes
  pub certificate : Option Certificate
  pub cert_fingerprint : Bytes
  pub certs : Map CertInfo

-- `CertInfo::fingerprint`.
unfoldable pub fingerprint : CertInfo → Bytes
fingerprint i = elim i.cert [ none ↦ [] | some c ↦ c.fingerprint ]

abbrev pub new_authentication : Authentication
new_authentication = record {
  key_set = false;
  identity = [];
  certificate = none;
  cert_fingerprint = [];
  certs = [];
}

-- `generate` makes a key and a certificate that it signs itself.
unfoldable pub set_identity : (Bytes → Certificate) → Bytes → Authentication → Authentication
set_identity generate identity a =
    let dn : Bytes = elim a.certificate [ none ↦ [] | some c ↦ c.common_name ] in
    let c = generate identity in
    if not a.key_set || not (same dn identity)
    then record a {
      identity = identity;
      key_set = true;
      certificate = some c;
      cert_fingerprint = c.fingerprint;
    }
    else record a { identity = identity }

is_ct_error : CertType → Bool
is_ct_error CertType.error = true
is_ct_error CertType.peer = false

-- A certificate that is missing or marked as wrong removes the entry.
unfoldable pub update_cert : Bytes → CertInfo → Authentication → Authentication
unfolding is_ct_error
update_cert identity info a = elim info.cert [
  | none ↦ record a { certs = erase identity a.certs }
  | some _ ↦
      if is_ct_error info.type
      then record a { certs = erase identity a.certs }
      else record a { certs = insert identity info a.certs }
]

unfoldable pub get_cert : Bytes → Authentication → CertInfo
get_cert identity a = elim (lookup identity a.certs) [
  | none ↦ record { type = CertType.error; cert = none }
  | some i ↦ i
]
