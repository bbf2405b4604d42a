-- ===== src/Ipns.antt =====
-- ipns-records/src/lib.rs: IPNS records, which say what a name resolves to under a signature. The
-- formats of identifiers, keys and documents, the hash and the signature schemes are those of other
-- crates: parameters. So is the clock: the functions take the text of the end of validity,
-- `(Utc::now() + valid_for).to_rfc3339_opts(..)`, where the source computes it.
pub mod Verify
pub mod Parts
mod Tests
use rust_defluencer.Base.{
  ℕ, zero, suc, ◌≡◌, Bool, true, false, ◌&&◌, Option, none, some, List, [], ◌∷◌, ◌++◌,
  if◌then◌else◌, leb, ◌==◌, length, Error, empty_signature, empty_data, address_mismatch,
  data_mismatch, Result, ok, err, panic, and_then,
}

abbrev pub Bytes : Type 0
Bytes = List ℕ

unfoldable pub same_bytes : Bytes → Bytes → Bool
same_bytes [] [] = true
same_bytes [] (y ∷ ys) = false
same_bytes (x ∷ xs) [] = false
same_bytes (x ∷ xs) (y ∷ ys) = (x == y) && same_bytes xs ys

abbrev pub is_empty : Bytes → Bool
is_empty [] = true
is_empty (x ∷ xs) = false

pub data KeyType : Type 0 where
  rsa ed25519 secp256k1 ecdsa : KeyType

abbrev pub key_number : KeyType → ℕ
key_number rsa = 0
key_number ed25519 = 1
key_number secp256k1 = 2
key_number ecdsa = 3

-- The getter that prost derives: a number that is no variant reads as the first one.
abbrev pub key_type : ℕ → KeyType
key_type n = if n == 1 then ed25519 else if n == 2 then secp256k1 else if n == 3 then ecdsa else rsa

-- The fields `data` of keys and records have longer names here.
pub record CryptoKey : Type 0 where
  pub type_number : ℕ
  pub key_data : Bytes

-- `CryptoKey::new_ed15519_dalek`, `new_k256` and `new_p256`, on the encoded public key.
abbrev pub new_ed25519 : Bytes → CryptoKey
new_ed25519 key = record { type_number = key_number ed25519; key_data = key }

abbrev pub new_k256 : Bytes → CryptoKey
new_k256 key = record { type_number = key_number secp256k1; key_data = key }

abbrev pub new_p256 : Bytes → CryptoKey
new_p256 key = record { type_number = key_number ecdsa; key_data = key }

pub data ValidityType : Type 0 where
  eol : ValidityType

pub record IpnsRecord : Type 0 where
  pub value : Bytes
  pub signature_v1 : Bytes
  pub validity_type : ℕ
  pub validity : Bytes
  pub sequence : ℕ
  pub ttl : ℕ
  pub pub_key : Bytes
  pub signature_v2 : Bytes
  pub signed_data : Bytes

pub record DagCborDocument : Type 0 where
  pub value : Bytes
  pub validity_type : ValidityType
  pub validity : Bytes
  pub sequence : ℕ
  pub ttl : ℕ

-- `b"/ipfs/"`, `b"EOL"` and `b"ipns-signature:"`
abbrev pub ipfs_path : Bytes
ipfs_path = 0x2f ∷ 0x69 ∷ 0x70 ∷ 0x66 ∷ 0x73 ∷ 0x2f ∷ []

abbrev pub eol_text : Bytes
eol_text = 0x45 ∷ 0x4f ∷ 0x4c ∷ []

abbrev pub signature_prefix : Bytes
signature_prefix =
    0x69 ∷ 0x70 ∷ 0x6e ∷ 0x73 ∷ 0x2d ∷ 0x73 ∷ 0x69 ∷ 0x67 ∷ 0x6e ∷ 0x61 ∷ 0x74 ∷ 0x75 ∷ 0x72 ∷ 0x65
    ∷ 0x3a ∷ []

-- What the other crates give: identifiers `C`, with their text and the digest of their hash, the
-- address of a hashed key, the encodings, and the three signature schemes on encoded keys.
pub record Formats (C : Type 0) : Type 0 where
  pub text_of : C → Bytes
  pub cid_of : Bytes → Option C
  pub digest_of : C → Bytes
  pub same_cid : C → C → Bool
  pub sha256 : Bytes → Bytes
  pub address_of_hash : Bytes → C
  pub encode_key : CryptoKey → Bytes
  pub decode_key : Bytes → Result CryptoKey
  pub encode_document : DagCborDocument → Result Bytes
  pub decode_document : Bytes → Result DagCborDocument
  pub verify_ed25519 : Bytes → Bytes → Bytes → Result (Unit {0})
  pub verify_k256 : Bytes → Bytes → Bytes → Result (Unit {0})
  pub verify_p256 : Bytes → Bytes → Bytes → Result (Unit {0})
  -- A path `/ipfs/..` is read as the identifier in it.
  pub cid_of-text_of : (c : C) → cid_of (ipfs_path ++ text_of c) ≡ some c
  pub same_cid_refl : (c : C) → same_cid c c ≡ true
  pub eq_of_same_cid : (c d : C) → same_cid c d ≡ true → c ≡ d
  pub decode_key-encode_key : (k : CryptoKey) → decode_key (encode_key k) ≡ ok k
  pub decode-encode :
      (d : DagCborDocument) (body : Bytes)
      → encode_document d ≡ ok body
      → decode_document body ≡ ok d
  pub is_empty-encode :
      (d : DagCborDocument) (body : Bytes) → encode_document d ≡ ok body → is_empty body ≡ false

module _ {C : Type 0} (formats : Formats C) where
  -- The `match` at the end of `verify`.
  unfoldable pub verify_signature : KeyType → Bytes → Bytes → Bytes → Result (Unit {0})
  verify_signature rsa key message sig = panic
  verify_signature ed25519 key message sig = formats.verify_ed25519 key message sig
  verify_signature secp256k1 key message sig = formats.verify_k256 key message sig
  verify_signature ecdsa key message sig = formats.verify_p256 key message sig

  -- `get_value`: what does not parse panics.
  unfoldable pub get_value : IpnsRecord → Result C
  get_value r = elim (formats.cid_of r.value) [ none ↦ panic | some c ↦ ok c ]

  abbrev pub get_sequence : IpnsRecord → ℕ
  get_sequence r = r.sequence

  -- The address that is the hash of an encoded key.
  unfoldable pub hashed_address : Bytes → C
  hashed_address key = formats.address_of_hash (formats.sha256 key)

  -- `get_address`
  unfoldable pub get_address : IpnsRecord → Option C
  get_address r = if is_empty r.pub_key then none else some (hashed_address r.pub_key)

  -- The encoded key that `verify` uses: from the address where the record has none.
  unfoldable pub key_bytes : C → IpnsRecord → Result Bytes
  key_bytes addr r =
      if is_empty r.pub_key
      then ok (formats.digest_of addr)
      else if formats.same_cid (hashed_address r.pub_key) addr
      then ok r.pub_key
      else err address_mismatch

  -- `self.validity_type()` has one variant, and `!=` on it is false.
  unfoldable pub same_document : DagCborDocument → IpnsRecord → Bool
  same_document d r =
      same_bytes d.value r.value
      && (same_bytes d.validity r.validity && ((d.sequence == r.sequence) && (d.ttl == r.ttl)))

  -- `verify`
  unfoldable pub verify : C → IpnsRecord → Result (Unit {0})
  verify addr r =
      if is_empty r.signature_v2
      then err empty_signature
      else if is_empty r.signed_data
      then err empty_data
      else and_then (key_bytes addr r) (λ bytes. and_then (formats.decode_key bytes) (λ key.
        and_then (formats.decode_document r.signed_data) (λ document.
          if same_document document r
          then verify_signature (key_type key.type_number) key.key_data
              (signature_prefix ++ r.signed_data) r.signature_v2
          else err data_mismatch)))

  -- `format!("/ipfs/{}", cid.to_string()).into_bytes()`
  abbrev pub path_of : C → Bytes
  path_of cid = ipfs_path ++ formats.text_of cid

  abbrev pub document_of : C → Bytes → ℕ → ℕ → DagCborDocument
  document_of cid validity sequence ttl = record {
    value = path_of cid;
    validity_type = eol;
    validity = validity;
    sequence = sequence;
    ttl = ttl;
  }

  -- `signing_input_v1`
  unfoldable pub signing_input_v1 : C → Bytes → Bytes
  signing_input_v1 cid validity = path_of cid ++ validity ++ eol_text

  -- `to_vec(&document).expect(..)`
  abbrev pub or_unwrap : Result Bytes → Result Bytes
  or_unwrap (ok body) = ok body
  or_unwrap (err e) = panic
  or_unwrap panic = panic

  -- `signing_input_v2`
  unfoldable pub signing_input_v2 : C → Bytes → ℕ → ℕ → Result Bytes
  signing_input_v2 cid validity sequence ttl =
      and_then (or_unwrap (formats.encode_document (document_of cid validity sequence ttl)))
        (λ body. ok (signature_prefix ++ body))

  -- A key that fits in an address is left out of the record.
  unfoldable pub stored_key : CryptoKey → Bytes
  stored_key key = if leb (length (formats.encode_key key)) 42 then [] else formats.encode_key key

  -- `from_parts`
  unfoldable pub from_parts : C → Bytes → ℕ → ℕ → CryptoKey → Bytes → Bytes → Result IpnsRecord
  from_parts cid validity sequence ttl public_key signature_v1 signature_v2 =
      and_then (formats.encode_document (document_of cid validity sequence ttl)) (λ body.
        ok (record {
          value = path_of cid;
          signature_v1 = signature_v1;
          validity_type = 0;
          validity = validity;
          sequence = sequence;
          ttl = ttl;
          pub_key = stored_key public_key;
          signature_v2 = signature_v2;
          signed_data = body;
        }))

-- A `RecordSigner`: its key, and signatures that the key verifies.
pub record RecordSigner {C : Type 0} (formats : Formats C) : Type 0 where
  pub crypto_key : CryptoKey
  pub try_sign : Bytes → Result Bytes
  pub verify-sign :
      (message sig : Bytes)
      → try_sign message ≡ ok sig
      → verify_signature formats (key_type crypto_key.type_number) crypto_key.key_data message sig
        ≡ ok tt
  pub is_empty-sign : (message sig : Bytes) → try_sign message ≡ ok sig → is_empty sig ≡ false

module _ {C : Type 0} (formats : Formats C) (signer : RecordSigner formats) where
  -- `new`, and `async_new`, which is the same with an asynchronous signer.
  unfoldable pub new : C → Bytes → ℕ → ℕ → Result IpnsRecord
  new cid validity sequence ttl =
      let value = path_of formats cid in
      let document = document_of formats cid validity sequence ttl in
      and_then (signer.try_sign (value ++ validity ++ eol_text)) (λ signature_v1.
        and_then (formats.encode_document document) (λ body.
          and_then (signer.try_sign (signature_prefix ++ body)) (λ signature_v2. ok (record {
            value = value;
            signature_v1 = signature_v1;
            validity_type = 0;
            validity = validity;
            sequence = sequence;
            ttl = ttl;
            pub_key = stored_key formats signer.crypto_key;
            signature_v2 = signature_v2;
            signed_data = body;
          }))))
