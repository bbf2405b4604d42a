-- ===== src/Ipns/Tests.antt =====
-- Records under a toy format: identifiers are bytes, nothing is hashed, and a signature is the key
-- before the message.
use rust_defluencer.Base.{
  ◌≡◌, ◌≢◌, refl, sym, ap, subst, false, some, [], ◌∷◌, ◌++◌, if◌then◌else◌, Result, ok, err,
  signature, protobuf, decode, returned_unique, length, take, drop,
}
use rust_defluencer.Ipns.{
  Bytes, same_bytes, is_empty, CryptoKey, new_ed25519, eol, IpnsRecord, DagCborDocument, Formats,
  RecordSigner, new, verify, verify_signature, get_value, get_sequence, from_parts,
  signing_input_v2, signature_prefix, ipfs_path, signing_input_v1, stored_key,
}
use rust_defluencer.Ipns.Verify.{one_validity, same_bytes_refl, eq_of_same_bytes, verify-new}
use rust_defluencer.Ipns.Parts.{from_parts_later}

abbrev encode_key : CryptoKey → Bytes
encode_key k = k.type_number ∷ k.key_data

abbrev decode_key : Bytes → Result CryptoKey
decode_key [] = err protobuf
decode_key (n ∷ bs) = ok (record { type_number = n; key_data = bs })

abbrev document_bytes : DagCborDocument → Bytes
document_bytes d = d.sequence ∷ d.ttl ∷ length d.value ∷ d.value ++ d.validity

abbrev decode_document : Bytes → Result DagCborDocument
decode_document (s ∷ t ∷ n ∷ bs) =
    ok (record {
      value = take n bs;
      validity_type = eol;
      validity = drop n bs;
      sequence = s;
      ttl = t;
    })
decode_document _ = err decode

take-append : (xs ys : Bytes) → take (length xs) (xs ++ ys) ≡ xs
take-append [] ys = refl
take-append (x ∷ xs) ys = ap (λ zs. x ∷ zs) (take-append xs ys)

drop-append : (xs ys : Bytes) → drop (length xs) (xs ++ ys) ≡ ys
drop-append [] ys = refl
drop-append (x ∷ xs) ys = drop-append xs ys

decode-document_bytes : (d : DagCborDocument) → decode_document (document_bytes d) ≡ ok d
decode-document_bytes d = λ i. ok (record {
  value = take-append d.value d.validity i;
  validity_type = sym (one_validity d.validity_type) i;
  validity = drop-append d.value d.validity i;
  sequence = d.sequence;
  ttl = d.ttl;
})

encoded :
    (d : DagCborDocument) (body : Bytes) → ok (document_bytes d) ≡ ok body → document_bytes d ≡ body
encoded d body h = returned_unique (ok body) (document_bytes d) body (sym h) refl

abbrev check : Bytes → Bytes → Bytes → Result (Unit {0})
check key message sig = if same_bytes sig (key ++ message) then ok tt else err signature

abbrev formats : Formats Bytes
formats = record {
  text_of = λ c. c;
  cid_of = λ bs. some (drop 6 bs);
  digest_of = λ c. c;
  same_cid = same_bytes;
  sha256 = λ bs. bs;
  address_of_hash = λ bs. bs;
  encode_key = encode_key;
  decode_key = decode_key;
  encode_document = λ d. ok (document_bytes d);
  decode_document = decode_document;
  verify_ed25519 = check;
  verify_k256 = check;
  verify_p256 = check;
  cid_of-text_of = λ c. refl;
  same_cid_refl = same_bytes_refl;
  eq_of_same_cid = eq_of_same_bytes;
  decode_key-encode_key = λ k. refl;
  decode-encode = λ d body h.
      subst (λ b. decode_document b ≡ ok d) (encoded d body h) (decode-document_bytes d);
  is_empty-encode = λ d body h. subst (λ b. is_empty b ≡ false) (encoded d body h) refl;
}

abbrev key : CryptoKey
key = new_ed25519 (9 ∷ [])

signed : (message sig : Bytes) → ok (9 ∷ message) ≡ ok sig → 9 ∷ message ≡ sig
signed message sig h = returned_unique (ok sig) (9 ∷ message) sig (sym h) refl

sign_checks : (message sig : Bytes) → ok (9 ∷ message) ≡ ok sig → check (9 ∷ []) message sig ≡ ok tt
sign_checks message sig h =
    subst (λ b. check (9 ∷ []) message b ≡ ok tt) (signed message sig h)
      (rw (same_bytes_refl (9 ∷ message), check) refl)

abbrev signer : RecordSigner formats
signer = record {
  crypto_key = key;
  try_sign = λ message. ok (9 ∷ message);
  verify-sign = λ message sig h. unfold verify_signature in sign_checks message sig h;
  is_empty-sign = λ message sig h. subst (λ b. is_empty b ≡ false) (signed message sig h) refl;
}

-- A record for the identifier 1 2, valid until 5, created for the address of the key.
abbrev made : IpnsRecord
made = record {
  value = ipfs_path ++ 1 ∷ 2 ∷ [];
  signature_v1 = 9 ∷ ipfs_path ++ 1 ∷ 2 ∷ 5 ∷ 0x45 ∷ 0x4f ∷ 0x4c ∷ [];
  validity_type = 0;
  validity = 5 ∷ [];
  sequence = 3;
  ttl = 60;
  pub_key = [];
  signature_v2 = 9 ∷ signature_prefix ++ 3 ∷ 60 ∷ 8 ∷ ipfs_path ++ 1 ∷ 2 ∷ 5 ∷ [];
  signed_data = 3 ∷ 60 ∷ 8 ∷ ipfs_path ++ 1 ∷ 2 ∷ 5 ∷ [];
}

new_runs : new formats signer (1 ∷ 2 ∷ []) (5 ∷ []) 3 60 ≡ ok made
unfolding new stored_key
new_runs = refl

verify-new_example :
    (verify formats (1 ∷ 9 ∷ []) made ≡ ok tt)
    × (get_value formats made ≡ ok (1 ∷ 2 ∷ []))
    × (get_sequence formats made ≡ 3)
verify-new_example =
    verify-new formats signer (1 ∷ 2 ∷ []) (1 ∷ 9 ∷ []) (5 ∷ []) 3 60 made refl new_runs

input_runs :
    signing_input_v1 formats (1 ∷ 2 ∷ []) (5 ∷ [])
    ≡ ipfs_path ++ 1 ∷ 2 ∷ 5 ∷ 0x45 ∷ 0x4f ∷ 0x4c ∷ []
unfolding signing_input_v1
input_runs = refl

abbrev five : Bytes
five = 5 ∷ []

abbrev six : Bytes
six = 6 ∷ []

five_or_six : five ≢ six
five_or_six h = cc

later : IpnsRecord
later = record made { validity = 6 ∷ []; signed_data = 3 ∷ 60 ∷ 8 ∷ ipfs_path ++ 1 ∷ 2 ∷ 6 ∷ [] }

later_runs :
    from_parts formats (1 ∷ 2 ∷ []) (6 ∷ []) 3 60 key made.signature_v1 made.signature_v2 ≡ ok later
unfolding from_parts stored_key later
later_runs = refl

abbrev signed_bytes : Bytes
signed_bytes = signature_prefix ++ 3 ∷ 60 ∷ 8 ∷ ipfs_path ++ 1 ∷ 2 ∷ 5 ∷ []

signed_runs : signing_input_v2 formats (1 ∷ 2 ∷ []) (5 ∷ []) 3 60 ≡ ok signed_bytes
unfolding signing_input_v2
signed_runs = refl

from_parts_later_example : signature_prefix ++ later.signed_data ≢ signed_bytes
from_parts_later_example =
    from_parts_later formats (1 ∷ 2 ∷ []) (5 ∷ []) (6 ∷ []) 3 60 key made.signature_v1
      made.signature_v2 signed_bytes later five_or_six signed_runs later_runs
