-- ===== src/Ipns/Verify.antt =====
-- `verify` against `new`: a fresh record is accepted, and what is accepted was signed.
use rust_defluencer.Base.{
  ℕ, ◌≡◌, refl, sym, ◌∙◌, ap, ◌⊎◌, subst, inl, inr, true, false, [], ◌∷◌, ◌++◌, if◌then◌else◌, leb,
  length, Bool-cases, ok, and_then-returned, returned_unique, arith,
}
use rust_defluencer.Ipns.{
  Bytes, same_bytes, is_empty, CryptoKey, ValidityType, eol, IpnsRecord, DagCborDocument,
  signature_prefix, eol_text, Formats, get_value, get_sequence, hashed_address, key_bytes,
  same_document, verify, path_of, document_of, stored_key, RecordSigner, new,
}

pub same_bytes_refl : (xs : Bytes) → same_bytes xs xs ≡ true
unfolding same_bytes
same_bytes_refl [] = refl
same_bytes_refl (x ∷ xs) = ground (arith, same_bytes_refl xs)

pub eq_of_same_bytes : (xs ys : Bytes) → same_bytes xs ys ≡ true → xs ≡ ys
unfolding same_bytes
eq_of_same_bytes [] [] h = refl
eq_of_same_bytes [] (y ∷ ys) h = cc
eq_of_same_bytes (x ∷ xs) [] h = cc
eq_of_same_bytes (x ∷ xs) (y ∷ ys) h = ground (arith, eq_of_same_bytes xs ys)

pub one_validity : (v : ValidityType) → v ≡ eol
one_validity eol = refl

long-is_empty : (xs : Bytes) → leb (length xs) 42 ≡ false → is_empty xs ≡ false
long-is_empty [] h = cc
long-is_empty (x ∷ xs) h = refl

module _ {C : Type 0} (formats : Formats C) where
  -- The address of a key: it holds the encoded key where that is short, and is its hash otherwise.
  abbrev pub AddressOf : CryptoKey → C → Type 0
  AddressOf key addr =
      if leb (length (formats.encode_key key)) 42
      then formats.digest_of addr ≡ formats.encode_key key
      else addr ≡ hashed_address formats (formats.encode_key key)

  -- The document that the fields of a record make.
  abbrev pub document_in : IpnsRecord → DagCborDocument
  document_in r = record {
    value = r.value;
    validity_type = eol;
    validity = r.validity;
    sequence = r.sequence;
    ttl = r.ttl;
  }

  same_document-document_in : (r : IpnsRecord) → same_document formats (document_in r) r ≡ true
  unfolding same_document
  same_document-document_in r =
      rw (same_bytes_refl r.value, same_bytes_refl r.validity) (ground arith)

  key_bytes-stored_key :
      (key : CryptoKey) (addr : C) (r : IpnsRecord)
      → AddressOf key addr
      → r.pub_key ≡ stored_key formats key
      → key_bytes formats addr r ≡ ok (formats.encode_key key)
  unfolding key_bytes stored_key
  key_bytes-stored_key key addr r a e =
      elim (Bool-cases (leb (length (formats.encode_key key)) 42)) [
        | inl short ↦
            let none_stored : r.pub_key ≡ [] = e ∙ (rw short refl) in
            rw none_stored (
              ap ok (
                subst
                  (λ b.
                    if b
                    then formats.digest_of addr ≡ formats.encode_key key
                    else addr ≡ hashed_address formats (formats.encode_key key))
                  short a))
        | inr long ↦
            let all_stored : r.pub_key ≡ formats.encode_key key = e ∙ (rw long refl) in
            let at : addr ≡ hashed_address formats (formats.encode_key key) =
              subst
                (λ b.
                  if b
                  then formats.digest_of addr ≡ formats.encode_key key
                  else addr ≡ hashed_address formats (formats.encode_key key))
                long a in
            rw
              (
                all_stored,
                long-is_empty (formats.encode_key key) long,
                at,
                formats.same_cid_refl (hashed_address formats (formats.encode_key key)),
              )
              refl
      ]

  -- An encoded key belongs to an address: it is the one that the address holds where the record has
  -- no key, and otherwise the one of the record, whose hash is the address.
  abbrev pub BelongsTo : C → IpnsRecord → Bytes → Type 0
  BelongsTo addr r bytes =
      ((r.pub_key ≡ []) × (bytes ≡ formats.digest_of addr))
      ⊎ ((bytes ≡ r.pub_key) × (addr ≡ formats.address_of_hash (formats.sha256 r.pub_key)))

module _ {C : Type 0} (formats : Formats C) (signer : RecordSigner formats) where
  -- A record that `new` creates is accepted for the address of the signer's key, resolves to the
  -- identifier that it was created for, and has its sequence number.
  pub verify-new :
      (cid addr : C) (validity : Bytes) (sequence ttl : ℕ) (r : IpnsRecord)
      → AddressOf formats signer.crypto_key addr
      → new formats signer cid validity sequence ttl ≡ ok r
      → (verify formats addr r ≡ ok tt)
        × (get_value formats r ≡ ok cid)
        × (get_sequence formats r ≡ sequence)
  unfolding new verify get_value
  verify-new cid addr validity sequence ttl r a run =
      let document = document_of formats cid validity sequence ttl in
      let (s1, e1, rest) =
        and_then-returned (signer.try_sign (path_of formats cid ++ validity ++ eol_text)) _ r run in
      let (body, ed, rest') = and_then-returned (formats.encode_document document) _ r rest in
      let (s2, e2, last) =
        and_then-returned (signer.try_sign (signature_prefix ++ body)) _ r rest' in
      let made : IpnsRecord = record {
        value = path_of formats cid;
        signature_v1 = s1;
        validity_type = 0;
        validity = validity;
        sequence = sequence;
        ttl = ttl;
        pub_key = stored_key formats signer.crypto_key;
        signature_v2 = s2;
        signed_data = body;
      } in
      subst
        (λ q.
          (verify formats addr q ≡ ok tt)
          × (get_value formats q ≡ ok cid)
          × (get_sequence formats q ≡ sequence))
        (returned_unique (ok r) made r (sym last) refl)
        (
          rw
              (
                signer.is_empty-sign (signature_prefix ++ body) s2 e2,
                formats.is_empty-encode document body ed,
                key_bytes-stored_key formats signer.crypto_key addr made a refl,
                formats.decode_key-encode_key signer.crypto_key,
                formats.decode-encode document body ed,
                same_document-document_in formats made,
                signer.verify-sign (signature_prefix ++ body) s2 e2,
              )
              refl,
          rw (formats.cid_of-text_of cid, get_value) refl,
          refl,
        )
