-- ===== src/Ipns/Parts.antt =====
-- `from_parts`, for signatures that were made elsewhere.
use rust_defluencer.Base.{
  ℕ, ◌≡◌, ◌≢◌, refl, sym, ap, ◌∙◌, [], ◌∷◌, ◌++◌, ok, and_then-returned, returned_unique, Result,
  err, panic,
}
use rust_defluencer.Ipns.{
  Bytes, IpnsRecord, DagCborDocument, CryptoKey, signature_prefix, Formats, document_of,
  signing_input_v2, or_unwrap, from_parts,
}

append_cancel : (xs ys zs : Bytes) → xs ++ ys ≡ xs ++ zs → ys ≡ zs
append_cancel [] ys zs h = h
append_cancel (x ∷ xs) ys zs h = append_cancel xs ys zs (ap tail_of h)
  where
    tail_of : Bytes → Bytes
    tail_of [] = []
    tail_of (a ∷ bs) = bs

module _ {C : Type 0} (formats : Formats C) where
  -- `signing_input_v2` returns the prefix with the encoding.
  signing_input_v2-returned :
      (cid : C) (validity : Bytes) (sequence ttl : ℕ) (signed : Bytes)
      → signing_input_v2 formats cid validity sequence ttl ≡ ok signed
      → (body : Bytes) × (formats.encode_document (document_of formats cid validity sequence ttl)
          ≡ ok body)
        × (signed ≡ signature_prefix ++ body)
  unfolding signing_input_v2
  signing_input_v2-returned cid validity sequence ttl signed run =
      let document = document_of formats cid validity sequence ttl in
      let (body, e, rest) =
        and_then-returned (or_unwrap formats (formats.encode_document document)) _ signed run in
      (
        body,
        unwrapped (formats.encode_document document) body e,
        returned_unique (ok signed) signed (signature_prefix ++ body) refl (sym rest),
      )
    where
      unwrapped : (o : Result Bytes) (body : Bytes) → or_unwrap formats o ≡ ok body → o ≡ ok body
      unwrapped (ok body') body e = e
      unwrapped (err x) body e = cc
      unwrapped panic body e = cc

  -- Where `from_parts` computes another end of validity than `signing_input_v2` did, as it does when
  -- the clock has moved between the calls, and both return: the data of the record, behind the
  -- prefix, are not what was signed.
  pub from_parts_later :
      (cid : C) (validity later : Bytes) (sequence ttl : ℕ) (key : CryptoKey) (s1 s2 signed : Bytes)
      (r : IpnsRecord)
      → validity ≢ later
      → signing_input_v2 formats cid validity sequence ttl ≡ ok signed
      → from_parts formats cid later sequence ttl key s1 s2 ≡ ok r
      → signature_prefix ++ r.signed_data ≢ signed
  unfolding from_parts
  from_parts_later cid validity later sequence ttl key s1 s2 signed r differ was run same =
      let then_document = document_of formats cid validity sequence ttl in
      let later_document = document_of formats cid later sequence ttl in
      let (body, e, prefixed) = signing_input_v2-returned cid validity sequence ttl signed was in
      let (body', e', last) = and_then-returned (formats.encode_document later_document) _ r run in
      let given : body' ≡ r.signed_data =
        ap (λ (q : IpnsRecord). q.signed_data) (returned_unique (ok r) _ r (sym last) refl) in
      let cancelled : r.signed_data ≡ body =
        append_cancel signature_prefix r.signed_data body (same ∙ prefixed) in
      let one : later_document ≡ then_document =
        returned_unique (formats.decode_document body') later_document then_document
          (formats.decode-encode later_document body' e')
          (ap formats.decode_document (given ∙ cancelled)
            ∙ formats.decode-encode then_document body e) in
      differ (sym (ap (λ (d : DagCborDocument). d.validity) one))
