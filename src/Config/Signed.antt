-- ===== src/Config/Signed.antt =====
-- Which configurations ConfigReceiver (src/config_receiver.cc) lets through.
use omniprobe.Prelude.{
  codes, ◌≡◌, refl, ap, ◌∙◌, Bool, true, false, List, [], ◌∷◌, Option, none, some, Bytes, ◌==◌,
  length, Option-cases, inl, inr, arith,
}
use omniprobe.Config.Decoding.{before_end, decode_lem}
use omniprobe.Config.{Libraries, Result, concat, verify_signature, receive_config}

abbrev pub is_nonempty : Bytes → Bool
is_nonempty [] = false
is_nonempty (b ∷ bs) = true

nonempty : (bs : Bytes) → (length bs == 0) ≡ false → is_nonempty bs ≡ true
nonempty [] h = absurd (cc h)
nonempty (b ∷ bs) h = refl

module _ {J K : Type 0} (lib : Libraries J K) (public_key : K) where
  -- The configuration is that of the message without its signature, and the signature, decoded piece by
  -- piece, is not empty and is verified for its text.
  pub record IsSigned (message : Option (List Bytes)) (config : J) : Type 0 where
    pub parts : List Bytes
    pub original : J
    pub signature_b64 : Bytes
    pub received : message ≡ some parts
    pub parsed : lib.parse (concat parts) ≡ some original
    pub signed : lib.string_member original (codes "signature") ≡ some signature_b64
    pub unsigned : config ≡ lib.erase_member original (codes "signature")
    pub decoded : is_nonempty (before_end (lib.bio_read signature_b64)) ≡ true
    pub verified :
        lib.verify_final public_key (lib.dump config) (before_end (lib.bio_read signature_b64)) ≡ 1

  signature_verified :
      (config : J) (signature_b64 : Bytes)
      → verify_signature lib public_key config signature_b64 ≡ Result.returned true
      → (is_nonempty (before_end (lib.bio_read signature_b64)) ≡ true)
        × (lib.verify_final public_key (lib.dump config) (before_end (lib.bio_read signature_b64))
            ≡ 1)
  unfolding verify_signature
  signature_verified config signature_b64 h =
      let bytes = before_end (lib.bio_read signature_b64) in
      let same = decode_lem (lib.bio_read signature_b64) signature_b64 in
      let there = λ (bs : Bytes) (e : (length bs == 0) ≡ false). nonempty bs e in
      (ground (arith, h, same, there bytes), ground (arith, h, same))

  -- If a configuration is received, it is signed: the message holds an object with a text as its
  -- signature, whose decoded bytes are not empty and are verified with the public key for the rest of
  -- the object, and that rest is the configuration.
  pub receive_config-IsSigned :
      (message : Option (List Bytes)) (config : J)
      → receive_config lib public_key message ≡ Result.returned config
      → IsSigned message config
  unfolding receive_config
  receive_config-IsSigned none config h = absurd (ground (arith, h))
  receive_config-IsSigned (some parts) config h = elim (Option-cases (lib.parse (concat parts))) [
    | inl p ↦ absurd (ground (arith, h, p))
    | inr (original, p) ↦ elim (Option-cases (lib.string_member original (codes "signature"))) [
      | inl s ↦ absurd (ground (arith, h, p, s))
      | inr (signature_b64, s) ↦
          let rest = lib.erase_member original (codes "signature") in
          let same : config ≡ rest = ground (arith, h, p, s) in
          let passed : verify_signature lib public_key rest signature_b64 ≡ Result.returned true =
            ground (arith, h, p, s) in
          let (decoded, verified) = signature_verified rest signature_b64 passed in
          record {
            parts = parts;
            original = original;
            signature_b64 = signature_b64;
            received = refl;
            parsed = p;
            signed = s;
            unsigned = same;
            decoded = decoded;
            verified =
                ap
                  (λ c.
                    lib.verify_final public_key (lib.dump c)
                      (before_end (lib.bio_read signature_b64)))
                  same
                ∙ verified;
          }
    ]
  ]
