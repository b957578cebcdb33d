-- ===== src/Config.antt =====
-- ConfigReceiver of src/config_receiver.cc: a configuration that arrives as a message is used only with
-- a signature. The JSON library, OpenSSL and the socket are parameters; BIO_read gives the decoded
-- bytes in pieces. `none` of a parameter is its failure.
pub mod Decoding
pub mod Signed
use mathlib.Core.List.{append_assoc, append-nil}
use omniprobe.Prelude.{
  ℕ, codes, zero, suc, ◌+◌, ◌-◌, ◌≤◌, ◌≡◌, refl, sym, ap, ◌∙◌, Bool, true, false, not, ◌&&◌, List,
  [], ◌∷◌, ◌++◌, Option, none, some, Bytes, if◌then◌else◌, ◌==◌, ltb, length, take, drop, replicate,
  length-append, length-take, length-replicate, Option-cases, Bool-cases, inl, inr, arith,
}

-- The code outside, over the type of JSON values and of public keys.
pub record Libraries (J K : Type 0) : Type 0 where
  pub parse : Bytes → Option J
  pub string_member : J → Bytes → Option Bytes
  pub erase_member : J → Bytes → J
  pub dump : J → Bytes
  pub bio_read : Bytes → List Bytes
  pub new_context : Bool
  pub verify_init : K → Bool
  pub verify_update : Bytes → Bool
  pub verify_final : K → Bytes → Bytes → ℕ

-- What a call ends with: an exception, or a value.
pub data Result {ℓ} (A : Type ℓ) : Type ℓ where
  thrown : Result A
  returned : A → Result A

-- `resize`.
abbrev pub resize : ℕ → Bytes → Bytes
resize n bytes = take n bytes ++ replicate (n - length bytes) 0

-- A piece copied to a place inside.
abbrev pub copy_to : ℕ → Bytes → Bytes → Bytes
copy_to at piece bytes = take at bytes ++ (piece ++ drop (at + length piece) bytes)

-- The loop over the pieces that are read: the vector, and the length that is decoded.
unfoldable pub read_all : List Bytes → Bytes → ℕ → Bytes × ℕ
read_all [] signature decoded_len = (signature, decoded_len)
read_all ([] ∷ pieces) signature decoded_len = (signature, decoded_len)
read_all ((b ∷ bs) ∷ pieces) signature decoded_len =
    let end = decoded_len + length (b ∷ bs) in
    let large = if ltb (length signature) end then resize end signature else signature in
    read_all pieces (copy_to decoded_len (b ∷ bs) large) end

-- The bytes of the signature, and their number.
unfoldable pub decode : List Bytes → Bytes → Bytes × ℕ
unfolding read_all
decode pieces signature_b64 =
    let read = read_all pieces (replicate (length signature_b64) 0) 0 in
    (resize read.1 read.0, read.1)

abbrev pub concat : List Bytes → Bytes
concat [] = []
concat (piece ∷ pieces) = piece ++ concat pieces

module _ {J K : Type 0} (lib : Libraries J K) (public_key : K) where
  unfoldable pub verify_signature : J → Bytes → Result Bool
  unfolding decode
  verify_signature config signature_b64 =
      let signature = decode (lib.bio_read signature_b64) signature_b64 in
      if signature.1 == 0
      then thrown
      else if not lib.new_context
      then thrown
      else returned (
          (lib.verify_init public_key && lib.verify_update (lib.dump config))
          && lib.verify_final public_key (lib.dump config) signature.0 == 1)

  -- receive_config, given the parts of the message, and "signature".
  unfoldable pub receive_config : Option (List Bytes) → Result J
  unfolding verify_signature
  receive_config none = thrown
  receive_config (some parts) = elim (lib.parse (concat parts)) [
    | none ↦ thrown
    | some config ↦ elim (lib.string_member config (codes "signature")) [
      | none ↦ thrown
      | some signature_b64 ↦
          let unsigned = lib.erase_member config (codes "signature") in
          elim (verify_signature unsigned signature_b64) [
            | thrown ↦ thrown
            | returned verified ↦ if verified then returned unsigned else thrown
          ]
    ]
  ]
