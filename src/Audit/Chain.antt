-- ===== src/Audit/Chain.antt =====
-- packages/core/src/audit/chain.ts and the key ring of keys.ts: hashing, signing and chaining.
-- What Node's crypto, zod and Date give is the parameter `Platform`; `canonical` is the canonical
-- JSON of an object, given as its known fields and its further keys. It throws on a number that is
-- not finite: signing asks `is_json` for that, and a record that is verified has met the schema, which
-- has no such number.
use Prim.Native.String
use adgate.Prelude.{
  ℕ, String, Bool, true, false, ◌&&◌, Option, none, some, List, [], ◌∷◌, if◌then◌else◌, ◌==◌,
  string_eq,
}
use adgate.Schema.{Score, nan, num}
use adgate.Audit.Record.{AttestedBody, AuditRecord, UnsignedAuditRecord}

-- Keys that an object has beyond those of the schema.
abbrev pub Extras : Type 0
Extras = List (String × String)

-- content-hash.ts: the six fields that decide what the user sees and where a click goes.
pub record CreativeContent : Type 0 where
  pub advertiser : String
  pub advertiser_domain : String
  pub headline : String
  pub body : String
  pub cta : String
  pub url_template : String

pub record Platform : Type 0 where
  pub canonical : UnsignedAuditRecord → Extras → String
  pub canonical_body : AttestedBody → String
  pub canonical_content : CreativeContent → String
  pub sha256_prefixed : String → String
  -- Ed25519 by a private key in PEM; none where the key is unusable and the source throws.
  pub sign : String → String → Option String
  -- Ed25519 by a public key in PEM: text, signature, key.
  pub verify_with_public_key : String → String → String → Bool
  -- The hex digits that DIGEST_PATTERN matches, in lower case.
  pub digest_hex : String → Option String
  pub is_key_id : String → Bool
  pub formats_ok : AuditRecord → Bool
  pub is_hash : String → Bool
  pub is_timestamp : String → Bool
  pub date_parse : String → Option ℕ
  pub is_blank : String → Bool

abbrev pub genesis : String
genesis = "genesis"

pub record AuditSigningKey : Type 0 where
  pub key_id : String
  pub private_pem : String

-- The `prev_hash` of the record that follows `previous`.
unfoldable pub next_prev_hash : Option AuditRecord → String
next_prev_hash none = genesis
next_prev_hash (some previous) = previous.record_hash

-- The key ring: each `key_id` with its public key.
abbrev pub PublicKeyRing : Type 0
PublicKeyRing = List (String × String)

unfoldable pub ring_lookup : PublicKeyRing → String → Option String
ring_lookup [] key_id = none
ring_lookup ((k, pem) ∷ ring) key_id = if k == key_id then some pem else ring_lookup ring key_id

-- The scores are the numbers of a record that may be NaN, on which `canonicalize` throws.
abbrev pub is_finite : Score → Bool
is_finite nan = false
is_finite (num n) = true

unfoldable pub is_json : UnsignedAuditRecord → Bool
is_json u =
    is_finite u.body.content.classification.commercial_intent
    && is_finite u.body.content.classification.confidence

pub data KeyRingVerification : Type 0 where
  verified : String → KeyRingVerification
  unknown_key_id bad_signature : KeyRingVerification

module _ (platform : Platform) where
  open platform use {canonical, sha256_prefixed, sign, verify_with_public_key, is_key_id}

  unfoldable pub record_hash_input : UnsignedAuditRecord → Extras → String
  record_hash_input u extras = String.◌++◌ (canonical u extras) u.prev_hash

  unfoldable pub compute_record_hash : UnsignedAuditRecord → Extras → String
  unfolding record_hash_input
  compute_record_hash u extras = sha256_prefixed (record_hash_input u extras)

  abbrev pub with_signature : UnsignedAuditRecord → String → Option String → Option AuditRecord
  with_signature unsigned hash none = none
  with_signature unsigned hash (some signature) =
      some (record { unsigned = unsigned; record_hash = hash; signature = signature })

  abbrev pub signed_with : AuditSigningKey → UnsignedAuditRecord → Option AuditRecord
  signed_with signing unsigned =
      with_signature unsigned (compute_record_hash unsigned [])
        (sign (compute_record_hash unsigned []) signing.private_pem)

  -- none where the source throws AuditKeyError, or TypeError on a record that is not JSON.
  unfoldable pub sign_record : UnsignedAuditRecord → AuditSigningKey → Option AuditRecord
  sign_record given signing =
      if is_key_id signing.key_id
      then (if is_json given
          then signed_with signing (record given { key_id = signing.key_id })
          else none)
      else none

  unfoldable pub check_with_key : String → String → String → Option String → KeyRingVerification
  check_with_key hash signature key_id none = unknown_key_id
  check_with_key hash signature key_id (some pem) =
      if verify_with_public_key hash signature pem then verified key_id else bad_signature

  unfoldable pub ring_verify : PublicKeyRing → String → String → String → KeyRingVerification
  unfolding check_with_key
  ring_verify ring hash signature key_id =
      check_with_key hash signature key_id (ring_lookup ring key_id)
