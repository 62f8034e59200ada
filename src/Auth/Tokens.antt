-- ===== src/Auth/Tokens.antt =====
-- app/core/security.py: the stored form of a password, and the reset token. Base64, UTF-8 and the keyed
-- hashes are parameters.
use rfp_shred.Prelude.{
  all, not, ltb, Bool, List, Option, String, Text, [], codes, false, if◌then◌else◌, length, none,
  some, suc, zero, ℕ, ◌%◌, ◌++◌, ◌-◌, ◌==◌, ◌∷◌,
}
use rfp_shred.Pipeline.TextUtils.{text_eq}
use rfp_shred.Pipeline.TextUtils.Containment.{starts_with}
use rfp_shred.Intake.Files.{Bytes}

-- `base64` (the url-safe alphabet too), `str.encode`, `bytes.decode`, `hmac` and `hashlib`. `b64decode` and
-- `from_utf8` give nothing where they raise; `argon2` is the password hasher, where it is installed, as its
-- hash and its check.
pub record Crypto : Type 0 where
  pub b64encode : Bytes → Text
  pub b64decode : Text → Option Bytes
  pub urlsafe_b64encode : Bytes → Text
  pub urlsafe_b64decode : Text → Option Bytes
  pub utf8 : Text → Bytes
  pub from_utf8 : Bytes → Option Text
  pub hmac_sha256 : Bytes → Bytes → Bytes
  pub sha256_hex : Bytes → String
  pub pbkdf2 : Bytes → Bytes → ℕ → Bytes
  pub parse_int : Text → Option ℕ
  pub argon2 : Option ((Text → Text) × (Text → Text → Bool))

-- `t.split(sep)` for a separator of one character.
unfoldable pub split_on : ℕ → Text → List Text
split_on sep [] = [] ∷ []
split_on sep (c ∷ t) = if c == sep then [] ∷ split_on sep t else onto_first (split_on sep t)
  where
    onto_first : List Text → List Text
    onto_first [] = (c ∷ []) ∷ []
    onto_first (p ∷ ps) = (c ∷ p) ∷ ps

abbrev pub unless_pad : ℕ → Text → Text
unless_pad c [] = if c == 61 then [] else c ∷ []
unless_pad c (d ∷ t) = c ∷ d ∷ t

-- `t.rstrip("=")`
unfoldable pub rstrip_pad : Text → Text
rstrip_pad [] = []
rstrip_pad (c ∷ t) = unless_pad c (rstrip_pad t)

abbrev pub repeat : ℕ → ℕ → Text
repeat c zero = []
repeat c (suc n) = c ∷ repeat c n

-- `"=" * (-len(t) % 4)`
abbrev pub padding : Text → Text
padding t = repeat 61 ((4 - length t % 4) % 4)

abbrev pub pbkdf2_iterations : ℕ
pbkdf2_iterations = 260000

module _ (c : Crypto) where
  abbrev pub hash_token : Text → String
  hash_token token = c.sha256_hex (c.utf8 token)

  abbrev pub pbkdf2_text : Bytes → Text → Text
  pbkdf2_text salt password =
      codes "pbkdf2$"
      ++ (codes "260000"
          ++ (36
              ∷ (c.b64encode salt
                  ++ (36 ∷ c.b64encode (c.pbkdf2 (c.utf8 password) salt pbkdf2_iterations)))))

  abbrev pub hash_with : Option ((Text → Text) × (Text → Text → Bool)) → Bytes → Text → Text
  hash_with none salt password = pbkdf2_text salt password
  hash_with (some (hash, verify)) salt password = hash password

  -- `salt` is what `secrets.token_bytes(16)` gives.
  unfoldable pub hash_password : (salt : Bytes) → Text → Text
  hash_password salt password = hash_with c.argon2 salt password

  abbrev pub same_digest : Text → Option ℕ → Option Bytes → Option Bytes → Bool
  same_digest password (some iterations) (some salt) (some digest) =
      text_eq (c.pbkdf2 (c.utf8 password) salt iterations) digest
  same_digest password _ _ _ = false

  abbrev pub verify_parts : Text → List Text → Bool
  verify_parts password (name ∷ iterations ∷ salt ∷ digest ∷ []) =
      same_digest password (c.parse_int iterations) (c.b64decode salt) (c.b64decode digest)
  verify_parts password _ = false

  abbrev pub verify_with : Option ((Text → Text) × (Text → Text → Bool)) → Text → Text → Bool
  verify_with none password stored = false
  verify_with (some (hash, verify)) password stored = verify stored password

  unfoldable pub verify_password : Text → Text → Bool
  unfolding starts_with split_on
  verify_password password stored =
      if starts_with (codes "pbkdf2$") stored
      then verify_parts password (split_on 36 stored)
      else verify_with c.argon2 password stored

  -- `base64.urlsafe_b64encode(...).decode().rstrip("=")`
  abbrev pub unpadded : Bytes → Text
  unpadded bytes = rstrip_pad (c.urlsafe_b64encode bytes)

  unfoldable pub reset_signature : Text → Text → Text → Text
  unfolding rstrip_pad
  reset_signature id_b64 rand_b64 app_secret =
      unpadded (c.hmac_sha256 (c.utf8 app_secret) (c.utf8 (id_b64 ++ 46 ∷ rand_b64)))

  -- `random_part` is what `secrets.token_bytes(32)` gives.
  unfoldable pub make_reset_token : (random_part : Bytes) → Text → Text → Text × String
  unfolding reset_signature rstrip_pad
  make_reset_token random_part account_id app_secret =
      let id_b64 = unpadded (c.utf8 account_id) in
      let rand_b64 = unpadded random_part in
      let token =
        id_b64 ++ (46 ∷ (rand_b64 ++ (46 ∷ reset_signature id_b64 rand_b64 app_secret))) in
      (token, hash_token token)

  abbrev pub decode_id : Option Bytes → Option Text
  decode_id none = none
  decode_id (some bytes) = c.from_utf8 bytes

  abbrev pub with_hash : Text → Option Text → Option (Text × String)
  with_hash token none = none
  with_hash token (some account_id) = some (account_id, hash_token token)

  abbrev pub parse_parts : Text → Text → List Text → Option (Text × String)
  parse_parts token app_secret (id_b64 ∷ rand_b64 ∷ sig ∷ []) =
      if text_eq (reset_signature id_b64 rand_b64 app_secret) sig
      then with_hash token (decode_id (c.urlsafe_b64decode (id_b64 ++ padding id_b64)))
      else none
  parse_parts token app_secret _ = none

  -- Where the signature is not ASCII, `parse_reset_token` raises instead: see `compare_raises`.
  unfoldable pub parse_reset_token : Text → Text → Option (Text × String)
  unfolding split_on reset_signature
  parse_reset_token token app_secret = parse_parts token app_secret (split_on 46 token)

-- `hmac.compare_digest` raises `TypeError` on a text that is not ASCII.
abbrev pub is_ascii : Text → Bool
is_ascii = all (λ c. ltb c 128)

abbrev pub parts_raise : List Text → Bool
parts_raise (id_b64 ∷ rand_b64 ∷ sig ∷ []) = not (is_ascii sig)
parts_raise _ = false

-- Whether `parse_reset_token` raises at its comparison of the signatures.
unfoldable pub compare_raises : Text → Bool
unfolding split_on
compare_raises token = parts_raise (split_on 46 token)
