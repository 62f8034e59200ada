-- ===== src/Tests/Codec.antt =====
-- A concrete code in place of Base64, and the hashes beside it.
use rfp_shred.Prelude.{
  All, Option, Text, [], ap, arith, false, if◌then◌else◌, length, none, refl, some, suc, zero, ℕ,
  ◌%◌, ◌++◌, ◌+◌, ◌-◌, ◌==◌, ◌∙◌, ◌∷◌, ◌≡◌,
}
use rfp_shred.Intake.Files.{Bytes}
use rfp_shred.Auth.Tokens.{padding, repeat, Crypto}
use rfp_shred.Auth.RoundTrip.{IsCodec}
use rfp_shred.Pipeline.TextUtils.{text_eq}

-- A code that writes each byte as as many letters, and an end after each.
abbrev letters : ℕ → Text → Text
letters zero t = 98 ∷ t
letters (suc n) t = 97 ∷ letters n t

abbrev pub encode : Bytes → Text
encode [] = []
encode (b ∷ bs) = letters b (encode bs)

abbrev decode_onto : ℕ → Text → Option Bytes
decode_onto n [] = some []
decode_onto n (x ∷ t) =
    let inside = decode_onto (suc n) t in
    let rest = put_byte (decode_onto 0 t) in
    if x == 97 then inside else if x == 98 then rest else some []
  where
    put_byte : Option Bytes → Option Bytes
    put_byte none = none
    put_byte (some bs) = some (n ∷ bs)

letters-decoded :
    (b n : ℕ) (t : Text) (bs : Bytes)
    → decode_onto 0 t ≡ some bs
    → decode_onto n (letters b t) ≡ some ((n + b) ∷ bs)
letters-decoded zero n t bs h = rw h (ap (λ k. some (k ∷ bs)) (omega arith))
letters-decoded (suc b) n t bs h =
    letters-decoded b (suc n) t bs h ∙ ap (λ k. some (k ∷ bs)) (omega arith)

encode-decoded :
    (b rest : Bytes) → decode_onto 0 rest ≡ some [] → decode_onto 0 (encode b ++ rest) ≡ some b
encode-decoded [] rest h = h
encode-decoded (b ∷ bs) rest h = rw (letters-append b (encode bs) rest) (
    letters-decoded b 0 (encode bs ++ rest) bs (encode-decoded bs rest h)
    ∙ ap (λ k. some (k ∷ bs)) (omega arith))
  where
    letters-append : (b : ℕ) (t u : Text) → letters b t ++ u ≡ letters b (t ++ u)
    letters-append zero t u = refl
    letters-append (suc b) t u = ap (λ v. 97 ∷ v) (letters-append b t u)

padding-decoded : (n : ℕ) → decode_onto 0 (repeat 61 n) ≡ some []
padding-decoded zero = refl
padding-decoded (suc n) = refl

letters_plain :
    (n : ℕ) (t : Text)
    → All (λ x. ((x == 61) ≡ false) × ((x == 46) ≡ false)) t
    → All (λ x. ((x == 61) ≡ false) × ((x == 46) ≡ false)) (letters n t)
letters_plain zero t plain = ((refl, refl), plain)
letters_plain (suc n) t plain = ((refl, refl), letters_plain n t plain)

encode_plain : (b : Bytes) → All (λ x. ((x == 61) ≡ false) × ((x == 46) ≡ false)) (encode b)
encode_plain [] = tt
encode_plain (b ∷ bs) = letters_plain b (encode bs) (encode_plain bs)

abbrev pub crypto : Crypto
crypto = record {
  b64encode = λ b. encode b ++ padding (encode b);
  b64decode = decode_onto 0;
  urlsafe_b64encode = λ b. encode b ++ padding (encode b);
  urlsafe_b64decode = decode_onto 0;
  utf8 = λ t. t;
  from_utf8 = λ b. some b;
  hmac_sha256 = λ k m. k;
  sha256_hex = λ b. "hash";
  pbkdf2 = λ p salt n. p;
  parse_int = λ t. some 1;
  argon2 = some (λ p. p, λ stored p. text_eq stored p);
}

pub codec : IsCodec crypto
codec = record {
  body = encode;
  body_padded = λ b. refl;
  body_plain = encode_plain;
  decoded = λ b.
      encode-decoded b (padding (encode b)) (padding-decoded ((4 - length (encode b) % 4) % 4));
  utf8_decoded = λ t. refl;
}
