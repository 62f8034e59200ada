-- ===== src/Auth/RoundTrip.antt =====
-- app/core/security.py: the token that is made is the one that is read, and no other is accepted.
use rfp_shred.Prelude.{
  ==_iff, All, Bool-cases, List, Option, String, Text, [], ap, false, inl, inr, length, none, refl,
  some, suc, sym, zero, ℕ, ◌%◌, ◌++◌, ◌-◌, ◌==◌, ◌∙◌, ◌∷◌, ◌≡◌,
}
use rfp_shred.Intake.Files.{Bytes}
use rfp_shred.Auth.Tokens.{
  decode_id, parse_parts, with_hash, hash_token, reset_signature, unless_pad, make_reset_token,
  repeat, parse_reset_token, unpadded, split_on, rstrip_pad, padding, Crypto,
}
use rfp_shred.Pipeline.TextUtils.{text_eq}
use rfp_shred.Pipeline.TextUtils.Distance.{text_eq-eq, text_eq_refl}

-- What Base64 promises: an encoded text is a body without the padding character and without a dot,
-- padded to a length divisible by four, and decoding it gives the bytes back. UTF-8 is read back too.
pub record IsCodec (c : Crypto) : Type 0 where
  pub body : Bytes → Text
  pub body_padded : (b : Bytes) → c.urlsafe_b64encode b ≡ body b ++ padding (body b)
  pub body_plain : (b : Bytes) → All (λ x. ((x == 61) ≡ false) × ((x == 46) ≡ false)) (body b)
  pub decoded : (b : Bytes) → c.urlsafe_b64decode (c.urlsafe_b64encode b) ≡ some b
  pub utf8_decoded : (t : Text) → c.from_utf8 (c.utf8 t) ≡ some t

rstrip_pad-repeat : (n : ℕ) → rstrip_pad (repeat 61 n) ≡ []
unfolding rstrip_pad
rstrip_pad-repeat zero = refl
rstrip_pad-repeat (suc n) = rw (rstrip_pad-repeat n) refl

rstrip_pad-body :
    (t : Text) (n : ℕ)
    → All (λ x. ((x == 61) ≡ false) × ((x == 46) ≡ false)) t
    → rstrip_pad (t ++ repeat 61 n) ≡ t
unfolding rstrip_pad
rstrip_pad-body [] n plain = rstrip_pad-repeat n
rstrip_pad-body (x ∷ t) n plain = rw (rstrip_pad-body t n plain.1) (for_rest t)
  where
    for_rest : (u : Text) → unless_pad x u ≡ x ∷ u
    for_rest [] = rw plain.0.0 refl
    for_rest (y ∷ u) = refl

split_on-plain :
    (t rest : Text)
    → All (λ x. ((x == 61) ≡ false) × ((x == 46) ≡ false)) t
    → split_on 46 (t ++ 46 ∷ rest) ≡ t ∷ split_on 46 rest
unfolding split_on
split_on-plain [] rest plain = refl
split_on-plain (x ∷ t) rest plain = rw (plain.0.1, split_on-plain t rest plain.1) refl

split_on-last :
    (t : Text) → All (λ x. ((x == 61) ≡ false) × ((x == 46) ≡ false)) t → split_on 46 t ≡ t ∷ []
unfolding split_on
split_on-last [] plain = refl
split_on-last (x ∷ t) plain = rw (plain.0.1, split_on-last t plain.1) refl

module _ (c : Crypto) (codec : IsCodec c) where
  unpadded-body : (b : Bytes) → unpadded c b ≡ codec.body b
  unpadded-body b =
      rw (codec.body_padded b)
        (rstrip_pad-body (codec.body b) ((4 - length (codec.body b) % 4) % 4) (codec.body_plain b))

  unpadded_plain : (b : Bytes) → All (λ x. ((x == 61) ≡ false) × ((x == 46) ≡ false)) (unpadded c b)
  unpadded_plain b = rw (unpadded-body b) (codec.body_plain b)

  unpadded_decoded :
      (b : Bytes) → c.urlsafe_b64decode (unpadded c b ++ padding (unpadded c b)) ≡ some b
  unpadded_decoded b = rw (unpadded-body b, ← codec.body_padded b) (codec.decoded b)

  reset_signature_plain :
      (a b secret : Text)
      → All (λ x. ((x == 61) ≡ false) × ((x == 46) ≡ false)) (reset_signature c a b secret)
  unfolding reset_signature
  reset_signature_plain a b secret =
      unpadded_plain (c.hmac_sha256 (c.utf8 secret) (c.utf8 (a ++ 46 ∷ b)))

  -- A token that was made for an account is read back as that account's, with the hash that was stored,
  -- where Base64 and UTF-8 decode what they encode.
  pub parse_reset_token-make :
      (random_part : Bytes) (account_id app_secret : Text)
      → let made = make_reset_token c random_part account_id app_secret in
        parse_reset_token c made.0 app_secret ≡ some (account_id, made.1)
  unfolding parse_reset_token make_reset_token
  parse_reset_token-make random_part account_id app_secret =
      let a = unpadded c (c.utf8 account_id) in
      let b = unpadded c random_part in
      let sig = reset_signature c a b app_secret in
      let parts : split_on 46 (a ++ (46 ∷ (b ++ (46 ∷ sig)))) ≡ a ∷ b ∷ sig ∷ [] =
        split_on-plain a (b ++ 46 ∷ sig) (unpadded_plain (c.utf8 account_id))
        ∙ ap (λ ps. a ∷ ps)
            (split_on-plain b sig (unpadded_plain random_part)
              ∙ ap (λ ps. b ∷ ps) (split_on-last sig (reset_signature_plain a b app_secret))) in
      rw
        (
          parts,
          text_eq_refl sig,
          unpadded_decoded (c.utf8 account_id),
          codec.utf8_decoded account_id,
        )
        refl

abbrev join_dots : List Text → Text
join_dots [] = []
join_dots (t ∷ []) = t
join_dots (t ∷ u ∷ us) = t ++ 46 ∷ join_dots (u ∷ us)

split_on-cons : (sep : ℕ) (t : Text) → (p : Text) × (ps : List Text) × (split_on sep t ≡ p ∷ ps)
unfolding split_on
split_on-cons sep [] = ([], [], refl)
split_on-cons sep (x ∷ t) =
    let (p, ps, e) = split_on-cons sep t in
    elim (Bool-cases (x == sep)) [
      | inl y ↦ ([], split_on sep t, rw y refl)
      | inr y ↦ (x ∷ p, ps, rw (y, e) refl)
    ]

join_dots-split_on : (t : Text) → join_dots (split_on 46 t) ≡ t
unfolding split_on
join_dots-split_on [] = refl
join_dots-split_on (x ∷ t) =
    let (p, ps, e) = split_on-cons 46 t in
    let whole : join_dots (p ∷ ps) ≡ t = ap join_dots (sym e) ∙ join_dots-split_on t in
    elim (Bool-cases (x == 46)) [
      | inl y ↦
          let dot : x ≡ 46 = (==_iff x 46).0 y in rw (y, e) (rw whole (ap (λ z. z ∷ t) (sym dot)))
      | inr y ↦ rw (y, e) (for_rest p ps whole)
    ]
  where
    for_rest :
        (p : Text) (ps : List Text) → join_dots (p ∷ ps) ≡ t → join_dots ((x ∷ p) ∷ ps) ≡ x ∷ t
    for_rest p [] w = ap (λ z. x ∷ z) w
    for_rest p (q ∷ qs) w = ap (λ z. x ∷ z) w

-- A token is accepted only if it is two parts and the signature of them under the secret, and the hash
-- that is looked up is that of the token itself.
pub parse_reset_token_sound :
    (c : Crypto) (token app_secret account_id : Text) (h : String)
    → parse_reset_token c token app_secret ≡ some (account_id, h)
    → (a : Text) × (b : Text) × (token ≡ a ++ (46 ∷ (b ++ (46 ∷ reset_signature c a b app_secret))))
      × (h ≡ hash_token c token)
unfolding parse_reset_token
parse_reset_token_sound c token app_secret account_id h e =
    for_parts (split_on 46 token) (sym (join_dots-split_on token)) e
  where
    for_id : (o : Option Text) → with_hash c token o ≡ some (account_id, h) → h ≡ hash_token c token
    for_id none g = cc
    for_id (some i) g =
        let same : Path (Text × String) (i, hash_token c token) (account_id, h) = cc in
        sym (ap (λ p. p.1) same)

    for_parts :
        (ps : List Text)
        → token ≡ join_dots ps
        → parse_parts c token app_secret ps ≡ some (account_id, h)
        → (a : Text) × (b : Text) × (token
            ≡ a ++ (46 ∷ (b ++ (46 ∷ reset_signature c a b app_secret))))
          × (h ≡ hash_token c token)
    for_parts [] j g = cc
    for_parts (a ∷ []) j g = cc
    for_parts (a ∷ b ∷ []) j g = cc
    for_parts (a ∷ b ∷ sig ∷ x ∷ ps) j g = cc
    for_parts (a ∷ b ∷ sig ∷ []) j g =
        elim (Bool-cases (text_eq (reset_signature c a b app_secret) sig)) [
          | inl y ↦
              let same : reset_signature c a b app_secret ≡ sig =
                text_eq-eq (reset_signature c a b app_secret) sig y in
              let read : parse_parts c token app_secret (a ∷ b ∷ sig ∷ [])
                  ≡ with_hash c token (decode_id c (c.urlsafe_b64decode (a ++ padding a))) =
                rw y refl in
              (
                a,
                b,
                rw same j,
                for_id (decode_id c (c.urlsafe_b64decode (a ++ padding a))) (sym read ∙ g),
              )
          | inr n ↦
              let no : parse_parts c token app_secret (a ∷ b ∷ sig ∷ []) ≡ none = rw n refl in cc
        ]
