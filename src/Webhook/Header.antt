-- ===== src/Webhook/Header.antt =====
-- The header of packages/webhook/src/webhook-signing.ts, written and read back.
use nest_batch.Prelude.{
  ℕ, zero, suc, ◌+◌, ◌-◌, ◌*◌, ◌/◌, ◌%◌, ◌<◌, ◌≡◌, refl, sym, ◌∙◌, ap, true, false, ◌&&◌, ◌||◌,
  none, some, List, [], ◌∷◌, ◌++◌, map, length, ok, ◌==◌, ltb, leb, Bool-cases, inl, inr, arith,
  All,
}
use nest_batch.Prelude.Text.{Text, text}
use nest_batch.Webhook.Signing.{
  Crypto, is_empty, show_from, show, starts_with, slice, is_blank, trim_start, trim_end, trim,
  on_first, split, is_digit, read_digits, starts_with_digit, plus, signed, parse_signed, parse_int,
  checked_timestamp, sign_v1, build_signature_header, ParsedSignature, checked_v1, parsed,
  parse_parts, parse_signature_header, or_false, same_signature, verify_v1,
}

-- The characters of a digest in hexadecimal
unfoldable pub HexDigit : ℕ → Type 0
unfolding is_digit
HexDigit c = (is_digit c || leb 97 c && leb c 102) ≡ true

-- `digest('hex')` is a text of such characters that is not empty, and bytes equal themselves.
pub record IsLawful (crypto : Crypto) : Type 0 where
  pub digits : (secret message : Text) → All HexDigit (crypto.hmac_sha256_hex secret message)
  pub filled : (secret message : Text) → is_empty (crypto.hmac_sha256_hex secret message) ≡ false
  pub same : (bytes : List ℕ) → crypto.timing_safe_equal bytes bytes ≡ some true

hex-blank : (c : ℕ) → HexDigit c → is_blank c ≡ false
unfolding HexDigit is_digit is_blank
hex-blank c h = ground arith

hex-comma : (c : ℕ) → HexDigit c → (c == 44) ≡ false
unfolding HexDigit is_digit
hex-comma c h = ground arith

digit-Hex : (d : ℕ) → d < 10 → HexDigit (48 + d)
unfolding HexDigit is_digit
digit-Hex d h = ground arith

module _ (n : ℕ) where
  by_ten : (fuel : ℕ) → n < suc fuel → ltb n 10 ≡ false → n / 10 < fuel
  by_ten fuel h e = ground arith

-- A number starts with a digit.
first_digit :
    (fuel n : ℕ) (s : Text)
    → n < fuel
    → (d : ℕ) × (t : Text) × (d < 10) × (show_from fuel n s ≡ (48 + d) ∷ t)
unfolding show_from
first_digit zero n s h = absurd (ground arith)
first_digit (suc fuel) n s h = elim (Bool-cases (ltb n 10)) [
  | inl e ↦ (n, s, ground arith, rw e refl)
  | inr e ↦ rw e (first_digit fuel (n / 10) ((48 + n % 10) ∷ s) (by_ten n fuel h e))
]

show-one : (fuel n : ℕ) (s : Text) → ltb n 10 ≡ true → show_from (suc fuel) n s ≡ (48 + n) ∷ s
unfolding show_from
show-one fuel n s e = rw e refl

show-more :
    (fuel n : ℕ) (s : Text)
    → ltb n 10 ≡ false
    → show_from (suc fuel) n s ≡ show_from fuel (n / 10) ((48 + n % 10) ∷ s)
unfolding show_from
show-more fuel n s e = rw e refl

read-digit :
    (m d : ℕ) (s : Text) → d < 10 → read_digits m ((48 + d) ∷ s) ≡ read_digits (m * 10 + d) s
unfolding read_digits is_digit
read-digit m d s h =
    let b : (leb 48 (48 + d) && leb (48 + d) 57) ≡ true = ground arith in
    let v : m * 10 + (48 + d - 48) ≡ m * 10 + d = omega arith in rw (b, v) refl

read_digits-show :
    (fuel n : ℕ) (s : Text) → n < fuel → read_digits 0 (show_from fuel n s) ≡ read_digits n s
read_digits-show zero n s h = absurd (ground arith)
read_digits-show (suc fuel) n s h = elim (Bool-cases (ltb n 10)) [
  | inl e ↦
      let v : 0 * 10 + n ≡ n = omega arith in
      rw (show-one fuel n s e, read-digit 0 n s (ground arith), v) refl
  | inr e ↦
      let v : n / 10 * 10 + n % 10 ≡ n = omega arith in
      rw
        (
          show-more fuel n s e,
          read_digits-show fuel (n / 10) ((48 + n % 10) ∷ s) (by_ten n fuel h e),
          read-digit (n / 10) (n % 10) s (omega arith),
          v,
        )
        refl
]

on_first-on_first :
    (f g : Text → Text) (ps : List Text) → on_first f (on_first g ps) ≡ on_first (λ p. f (g p)) ps
unfolding on_first
on_first-on_first f g [] = refl
on_first-on_first f g (p ∷ ps) = refl

on_first-ext :
    {f g : Text → Text}
    → ((p : Text) → f p ≡ g p)
    → (ps : List Text) → on_first f ps ≡ on_first g ps
unfolding on_first
on_first-ext h [] = refl
on_first-ext h (p ∷ ps) = rw (h p) refl

split-hex : (c : ℕ) (s : Text) → HexDigit c → split 44 (c ∷ s) ≡ on_first (◌∷◌ c) (split 44 s)
unfolding split
split-hex c s h = rw (hex-comma c h) refl

split-show :
    (fuel n : ℕ) (s : Text)
    → n < fuel
    → split 44 (show_from fuel n s) ≡ on_first (show_from fuel n) (split 44 s)
split-show zero n s h = absurd (ground arith)
split-show (suc fuel) n s h = elim (Bool-cases (ltb n 10)) [
  | inl e ↦
      rw (show-one fuel n s e, split-hex (48 + n) s (digit-Hex n (ground arith)))
        (on_first-ext (λ p. sym (show-one fuel n p e)) (split 44 s))
  | inr e ↦
      rw
        (
          show-more fuel n s e,
          split-show fuel (n / 10) ((48 + n % 10) ∷ s) (by_ten n fuel h e),
          split-hex (48 + n % 10) s (digit-Hex (n % 10) (omega arith)),
          on_first-on_first (show_from fuel (n / 10)) (◌∷◌ (48 + n % 10)) (split 44 s),
        )
        (on_first-ext (λ p. sym (show-more fuel n p e)) (split 44 s))
]

trim_end-hex : (c : ℕ) (s : Text) → HexDigit c → trim_end (c ∷ s) ≡ c ∷ trim_end s
unfolding trim_end
trim_end-hex c s h = rw (hex-blank c h) refl

trim_end-show :
    (fuel n : ℕ) (s : Text)
    → n < fuel
    → trim_end (show_from fuel n s) ≡ show_from fuel n (trim_end s)
trim_end-show zero n s h = absurd (ground arith)
trim_end-show (suc fuel) n s h = elim (Bool-cases (ltb n 10)) [
  | inl e ↦
      rw
        (
          show-one fuel n s e,
          show-one fuel n (trim_end s) e,
          trim_end-hex (48 + n) s (digit-Hex n (ground arith)),
        )
        refl
  | inr e ↦
      rw
        (
          show-more fuel n s e,
          show-more fuel n (trim_end s) e,
          trim_end-show fuel (n / 10) ((48 + n % 10) ∷ s) (by_ten n fuel h e),
          trim_end-hex (48 + n % 10) s (digit-Hex (n % 10) (omega arith)),
        )
        refl
]

split-digest : (v1 : Text) → All HexDigit v1 → split 44 v1 ≡ v1 ∷ []
unfolding split on_first
split-digest [] h = refl
split-digest (c ∷ v1) (h, hs) = rw (hex-comma c h, split-digest v1 hs) refl

trim_end-digest : (v1 : Text) → All HexDigit v1 → trim_end v1 ≡ v1
unfolding trim_end
trim_end-digest [] h = refl
trim_end-digest (c ∷ v1) (h, hs) = rw (hex-blank c h, trim_end-digest v1 hs) refl

parse_int-digit :
    (d : ℕ) (t : Text) → d < 10 → parse_int ((48 + d) ∷ t) ≡ plus (read_digits 0 ((48 + d) ∷ t))
unfolding parse_int trim_start parse_signed signed starts_with_digit is_digit
parse_int-digit d t h =
    let b : (leb 48 (48 + d) && leb (48 + d) 57) ≡ true = ground arith in
    let m : (48 + d == 45) ≡ false = ground arith in
    let p : (48 + d == 43) ≡ false = ground arith in
    rw (hex-blank (48 + d) (digit-Hex d h), m, p, b) refl

read_nothing : (n : ℕ) → read_digits n [] ≡ n
unfolding read_digits
read_nothing n = refl

parse_int-show : (n : ℕ) → parse_int (show n []) ≡ plus n
unfolding show
parse_int-show n =
    let (d, t, h, e) = first_digit (suc n) n [] (omega arith) in
    let read : read_digits 0 ((48 + d) ∷ t) ≡ n =
      ap (read_digits 0) (sym e) ∙ read_digits-show (suc n) n [] (omega arith) ∙ read_nothing n in
    rw e (parse_int-digit d t h ∙ ap plus read)

-- The parts that the header is split into
parts-show :
    (n : ℕ) (v1 : Text)
    → All HexDigit v1
    → map trim (split 44 (text "t=" ++ show n (text ",v1=" ++ v1)))
      ≡ (text "t=" ++ show n []) ∷ (text "v1=" ++ v1) ∷ []
unfolding show split on_first trim trim_start is_blank
parts-show n v1 h =
    rw
      (
        split-show (suc n) n (text ",v1=" ++ v1) (omega arith),
        split-digest v1 h,
        trim_end-show (suc n) n [] (omega arith),
        trim_end-digest v1 h,
      )
      refl

two_parts :
    (n : ℕ) (v1 : Text)
    → is_empty v1 ≡ false
    → parse_parts ((text "t=" ++ show n []) ∷ (text "v1=" ++ v1) ∷ []) none none
      ≡ ok (record { timestamp = n; v1 = v1 })
unfolding parse_parts starts_with slice checked_timestamp checked_v1 parsed
two_parts n v1 h = rw (parse_int-show n, h) refl

-- What is signed for a body
abbrev pub signed_text : ℕ → Text → Text
signed_text timestamp raw_body = show timestamp (text "." ++ raw_body)

header-parse :
    (n : ℕ) (v1 : Text)
    → All HexDigit v1
    → is_empty v1 ≡ false
    → parse_signature_header (text "t=" ++ show n (text ",v1=" ++ v1))
      ≡ ok (record { timestamp = n; v1 = v1 })
unfolding parse_signature_header is_empty
header-parse n v1 h f = rw (parts-show n v1 h) (two_parts n v1 f)

same_signature-same :
    (crypto : Crypto) → IsLawful crypto → (v1 : Text) → same_signature crypto v1 v1 ≡ true
unfolding same_signature or_false
same_signature-same crypto laws v1 =
    let e : (length v1 == length v1) ≡ true = ground arith in
    rw (e, laws.same (crypto.hex_bytes v1)) refl

-- With the laws of the digest and a secret that is not empty, the header that is built for a time
-- and a body is read back as that time and the digest, and the verification of the two against the
-- body answers true.
pub verify-build_signature_header :
    (crypto : Crypto) (secret : Text) (timestamp : ℕ) (raw_body : Text)
    → IsLawful crypto
    → is_empty secret ≡ false
    → (header : Text) × (read : ParsedSignature) × (build_signature_header crypto secret timestamp
          raw_body
        ≡ ok header)
      × (parse_signature_header header ≡ ok read)
      × (read.timestamp ≡ timestamp)
      × (verify_v1 crypto secret read.timestamp raw_body read.v1 ≡ ok true)
unfolding build_signature_header sign_v1 verify_v1
verify-build_signature_header crypto secret timestamp raw_body laws h =
    let message = signed_text timestamp raw_body in
    let v1 = crypto.hmac_sha256_hex secret message in
    (
      text "t=" ++ show timestamp (text ",v1=" ++ v1),
      record { timestamp = timestamp; v1 = v1 },
      rw h refl,
      header-parse timestamp v1 (laws.digits secret message) (laws.filled secret message),
      refl,
      rw (h, same_signature-same crypto laws v1) refl,
    )
