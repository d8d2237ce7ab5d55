-- ===== src/Webhook/Signing.antt =====
-- packages/webhook/src/webhook-signing.ts: the signature of a request, its header, and the checks of
-- both.
use nest_batch.Prelude.{
  ℕ, zero, suc, ◌+◌, ◌*◌, ◌-◌, ◌/◌, ◌%◌, Bool, true, false, not, ◌&&◌, ◌||◌, Option, none, some,
  List, [], ◌∷◌, ◌++◌, map, length, take, ok, err, ◌==◌, ltb, leb, if◌then◌else◌, ◌>>=◌,
}
use nest_batch.Prelude.Text.{Text, text}
use nest_batch.Errors.{plain_error, Throws}

-- What the helper calls of `node:crypto` and of `Buffer`. `none` is a throw.
pub record Crypto : Type 0 where
  pub hmac_sha256_hex : (secret message : Text) → Text
  pub sha256_hex : (message : Text) → Text
  pub hex_bytes : Text → List ℕ
  pub timing_safe_equal : (a b : List ℕ) → Option Bool

unfoldable pub is_empty : Text → Bool
is_empty [] = true
is_empty (c ∷ s) = false

-- `${n}` before `rest`, on fuel.
unfoldable pub show_from : ℕ → ℕ → Text → Text
show_from zero n rest = rest
show_from (suc fuel) n rest =
    let front = show_from fuel (n / 10) ((48 + n % 10) ∷ rest) in
    if ltb n 10 then (48 + n) ∷ rest else front

-- A number has no more digits than its successor says.
unfoldable pub show : ℕ → Text → Text
unfolding show_from
show n rest = show_from (suc n) n rest

unfoldable pub starts_with : (s prefix : Text) → Bool
starts_with s [] = true
starts_with [] (d ∷ prefix) = false
starts_with (c ∷ s) (d ∷ prefix) = c == d && starts_with s prefix

unfoldable pub slice : ℕ → Text → Text
slice zero s = s
slice (suc n) [] = []
slice (suc n) (c ∷ s) = slice n s

-- The white space and the line ends of JavaScript
unfoldable pub is_blank : ℕ → Bool
is_blank c =
    leb 9 c && leb c 13
    || (c == 32 || c == 160 || (c == 5760 || leb 8192 c && leb c 8202))
    || (c == 8232 || c == 8233 || (c == 8239 || c == 8287) || (c == 12288 || c == 65279))

unfoldable pub trim_start : Text → Text
unfolding is_blank
trim_start [] = []
trim_start (c ∷ s) = let rest = trim_start s in if is_blank c then rest else c ∷ s

unfoldable pub trim_end : Text → Text
unfolding is_blank is_empty
trim_end [] = []
trim_end (c ∷ s) = let rest = trim_end s in if is_blank c && is_empty rest then [] else c ∷ rest

unfoldable pub trim : Text → Text
unfolding trim_start trim_end
trim s = trim_end (trim_start s)

-- The first part of a text that is split, changed
unfoldable pub on_first : (Text → Text) → List Text → List Text
on_first f [] = []
on_first f (p ∷ ps) = f p ∷ ps

-- `s.split(separator)`, for one character
unfoldable pub split : (separator : ℕ) → Text → List Text
unfolding on_first
split separator [] = [] ∷ []
split separator (c ∷ s) =
    let rest = split separator s in if c == separator then [] ∷ rest else on_first (◌∷◌ c) rest

unfoldable pub is_digit : ℕ → Bool
is_digit c = leb 48 c && leb c 57

unfoldable pub read_digits : ℕ → Text → ℕ
unfolding is_digit
read_digits n [] = n
read_digits n (c ∷ s) =
    let rest = read_digits (n * 10 + (c - 48)) s in if is_digit c then rest else n

unfoldable pub starts_with_digit : Text → Bool
unfolding is_digit
starts_with_digit [] = false
starts_with_digit (c ∷ s) = is_digit c

-- `Number.parseInt(raw, 10)`
pub data Parsed : Type 0 where
  not_a_number : Parsed
  minus plus : ℕ → Parsed

unfoldable pub signed : (ℕ → Parsed) → Text → Parsed
unfolding starts_with_digit read_digits
signed sign s = if starts_with_digit s then sign (read_digits 0 s) else not_a_number

unfoldable pub parse_signed : Text → Parsed
unfolding signed
parse_signed [] = not_a_number
parse_signed (c ∷ s) =
    if c == 45 then signed minus s else if c == 43 then signed plus s else signed plus (c ∷ s)

unfoldable pub parse_int : Text → Parsed
unfolding trim_start parse_signed
parse_int raw = parse_signed (trim_start raw)

-- `!Number.isFinite(timestamp) || timestamp < 0` throws; minus zero is no less than zero.
unfoldable pub checked_timestamp : Parsed → Throws ℕ
checked_timestamp not_a_number = err (plain_error "[webhook-signing] invalid t= value")
checked_timestamp (minus zero) = ok 0
checked_timestamp (minus (suc n)) = err (plain_error "[webhook-signing] invalid t= value")
checked_timestamp (plus n) = ok n

module _ (crypto : Crypto) where
  unfoldable pub sign_v1 : (secret : Text) → (timestamp : ℕ) → (raw_body : Text) → Throws Text
  unfolding is_empty show
  sign_v1 secret timestamp raw_body =
      if is_empty secret
      then err (plain_error "[webhook-signing] secret must be a non-empty string")
      else ok (crypto.hmac_sha256_hex secret (show timestamp (text "." ++ raw_body)))

  unfoldable pub build_signature_header :
      (secret : Text) → (timestamp : ℕ) → (raw_body : Text) → Throws Text
  unfolding sign_v1 show
  build_signature_header secret timestamp raw_body = sign_v1 secret timestamp raw_body >>= λ v1.
      ok (text "t=" ++ show timestamp (text ",v1=" ++ v1))

pub record ParsedSignature : Type 0 where
  pub timestamp : ℕ
  pub v1 : Text

unfoldable pub checked_v1 : Text → Throws Text
unfolding is_empty
checked_v1 v1 = if is_empty v1 then err (plain_error "[webhook-signing] empty v1= value") else ok v1

unfoldable pub parsed : Option ℕ → Option Text → Throws ParsedSignature
parsed (some timestamp) (some v1) = ok (record { timestamp = timestamp; v1 = v1 })
parsed timestamp v1 = err (plain_error "[webhook-signing] header missing t= or v1= field")

-- `for (const part of parts)`
unfoldable pub parse_parts : List Text → Option ℕ → Option Text → Throws ParsedSignature
unfolding starts_with slice parse_int checked_timestamp checked_v1 parsed
parse_parts [] timestamp v1 = parsed timestamp v1
parse_parts (part ∷ parts) timestamp v1 = elim (starts_with part (text "t=")) [
  | true ↦ checked_timestamp (parse_int (slice 2 part)) >>= λ t. parse_parts parts (some t) v1
  | false ↦ elim (starts_with part (text "v1=")) [
    | true ↦ checked_v1 (slice 3 part) >>= λ v. parse_parts parts timestamp (some v)
    | false ↦ parse_parts parts timestamp v1
  ]
]

unfoldable pub parse_signature_header : Text → Throws ParsedSignature
unfolding is_empty split trim parse_parts
parse_signature_header header =
    if is_empty header
    then err (plain_error "[webhook-signing] header is empty")
    else parse_parts (map trim (split 44 header)) none none

-- The end of `verifyV1`, whose `catch` answers false.
unfoldable pub or_false : Option Bool → Bool
or_false none = false
or_false (some b) = b

module _ (crypto : Crypto) where
  unfoldable pub same_signature : (expected candidate_v1 : Text) → Bool
  unfolding or_false
  same_signature expected candidate_v1 =
      if not (length candidate_v1 == length expected)
      then false
      else or_false
          (crypto.timing_safe_equal (crypto.hex_bytes expected) (crypto.hex_bytes candidate_v1))

  unfoldable pub verify_v1 :
      (secret : Text) → (timestamp : ℕ) → (raw_body candidate_v1 : Text) → Throws Bool
  unfolding sign_v1 same_signature
  verify_v1 secret timestamp raw_body candidate_v1 =
      sign_v1 crypto secret timestamp raw_body >>= λ expected.
      ok (same_signature expected candidate_v1)

  unfoldable pub fingerprint_secret : (secret : Text) → Text
  unfolding is_empty
  fingerprint_secret secret =
      if is_empty secret then text "<missing>" else take 12 (crypto.sha256_hex secret)
