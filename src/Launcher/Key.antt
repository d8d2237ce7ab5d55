-- ===== src/Launcher/Key.antt =====
-- packages/core/src/execution/job-key.ts: the canonical form of job parameters.
pub mod Order
pub mod Same
use nest_batch.Prelude.{
  ℕ, String, Bool, true, false, ◌&&◌, ◌||◌, [], ◌∷◌, ltb, leb, ◌==◌, if◌then◌else◌, ok, err, ◌>>=◌,
}
use nest_batch.Prelude.Text.{Text, text}
use nest_batch.Errors.{plain_error, Throws}
use nest_batch.Context
use nest_batch.Context.{Json, Elements, Fields}

-- The values that `canonicalize` tells apart. A date is its ISO string, a number a natural number.
mutual
  pub data Value : Type 0 where
    undefined : Value
    null : Value
    bool : Bool → Value
    number : ℕ → Value
    string : String → Value
    bigint : ℕ → Value
    date : (iso_string : String) → Value
    array : Values → Value
    object : Members → Value

  pub data Values : Type 0 where
    nil : Values
    cons : Value → Values → Values

  pub data Members : Type 0 where
    end : Members
    member : String → Value → Members → Members

-- The characters from U+E000 to U+FFFF, whose code unit is above the surrogates that the characters
-- from U+10000 on are written with.
unfoldable pub above_surrogates : ℕ → Bool
above_surrogates c = leb 57344 c && ltb c 65536

unfoldable pub char_before : ℕ → ℕ → Bool
unfolding above_surrogates
char_before c d =
    if above_surrogates c then above_surrogates d && ltb c d else above_surrogates d || ltb c d

-- The order of `sort()`: by UTF-16 code units.
unfoldable pub text_before : Text → Text → Bool
unfolding char_before
text_before [] [] = false
text_before [] (d ∷ t) = true
text_before (c ∷ s) [] = false
text_before (c ∷ s) (d ∷ t) = char_before c d || (c == d && text_before s t)

unfoldable pub key_before : String → String → Bool
key_before k j = text_before (text k) (text j)

-- A member at its place among members that are sorted.
unfoldable pub insert : String → Value → Members → Members
insert k v end = member k v end
insert k v (member j w ms) =
    let rest = insert k v ms in
    if key_before k j then member k v (member j w ms) else member j w rest

-- `v !== undefined`
unfoldable pub is_defined : Value → Bool
is_defined undefined = false
is_defined v = true

-- `if (v !== undefined) sorted[k] = v`
unfoldable pub put : String → Value → Members → Members
put k v ms = if is_defined v then insert k v ms else ms

-- The members are put at their places one by one, where the source sorts their names first: no
-- call in between depends on the order, and all that is thrown is one error.
unfoldable mutual
  pub canonicalize : Value → Throws Value
  canonicalize undefined = ok undefined
  canonicalize null = ok undefined
  canonicalize (bigint n) = err (plain_error "BigInt not supported in job key")
  canonicalize (date iso_string) = ok (string iso_string)
  canonicalize (array vs) = canonicalize_all vs >>= λ ws. ok (array ws)
  canonicalize (object ms) = canonicalize_members ms >>= λ ns. ok (object ns)
  canonicalize v = ok v

  pub canonicalize_all : Values → Throws Values
  canonicalize_all nil = ok nil
  canonicalize_all (cons v vs) =
      let rest = canonicalize_all vs in canonicalize v >>= λ w. rest >>= λ ws. ok (cons w ws)

  pub canonicalize_members : Members → Throws Members
  canonicalize_members end = ok end
  canonicalize_members (member k v ms) =
      let rest = canonicalize_members ms in canonicalize v >>= λ w. rest >>= λ ns. ok (put k w ns)

-- Job parameters are JSON values.
unfoldable mutual
  pub of_json : Json → Value
  of_json Json.null = null
  of_json (Json.bool b) = bool b
  of_json (Json.number n) = number n
  of_json (Json.string s) = string s
  of_json (Json.array es) = array (of_elements es)
  of_json (Json.object fs) = object (of_fields fs)

  pub of_elements : Elements → Values
  of_elements Elements.nil = nil
  of_elements (Elements.cons v es) = cons (of_json v) (of_elements es)

  pub of_fields : Fields → Members
  of_fields Fields.end = end
  of_fields (Fields.field k v fs) = member k (of_json v) (of_fields fs)

-- `digest` is what `JSON.stringify` and the hash of `crypto` make of a canonical value.
unfoldable pub canonical_job_key : (digest : Value → String) → Members → Throws String
canonical_job_key digest params =
    canonicalize (object params) >>= λ canonical. ok (digest canonical)
