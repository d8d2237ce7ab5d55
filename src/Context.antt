-- ===== src/Context.antt =====
-- ExecutionContext of packages/core/src/core/repository/types.ts and the JSON value that it holds
-- (core/execution-context/json-value.ts), with natural numbers for the numbers.
pub mod Depth
mod Tests
use nest_batch.Prelude.{
  ℕ, ◌+◌, String, Bool, Option, none, some, ok, err, ltb, ◌===◌, if◌then◌else◌, ◌≡◌, refl, arith,
  eq_iff, ◌>>◌,
}
use nest_batch.Errors.{invalid_execution_context, Throws}

mutual
  pub data Json : Type 0 where
    null : Json
    bool : Bool → Json
    number : ℕ → Json
    string : String → Json
    array : Elements → Json
    object : Fields → Json

  pub data Elements : Type 0 where
    nil : Elements
    cons : Json → Elements → Elements

  pub data Fields : Type 0 where
    end : Fields
    field : String → Json → Fields → Fields

-- `object[key]`
unfoldable pub get_field : String → Fields → Option Json
get_field key end = none
get_field key (field k v fs) = let rest = get_field key fs in if k === key then some v else rest

-- `{ ...object, [key]: value }`
unfoldable pub set_field : String → Json → Fields → Fields
set_field key value end = field key value end
set_field key value (field k v fs) =
    let rest = set_field key value fs in if k === key then field k value fs else field k v rest

pub get_field-set_field :
    (k j : String) (v : Json) (fs : Fields)
    → get_field j (set_field k v fs) ≡ (if k === j then some v else get_field j fs)
unfolding get_field set_field
get_field-set_field k j v end = refl
get_field-set_field k j v (field i w fs) =
    ground (arith, eq_iff k j, eq_iff i k, eq_iff i j, get_field-set_field k j v fs)

pub record ExecutionContext : Type 0 where
  pub content : Json
  pub version : ℕ

-- The object that the checkpoint is spread over: none but a plain object is kept.
unfoldable pub base_fields : Json → Fields
base_fields (object fs) = fs
base_fields _ = end

-- `withLastChunkIndex` of execution/chunk-step-executor.ts
unfoldable pub with_last_chunk_index : ExecutionContext → ℕ → ExecutionContext
unfolding base_fields
with_last_chunk_index ctx chunk_index = record ctx {
  content = object (set_field "lastChunkIndex" (number chunk_index) (base_fields ctx.content));
}

-- `typeof value === 'number' && Number.isFinite(value) ? value : undefined`
number_of : Option Json → Option ℕ
number_of (some (number n)) = some n
number_of _ = none

-- `readLastCheckpoint` of execution/job-executor.ts
unfoldable pub read_last_checkpoint : ExecutionContext → Option ℕ
unfolding number_of base_fields
read_last_checkpoint ctx = number_of (get_field "lastChunkIndex" (base_fields ctx.content))

-- A restart reads the chunk index that the last checkpoint wrote, whatever else the context holds.
pub read_last_checkpoint-with_last_chunk_index :
    (ctx : ExecutionContext) (chunk_index : ℕ)
    → read_last_checkpoint (with_last_chunk_index ctx chunk_index) ≡ some chunk_index
unfolding read_last_checkpoint with_last_chunk_index
read_last_checkpoint-with_last_chunk_index ctx chunk_index =
    rw
      (get_field-set_field "lastChunkIndex" "lastChunkIndex" (number chunk_index)
        (base_fields ctx.content))
      refl

-- `assertJsonSerializable` of core/execution-context/validator.ts on a tree of JSON values, which
-- leaves it the check of the depth.
unfoldable mutual
  pub assert_json_serializable : ℕ → Json → Throws (Unit {0})
  assert_json_serializable depth (array es) =
      let rest = assert_elements depth es in
      if ltb 100 depth then err invalid_execution_context else rest
  assert_json_serializable depth (object fs) =
      let rest = assert_fields depth fs in
      if ltb 100 depth then err invalid_execution_context else rest
  assert_json_serializable depth _ = ok tt

  pub assert_elements : ℕ → Elements → Throws (Unit {0})
  assert_elements depth nil = ok tt
  assert_elements depth (cons v es) =
      let rest = assert_elements depth es in
      let first = assert_json_serializable (depth + 1) v in first >> rest

  pub assert_fields : ℕ → Fields → Throws (Unit {0})
  assert_fields depth end = ok tt
  assert_fields depth (field k v fs) =
      let rest = assert_fields depth fs in
      let first = assert_json_serializable (depth + 1) v in first >> rest
