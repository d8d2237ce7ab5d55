-- ===== src/Explorer.antt =====
-- packages/core/src/explorer/batch-explorer.ts: the jobs that decorated classes declare.
pub mod Discovered
pub mod Binding
pub mod Handlers
mod Tests
use nest_batch.Prelude.{
  ℕ, String, Bool, true, false, not, Option, none, some, List, [], ◌∷◌, ◌++◌, ◌===◌, if◌then◌else◌,
}
use nest_batch.Prelude.Table.{Table, get, keys}
use nest_batch.Prelude.Sets.{member}
use nest_batch.Policies.{SkipPolicyConfig, RetryPolicyConfig}
use nest_batch.Partitions.{ChunkPartitionConfig}
use nest_batch.Builder.{ListenerKind, ListenerPhase, SkipSubKind}

pub record JobableOptions : Type 0 where
  pub id : String
  pub restartable : Option Bool
  pub allow_duplicate_instances : Option Bool

pub record StepableOptions : Type 0 where
  pub id : String
  pub chunk_size : Option ℕ
  pub skip_policy : Option SkipPolicyConfig
  pub retry_policy : Option RetryPolicyConfig
  pub partitions : Option ChunkPartitionConfig

pub record ListenerMetadata : Type 0 where
  pub kind : ListenerKind
  pub phase : ListenerPhase
  pub skip_kind : Option SkipSubKind
  pub non_critical : Option Bool

pub record OnTransitionOptions : Type 0 where
  pub from_step : String
  pub on_status : String
  pub to_step : Option String

-- What the decorators leave on a method; `reader` says whether the method is a factory.
pub record Metadata : Type 0 where
  pub step : Option StepableOptions
  pub is_tasklet : Bool
  pub reader : Option Bool
  pub is_processor : Bool
  pub is_writer : Bool
  pub listener : Option ListenerMetadata
  pub transition : Option OnTransitionOptions

-- A property of a prototype
pub data Property : Type 0 where
  a_function : Metadata → Property
  another_value : Property

-- A prototype and its ancestors below `Object.prototype`, each with its own properties.
abbrev pub Chain : Type 0
Chain = List (Table Property)

pub record DiscoveredStep : Type 0 where
  pub method_name : String
  pub options : StepableOptions
  pub is_tasklet : Bool

pub data DiscoveredItemKind : Type 0 where
  reader processor writer : DiscoveredItemKind

pub record DiscoveredItemMethod : Type 0 where
  pub method_name : String
  pub kind : DiscoveredItemKind
  pub factory : Bool

pub record DiscoveredListener : Type 0 where
  pub method_name : String
  pub metadata : ListenerMetadata

pub record DiscoveredTransition : Type 0 where
  pub method_name : String
  pub options : OnTransitionOptions

-- `instance` lists the methods that the instance has.
pub record DiscoveredJob : Type 0 where
  pub class_name : String
  pub instance : Option (List String)
  pub job_options : JobableOptions
  pub step_methods : List DiscoveredStep
  pub item_methods : List DiscoveredItemMethod
  pub listener_methods : List DiscoveredListener
  pub transition_methods : List DiscoveredTransition

unfoldable pub add_names : List String → (names : List String) → List String
add_names [] names = names
add_names (name ∷ own) names = add_names own (
    if name === "constructor"
    then names
    else if member name names
    then names
    else names ++ name ∷ [])

unfoldable pub names_from : Chain → (names : List String) → List String
unfolding add_names
names_from [] names = names
names_from (proto ∷ chain) names = names_from chain (add_names (keys proto) names)

unfoldable pub all_method_names : Chain → List String
unfolding names_from
all_method_names prototype = names_from prototype []

unfoldable pub or_next : Option Property → Option Property → Option Property
or_next none next = next
or_next (some p) next = some p

-- `prototype[name]`
unfoldable pub lookup : Chain → String → Option Property
unfolding or_next
lookup [] name = none
lookup (proto ∷ chain) name = or_next (get name proto) (lookup chain name)

unfoldable pub function_of : Option Property → Option Metadata
function_of (some (a_function metadata)) = some metadata
function_of _ = none

unfoldable pub get_method_handler : Chain → String → Option Metadata
unfolding lookup function_of
get_method_handler prototype name = function_of (lookup prototype name)

-- The loop that the four `collect` methods share
unfoldable pub collect : {A : Type 0} → Chain → (String → Metadata → List A) → List String → List A
unfolding get_method_handler
collect prototype entries [] = []
collect prototype entries (name ∷ names) =
    let rest = collect prototype entries names in
    elim (get_method_handler prototype name) [
      | none ↦ rest
      | some metadata ↦ entries name metadata ++ rest
    ]

unfoldable pub step_entries : String → Metadata → List DiscoveredStep
step_entries name metadata = elim metadata.step [
  | none ↦ []
  | some options ↦
      record { method_name = name; options = options; is_tasklet = metadata.is_tasklet } ∷ []
]

unfoldable pub reader_entries : String → Option Bool → List DiscoveredItemMethod
reader_entries name none = []
reader_entries name (some factory) =
    record { method_name = name; kind = reader; factory = factory } ∷ []

unfoldable pub entry_if : String → DiscoveredItemKind → Bool → List DiscoveredItemMethod
entry_if name kind false = []
entry_if name kind true = record { method_name = name; kind = kind; factory = false } ∷ []

unfoldable pub item_entries : String → Metadata → List DiscoveredItemMethod
unfolding reader_entries entry_if
item_entries name metadata =
    reader_entries name metadata.reader
    ++ entry_if name processor metadata.is_processor
    ++ entry_if name writer metadata.is_writer

unfoldable pub listener_entries : String → Metadata → List DiscoveredListener
listener_entries name metadata = elim metadata.listener [
  | none ↦ []
  | some opts ↦ record { method_name = name; metadata = opts } ∷ []
]

unfoldable pub transition_entries : String → Metadata → List DiscoveredTransition
transition_entries name metadata = elim metadata.transition [
  | none ↦ []
  | some opts ↦ record { method_name = name; options = opts } ∷ []
]

pub record Metatype : Type 0 where
  pub name : String
  pub job_options : Option JobableOptions
  pub prototype : Chain

pub record ProviderLike : Type 0 where
  pub metatype : Option Metatype
  pub instance : Option (List String)

unfoldable pub discovered_of : Metatype → Option (List String) → JobableOptions → DiscoveredJob
unfolding all_method_names collect step_entries item_entries listener_entries transition_entries
discovered_of metatype instance job_options =
    let names = all_method_names metatype.prototype in
    record {
      class_name = metatype.name;
      instance = instance;
      job_options = job_options;
      step_methods = collect metatype.prototype step_entries names;
      item_methods = collect metatype.prototype item_entries names;
      listener_methods = collect metatype.prototype listener_entries names;
      transition_methods = collect metatype.prototype transition_entries names;
    }

unfoldable pub discover : Option Metatype → Option (List String) → List DiscoveredJob
unfolding discovered_of
discover none instance = []
discover (some metatype) instance = elim metatype.job_options [
  | none ↦ []
  | some job_options ↦ discovered_of metatype instance job_options ∷ []
]

unfoldable pub discover_from_providers : List ProviderLike → List DiscoveredJob
unfolding discover
discover_from_providers [] = []
discover_from_providers (wrapper ∷ providers) =
    discover wrapper.metatype wrapper.instance ++ discover_from_providers providers
