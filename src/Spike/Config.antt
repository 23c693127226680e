-- ===== src/Spike/Config.antt =====
-- spikes/pda-buyer/src/config.ts: config/default.json with config/local.json merged in. An object that
-- JSON.parse returns is the list of its fields; a field named `__proto__` is left out.
pub mod Merge
use batch_it_protocol.Prelude.{Bool, Option, false, if◌then◌else◌, none, some, true, suc, ℕ}
use batch_it_protocol.Prelude.Texts.{is_truthy, same_text}
use batch_it_protocol.Orchestrator.Config.{or_else}
use Prim.Native.String.{String}

-- What JSON.parse returns. `number n` stands for the `n`-th of the numbers, in whatever order.
mutual
  pub data Json : Type 0 where
    null : Json
    bool : Bool → Json
    number : ℕ → Json
    text : String → Json
    array : Items → Json
    object : Fields → Json

  pub data Items : Type 0 where
    no_items : Items
    item : Json → Items → Items

  pub data Fields : Type 0 where
    no_fields : Fields
    field : String → Json → Fields → Fields

-- `out[k]`
abbrev pub get : String → Fields → Option Json
get k no_fields = none
get k (field j v fs) = if same_text k j then some v else get k fs

-- `out[k] = v`
abbrev pub set : String → Json → Fields → Fields
set k v no_fields = field k v no_fields
set k v (field j u fs) = if same_text k j then field j v fs else field j u (set k v fs)

-- The fields that `{ ...value }` copies, the index `i` of an item being spelt `index_key i`.
abbrev pub item_fields : (ℕ → String) → ℕ → Items → Fields
item_fields index_key i no_items = no_fields
item_fields index_key i (item v vs) = field (index_key i) v (item_fields index_key (suc i) vs)

-- `typeof value === "object"` and not null: an array is an object too.
abbrev pub spread : (ℕ → String) → Json → Option Fields
spread index_key (array vs) = some (item_fields index_key 0 vs)
spread index_key (object fs) = some fs
spread index_key _ = none

-- What the field becomes that is `old` in the base and the value given in the overrides.
unfoldable mutual
  pub merged : (ℕ → String) → Option Json → Json → Json
  merged index_key (some old) (object fs) = elim (spread index_key old) [
    | none ↦ object fs
    | some base ↦ object (merge_into index_key base base fs)
  ]
  merged index_key _ v = v

  -- The loop over the overrides, with the object built so far.
  pub merge_into : (ℕ → String) → Fields → Fields → Fields → Fields
  merge_into index_key base out no_fields = out
  merge_into index_key base out (field k v fs) =
      merge_into index_key base (set k (merged index_key (get k base) v) out) fs

unfoldable pub deep_merge : (ℕ → String) → Fields → Fields → Fields
unfolding merge_into
deep_merge index_key base over = merge_into index_key base base over

pub record Variables : Type 0 where
  pub rpc_url : Option String
  pub ws_url : Option String
  pub block_engine_url : Option String
  pub tip_lamports : Option String
  pub keypair_path : Option String
  pub spike_program_id : Option String

infixl 5 ◌and_then◌
abbrev ◌and_then◌ : Option Fields → (Fields → Option Fields) → Option Fields
none and_then f = none
some cfg and_then f = f cfg

-- `if (process.env.X) ...`
abbrev pub if_set : Option String → (String → Option Fields) → Fields → Option Fields
if_set none f cfg = some cfg
if_set (some x) f cfg = if is_truthy x then f x else some cfg

-- `cfg.jito.k = v`, which throws where `cfg.jito` is no object. An array there is left out.
unfoldable pub set_in_jito : String → Json → Fields → Option Fields
set_in_jito k v cfg = elim (get "jito" cfg) [
  | some (object jito) ↦ some (set "jito" (object (set k v jito)) cfg)
  | _ ↦ none
]

-- `number_of` is JavaScript's `Number`; `local` is config/local.json, if there is such a file; `none`
-- is a TypeError.
unfoldable pub load_config :
    (ℕ → String) → (String → Json) → Fields → Option Fields → Variables → Option Fields
unfolding deep_merge set_in_jito
load_config index_key number_of base local env =
    let cfg : Fields = elim local [ none ↦ base | some over ↦ deep_merge index_key base over ] in
    if_set env.rpc_url (λ x. some (set "rpcUrl" (text x) cfg)) cfg and_then λ cfg.
    if_set env.ws_url (λ x. some (set "wsUrl" (text x) cfg)) cfg and_then λ cfg.
    if_set env.block_engine_url (λ x. set_in_jito "blockEngineUrl" (text x) cfg) cfg and_then λ cfg.
    if_set env.tip_lamports (λ x. set_in_jito "tipLamports" (number_of x) cfg) cfg

-- `default_path` is keys/devnet-funder.json below the repository's root.
unfoldable pub keypair_path : String → Variables → String
keypair_path default_path env = or_else env.keypair_path default_path

unfoldable pub spike_program_id_str : Variables → String
spike_program_id_str env =
    or_else env.spike_program_id "2i6MFa3CJVu3WYTZmGMuef9tSciU35A7MRagcMQdnAsE"
