-- ===== src/Orchestrator/Config.antt =====
-- apps/orchestrator/src/config.ts: config/default.json under the overrides of the environment. A
-- variable that is not set is `none`.
use batch_it_protocol.Prelude.{Bool, List, Option, false, if◌then◌else◌, none, some, ℕ}
use batch_it_protocol.Prelude.Texts.{is_truthy, same_text}
use Prim.Native.String.{String}

pub record JitoConfig : Type 0 where
  pub block_engine_url : String
  pub bundle_api_path : String
  pub tip_lamports : ℕ
  pub tip_accounts : List String

pub record PumpConfig : Type 0 where
  pub program_id : Option String
  pub fee_program_id : Option String
  pub buy_layout_pin : Option String

-- What is read from config/default.json.
pub record DefaultConfig : Type 0 where
  pub rpc_url : String
  pub jito : JitoConfig
  pub pump : PumpConfig

pub record OrchConfig : Type 0 where
  pub rpc_url : String
  pub jito : JitoConfig
  pub program_id : Option String
  pub fee_program_id : Option String
  pub buy_layout_pin : String
  pub allow_sequential_rpc : Bool

pub record Environment : Type 0 where
  pub rpc_url : Option String
  pub block_engine_url : Option String
  pub allow_sequential_rpc : Option String

-- `if (process.env.X) v = process.env.X`
abbrev pub override : Option String → String → String
override none v = v
override (some x) v = if is_truthy x then x else v

-- `a ?? b`
abbrev pub or_else : Option String → String → String
or_else none b = b
or_else (some a) b = a

-- `process.env.X === "1"`
abbrev pub is_one : Option String → Bool
is_one none = false
is_one (some x) = same_text x "1"

unfoldable pub load_orch_config : DefaultConfig → Environment → OrchConfig
load_orch_config def env = record {
  rpc_url = override env.rpc_url def.rpc_url;
  jito = record (def.jito) {
    block_engine_url = override env.block_engine_url def.jito.block_engine_url;
  };
  program_id = def.pump.program_id;
  fee_program_id = def.pump.fee_program_id;
  buy_layout_pin = or_else def.pump.buy_layout_pin "@pump-fun/pump-sdk@1.36.0";
  allow_sequential_rpc = is_one env.allow_sequential_rpc;
}
