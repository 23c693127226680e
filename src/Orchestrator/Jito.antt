-- ===== src/Orchestrator/Jito.antt =====
-- apps/orchestrator/src/jito.ts: the submission of a bundle.
pub mod Laws
use batch_it_protocol.Prelude.{
  List, Option, get_elem?, if◌then◌else◌, length, none, some, ℕ, [], ◌∷◌,
}
use batch_it_protocol.Prelude.Texts.{drop_trailing_slash, is_truthy}
use batch_it_protocol.Escrow.Types.{Pubkey}
use batch_it_protocol.Web3.{Instruction, Web3}
use Prim.Native.String.{String, ◌++◌ as str_append}
use batch_it_protocol.Orchestrator.Config.{JitoConfig, or_else}

-- What the block engine is asked: the address, and the transactions in base58. The method and the
-- version of the call are always the same.
pub record BundleRequest : Type 0 where
  pub url : String
  pub transactions : List String

-- The `error` of a reply is an object, whose `message` may be missing.
pub record ReplyError : Type 0 where
  pub message : Option String
  -- the whole object, as `JSON.stringify` prints it
  pub printed : String

-- A reply: a request that threw, with its message; a body `null`; or a body with the fields `error`
-- and `result`, each of which may be missing.
pub data Reply : Type 0 where
  threw : String → Reply
  null_body : Reply
  body : Option ReplyError → Option String → Reply

pub data BundleResult : Type 0 where
  sent : String → BundleResult
  not_sent : String → BundleResult

-- The message of the exception that reading a field of `null` throws.
pub record Engine : Type 0 where
  pub reply : BundleRequest → Reply
  pub null_message : String

unfoldable pub bundle_url : JitoConfig → String
unfolding drop_trailing_slash
bundle_url c = str_append (drop_trailing_slash c.block_engine_url) c.bundle_api_path

-- `json.result` when it is there and not empty.
abbrev pub bundle_id : Option String → BundleResult → (String → BundleResult) → BundleResult
bundle_id none missing found = missing
bundle_id (some id) missing found = if is_truthy id then found id else missing

unfoldable pub read_reply : String → Reply → BundleResult
read_reply null_message (threw message) = not_sent message
read_reply null_message null_body = not_sent null_message
read_reply null_message (body (some e) result) = not_sent (or_else e.message "jito error")
read_reply null_message (body none result) = bundle_id result (not_sent "empty jito result") sent

unfoldable pub send_jito_bundle : Engine → JitoConfig → List String → BundleResult
send_jito_bundle engine c transactions =
    read_reply engine.null_message
      (engine.reply (record { url = bundle_url c; transactions = transactions }))

-- `tips[Math.floor(Math.random() * tips.length)]`, where `draw n` is `Math.floor(Math.random() * n)`.
unfoldable pub pick_tip : (ℕ → ℕ) → List String → Option String
pick_tip draw tips = get_elem? tips (draw (length tips))

-- A transaction of version 0, signed by the payer of its fees.
pub record TipTx : Type 0 where
  pub payer_key : Pubkey
  pub recent_blockhash : String
  pub instructions : List Instruction

-- What the two clients call to build a tip: the random index below a number, the answer to
-- `getLatestBlockhash`, which may be missing, and `SystemProgram.transfer`.
pub record TipCalls : Type 0 where
  pub draw : ℕ → ℕ
  pub blockhash : Option String
  pub transfer : Pubkey → Pubkey → ℕ → Instruction

-- `tipTx`: nothing comes of it where a call throws.
unfoldable pub tip_tx : Web3 → TipCalls → Pubkey → JitoConfig → Option TipTx
unfolding pick_tip
tip_tx w calls payer c = elim (pick_tip calls.draw c.tip_accounts) [
  | none ↦ none
  | some text ↦ elim calls.blockhash [
    | none ↦ none
    | some hash ↦ some (record {
      payer_key = payer;
      recent_blockhash = hash;
      instructions = calls.transfer payer (w.from_base58 text) c.tip_lamports ∷ [];
    })
  ]
]
