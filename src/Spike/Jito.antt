-- ===== src/Spike/Jito.antt =====
-- spikes/pda-buyer/src/jito.ts: the spike's own client of the block engine, next to the orchestrator's.
use batch_it_protocol.Prelude.{
  List, Option, arith, get_elem?, length, none, some, ◌↔◌, ◌≡◌, ℕ, [], ◌∷◌, Option-cases, inl, inr,
}
use Prim.Native.String.{String}
use batch_it_protocol.Escrow.Types.{Pubkey}
use batch_it_protocol.Orchestrator.Config.{JitoConfig, or_else}
use batch_it_protocol.Orchestrator.Jito.{
  BundleResult, Engine, Reply, body, bundle_id, bundle_url, not_sent, null_body, read_reply,
  send_jito_bundle, sent, threw, TipCalls, TipTx, tip_tx,
}
use batch_it_protocol.Web3.{Web3}

unfoldable pub read_bundle_reply : String → Reply → BundleResult
read_bundle_reply null_message (threw message) = not_sent message
read_bundle_reply null_message null_body = not_sent null_message
read_bundle_reply null_message (body (some e) result) = not_sent (or_else e.message e.printed)
read_bundle_reply null_message (body none result) = bundle_id result (not_sent "empty result") sent

-- The request is the orchestrator's, and so is its address.
unfoldable pub send_bundle : Engine → JitoConfig → List String → BundleResult
unfolding read_bundle_reply
send_bundle engine c transactions =
    read_bundle_reply engine.null_message
      (engine.reply (record { url = bundle_url c; transactions = transactions }))

-- `new PublicKey(list[Math.floor(Math.random() * list.length)])`, where `draw n` is the random index.
unfoldable pub pick_tip_account : Web3 → (ℕ → ℕ) → JitoConfig → Option Pubkey
pick_tip_account w draw c = elim (get_elem? c.tip_accounts (draw (length c.tip_accounts))) [
  | none ↦ none
  | some text ↦ some (w.from_base58 text)
]

unfoldable pub build_tip_tx : Web3 → TipCalls → Pubkey → JitoConfig → Option TipTx
unfolding pick_tip_account
build_tip_tx w calls payer c = elim (pick_tip_account w calls.draw c) [
  | none ↦ none
  | some tip_to ↦ elim calls.blockhash [
    | none ↦ none
    | some hash ↦ some (record {
      payer_key = payer;
      recent_blockhash = hash;
      instructions = calls.transfer payer tip_to c.tip_lamports ∷ [];
    })
  ]
]

-- The two clients build the same tip.
pub build_tip_tx-agrees :
    (w : Web3) (calls : TipCalls) (payer : Pubkey) (c : JitoConfig)
    → build_tip_tx w calls payer c ≡ tip_tx w calls payer c
unfolding build_tip_tx tip_tx
build_tip_tx-agrees w calls payer c =
    elim (Option-cases (get_elem? c.tip_accounts (calls.draw (length c.tip_accounts)))) [
      | inl missing ↦ ground (arith, missing)
      | inr (text, found) ↦ ground (arith, found)
    ]

read_bundle_reply-sent :
    (null_message : String) (r : Reply) (id : String)
    → (read_bundle_reply null_message r ≡ sent id) ↔ (read_reply null_message r ≡ sent id)
unfolding read_bundle_reply read_reply
read_bundle_reply-sent m (threw message) id = (λ h. h, λ h. h)
read_bundle_reply-sent m null_body id = (λ h. h, λ h. h)
read_bundle_reply-sent m (body (some e) result) id = (λ h. cc, λ h. cc)
read_bundle_reply-sent m (body none none) id = (λ h. cc, λ h. cc)
read_bundle_reply-sent m (body none (some x)) id = (λ h. ground arith, λ h. ground arith)

-- On the same engine, configuration and transactions the spike's client counts a bundle as sent, under
-- an identifier, exactly when the orchestrator's client does.
pub send_bundle-agrees :
    (engine : Engine) (c : JitoConfig) (txs : List String) (id : String)
    → (send_bundle engine c txs ≡ sent id) ↔ (send_jito_bundle engine c txs ≡ sent id)
unfolding send_bundle send_jito_bundle
send_bundle-agrees engine c txs id =
    read_bundle_reply-sent engine.null_message
      (engine.reply (record { url = bundle_url c; transactions = txs })) id
