-- ===== src/Orchestrator/Jito/Laws.antt =====
-- When a bundle counts as sent.
use batch_it_protocol.Prelude.{List, arith, none, some, true, ◌↔◌, ◌≡◌}
use batch_it_protocol.Prelude.Texts.{is_truthy}
use Prim.Native.String.{String}
use batch_it_protocol.Orchestrator.Config.{JitoConfig}
use batch_it_protocol.Orchestrator.Jito.{
  Engine, Reply, body, bundle_url, null_body, read_reply, send_jito_bundle, sent, threw,
}

read_reply-sent :
    (null_message : String) (r : Reply) (id : String)
    → (read_reply null_message r ≡ sent id) ↔ ((r ≡ body none (some id)) × (is_truthy id ≡ true))
unfolding read_reply
read_reply-sent m (threw message) id = (λ h. cc, λ h. cc (h.0))
read_reply-sent m null_body id = (λ h. cc, λ h. cc (h.0))
read_reply-sent m (body (some e) result) id = (λ h. cc, λ h. cc (h.0))
read_reply-sent m (body none none) id = (λ h. cc, λ h. cc (h.0))
read_reply-sent m (body none (some x)) id = (λ h. ground arith, λ h. ground arith)

-- A bundle counts as sent exactly when the reply has no error and a result that is not empty, which is
-- then the bundle's identifier.
pub send_jito_bundle-sent :
    (engine : Engine) (c : JitoConfig) (txs : List String) (id : String)
    → (send_jito_bundle engine c txs ≡ sent id) ↔ (
        (engine.reply (record { url = bundle_url c; transactions = txs }) ≡ body none (some id))
        × (is_truthy id ≡ true))
unfolding send_jito_bundle
send_jito_bundle-sent engine c txs id =
    read_reply-sent engine.null_message
      (engine.reply (record { url = bundle_url c; transactions = txs })) id
