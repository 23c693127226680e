-- ===== src/Escrow/Ledger/Refinement/Raise.antt =====
-- The instructions up to the settlement are moves of the deal.
use batch_it_protocol.Escrow.Funding
use batch_it_protocol.Escrow.Launch
use batch_it_protocol.Escrow.Settlement
use batch_it_protocol.Prelude.{Bool-cases, List, Result-cases, arith, inl, inr, ok, ℕ, ◌+◌, ◌≡◌}
use batch_it_protocol.Prelude.Int.{ℤ}
use batch_it_protocol.Prelude.Maps.{insert}
use batch_it_protocol.Escrow.Funding.{ContributeAccounts}
use batch_it_protocol.Escrow.Funding.Laws.{contribute_lem, contribute_window}
use batch_it_protocol.Escrow.Ledger.{
  Source, vault_after, contribute_accounts, buy_accounts, finalize_accounts, Ledger, begin_launch,
  complete_buy, contribute, finalize,
}
use batch_it_protocol.Escrow.Ledger.Invariant.{Inv}
use batch_it_protocol.Escrow.Ledger.View.{one, deposit_of, unpaid_yet, view, view-deposit}
use batch_it_protocol.Escrow.Ledger.Kept.Begin.{passed-kept}
use batch_it_protocol.Escrow.Launch.{BuyAccounts}
use batch_it_protocol.Escrow.Launch.Laws.{
  begin_launch_lem, complete_buy_idempotent, complete_buy_lem, execute_buy_lem,
}
use batch_it_protocol.Escrow.Settlement.{FinalizeAccounts}
use batch_it_protocol.Escrow.Types.{TokenAccount, finalized, launching, bought, is_status}
use batch_it_protocol.Escrow.Settlement.Laws.{finalize_lem}
use batch_it_protocol.Escrow.Runtime.{IsRuntime, Runtime}
use batch_it_protocol.Escrow.Spec.{Moves, begins, buys, deposits, settles, still, then_}

module _ (r : Runtime) (legal : IsRuntime r) (l l' : Ledger) (v : Inv l) where
  pub contribute-Moves :
      (now : ℤ) (who bump wallet n : ℕ) {wallet' : ℕ}
      → contribute r now who bump wallet n l ≡ ok (l', wallet')
      → Moves (view l) (view l')
  unfolding contribute view
  contribute-Moves now who bump wallet n e =
      let accounts = contribute_accounts who bump wallet l in
      elim (Result-cases (Funding.contribute r now accounts n)) [
        | inr (x, failed) ↦ absurd (ground arith)
        | inl (a, done) ↦
            let f = contribute_lem r legal now accounts n done in
            let w = contribute_window r now accounts n done in
            let same : l' ≡ record l {
              pool = record (l.pool) {
                contributor_count = a.pool.contributor_count;
                total_contributed = l.pool.total_contributed + n;
              };
              pool_lamports = a.pool_lamports;
              contributions = insert who a.contribution l.contributions;
            } =
              ground arith in
            rw same (
              one (deposits now who n f.0 w.0 w.1 w.2 f.1) (
                view-deposit
                  (record (l.pool) {
                    contributor_count = a.pool.contributor_count;
                    total_contributed = l.pool.total_contributed + n;
                  })
                  who (deposit_of l.contributions who + n) a.contribution l.contributions
                  (ground arith) (ground (arith, unpaid_yet l who v (ground arith)))))
      ]

  pub begin_launch-Moves :
      (now : ℤ) (mint : ℕ) → begin_launch now mint l ≡ ok l' → Moves (view l) (view l')
  unfolding begin_launch view
  begin_launch-Moves now mint e = elim (Result-cases (Launch.begin_launch now l.pool mint)) [
    | inr (x, failed) ↦ absurd (ground arith)
    | inl (p, done) ↦
        let f = begin_launch_lem now l.pool mint done in
        let same : l' ≡ record l { pool = record (l.pool) { mint = mint; status = launching } } =
          ground arith in
        rw same (then_ still (begins now f.0 f.1 f.2 f.3))
  ]

  pub complete_buy-Moves :
      (pump : ℕ) (now : ℤ) (mint owner : ℕ) (curve : List ℕ) (source : Source) (n : ℕ)
      {account : TokenAccount}
      → complete_buy r pump now mint owner curve source n l ≡ ok (l', account)
      → Moves (view l) (view l')
  unfolding complete_buy view
  complete_buy-Moves pump now mint owner curve source n e =
      let accounts = buy_accounts r mint owner curve source l in
      elim (Result-cases (Launch.complete_buy r pump now accounts n)) [
        | inr (x, failed) ↦ absurd (ground arith)
        | inl (a, done) ↦ elim (Bool-cases (is_status l.pool.status bought)) [
          | inl again ↦
              let vault_kept = passed-kept r source l in
              let same : l' ≡ l = ground (arith, complete_buy_idempotent r pump now accounts n) in
              rw same still
          | inr first ↦
              let f = complete_buy_lem r pump now accounts n done (ground arith) in
              let b = execute_buy_lem r accounts n f.5 in
              let same : l' ≡ record l {
                pool = record (l.pool) {
                  tokens_bought = a.pool.tokens_bought;
                  post_virtual_token_reserves = a.pool.post_virtual_token_reserves;
                  post_virtual_quote_reserves = a.pool.post_virtual_quote_reserves;
                  status = bought;
                };
                pool_lamports = a.pool_lamports;
                buyer_lamports = a.market.buyer_lamports;
                vault_tokens = vault_after source a.market.associated_user l;
              } =
                ground arith in
              rw same (then_ still (buys now a.pool.tokens_bought f.0 f.1 b.1))
        ]
      ]

  pub finalize-Moves :
      (curve : List ℕ) (source : Source) {account : TokenAccount}
      → finalize r curve source l ≡ ok (l', account)
      → Moves (view l) (view l')
  unfolding finalize view
  finalize-Moves curve source e =
      let accounts = finalize_accounts r curve source l in
      elim (Result-cases (Settlement.finalize r accounts)) [
        | inr (x, failed) ↦ absurd (ground arith)
        | inl (a, done) ↦
            let f = finalize_lem r legal accounts done in
            let same : l' ≡ record l {
              pool = record (l.pool) {
                distributable = a.pool.distributable;
                burned = a.pool.burned;
                post_virtual_token_reserves = a.pool.post_virtual_token_reserves;
                post_virtual_quote_reserves = a.pool.post_virtual_quote_reserves;
                status = finalized;
              };
              vault_tokens = vault_after source a.associated_user l;
            } =
              ground arith in
            rw same (then_ still (settles a.pool.distributable f.0 (omega (arith, f.3))))
      ]
