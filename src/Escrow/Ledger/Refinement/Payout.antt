-- ===== src/Escrow/Ledger/Refinement/Payout.antt =====
-- The payments, the way out and the payments from outside are moves of the deal.
use mathlib.Core.Path.{subst}
use batch_it_protocol.Escrow.Settlement
use batch_it_protocol.Escrow.Exit
use batch_it_protocol.Prelude.{
  Option-cases, Result-cases, arith, inl, inr, ok, refl, true, ℕ, ◌+◌, ◌-◌, ◌≡◌, ◌≤◌,
}
use batch_it_protocol.Prelude.Int.{leb_ℤ, ℤ}
use batch_it_protocol.Prelude.Maps.{lookup-le-weight, insert, lookup}
use batch_it_protocol.Escrow.Ledger.{
  Source, vault_after, Ledger, claim, claim_accounts, mark_refundable, refund, refund_accounts,
}
use batch_it_protocol.Escrow.Ledger.Invariant.{Inv, amount_of}
use batch_it_protocol.Escrow.Ledger.View.{deposit_of, one, view, view-deposit, view-paid}
use batch_it_protocol.Escrow.Exit.Laws.{mark_refundable_lem, refund_allowed-cases, refund_lem}
use batch_it_protocol.Escrow.Launch.Laws.{}
use batch_it_protocol.Escrow.Math.Laws.{allocation_lem}
use batch_it_protocol.Escrow.Settlement.{FinalizeAccounts}
use batch_it_protocol.Escrow.Types.{TokenAccount, Contribution, Pool, Pubkey, refundable}
use batch_it_protocol.Escrow.Settlement.Laws.{claim_lem}
use batch_it_protocol.Escrow.Runtime.{IsRuntime, Runtime}
use batch_it_protocol.Escrow.Spec.{Moves, gives_up, pays, returns, append, still, then_}
use batch_it_protocol.Escrow.Exit.{refund_allowed}
use batch_it_protocol.Prelude.Division.{share}

module _ (r : Runtime) (legal : IsRuntime r) (l l' : Ledger) (v : Inv l) where
  pub claim-Moves :
      (who : Pubkey) (source : Source) (wallet : TokenAccount) {source' wallet' : TokenAccount}
      → claim r who source wallet l ≡ ok (l', source', wallet')
      → Moves (view l) (view l')
  unfolding claim view
  claim-Moves who source wallet e = elim (Option-cases (lookup who l.contributions)) [
    | inl missing ↦ absurd (ground arith)
    | inr (c, found) ↦
        elim (Result-cases (Settlement.claim r (claim_accounts r who source wallet c l))) [
          | inr (x, failed) ↦ absurd (ground arith)
          | inl (a, done) ↦
              let (n, share_of, st, fresh, _, left, _, pool', contribution') =
                claim_lem r legal (claim_accounts r who source wallet c l) done in
              let d : ℕ = l.pool.distributable in
              let t : ℕ = l.pool.total_contributed in
              let part = lookup-le-weight amount_of who l.contributions in
              let fits : c.amount ≤ t = ground (arith, v.counted) in
              let exact =
                allocation_lem d c.amount t (v.settled_total st) fits (v.settled_range st)
                  (omega (arith, v.capped, v.in_range)) in
              let n_share : n ≡ share d t (deposit_of l.contributions who) = ground arith in
              let c' : Contribution = record c { claimed = true } in
              let same : l' ≡ record l {
                pool = record (l.pool) {
                  total_claimed = l.pool.total_claimed + share d t (deposit_of l.contributions who);
                };
                vault_tokens = vault_after source a.vault_ata l;
                contributions = insert who c' l.contributions;
              } =
                ground arith in
              rw same (
                one (pays who st (ground arith)) (
                  view-paid
                    (record (l.pool) {
                      total_claimed =
                          l.pool.total_claimed + share d t (deposit_of l.contributions who);
                    })
                    who c' l.contributions refl (ground arith)))
        ]
  ]

  pub mark_refundable-Moves : (now : ℤ) → mark_refundable now l ≡ ok l' → Moves (view l) (view l')
  unfolding mark_refundable view
  mark_refundable-Moves now e = elim (Result-cases (Exit.mark_refundable now l.pool)) [
    | inr (x, failed) ↦ absurd (ground arith)
    | inl (p, done) ↦
        let f = mark_refundable_lem now l.pool done in
        let same : l' ≡ record l { pool = record (l.pool) { status = refundable } } =
          ground arith in
        rw same (then_ still (gives_up now f.0 f.1))
  ]

  -- A refund of a pool that is not refundable yet makes it so first.
  refundable_first :
      (now : ℤ)
      → refund_allowed l.pool.status (leb_ℤ l.pool.grace_ends_at now) ≡ true
      → Moves (view l) (record (view l) { phase = refundable })
  unfolding view
  refundable_first now allowed =
      elim (refund_allowed-cases l.pool.status (leb_ℤ l.pool.grace_ends_at now) allowed) [
        | inl already ↦ subst (λ s. Moves (view l) (record (view l) { phase = s })) already still
        | inr (over, early) ↦ then_ still (gives_up now early over)
      ]

  pub refund-Moves :
      (now : ℤ) (who : Pubkey) (wallet : ℕ) {wallet' : ℕ}
      → refund now who wallet l ≡ ok (l', wallet')
      → Moves (view l) (view l')
  unfolding refund view
  refund-Moves now who wallet e = elim (Option-cases (lookup who l.contributions)) [
    | inl missing ↦ absurd (ground arith)
    | inr (c, found) ↦ elim (Result-cases (Exit.refund now (refund_accounts who wallet c l))) [
      | inr (x, failed) ↦ absurd (ground arith)
      | inl (a, done) ↦
          let f = refund_lem now (refund_accounts who wallet c l) done in
          let c' : Contribution = record c { amount = 0; refunded = true } in
          let n : ℕ = deposit_of l.contributions who in
          let p : Pool = record (l.pool) {
            status = refundable;
            total_contributed = l.pool.total_contributed - n;
            total_refunded = l.pool.total_refunded + n;
          } in
          let same : l' ≡ record l {
            pool = p;
            pool_lamports = a.pool_lamports;
            contributions = insert who c' l.contributions;
          } =
            ground arith in
          rw same (
            append (refundable_first now f.0) (
              one (returns who refl (ground arith) (ground arith))
                (view-deposit p who 0 c' l.contributions refl (ground arith))))
    ]
  ]

  pub received-Moves :
      (lamports tokens buyer_lamports : ℕ)
      → l' ≡ record l {
        pool_lamports = l.pool_lamports + lamports;
        vault_tokens = l.vault_tokens + tokens;
        buyer_lamports = buyer_lamports;
      }
      → Moves (view l) (view l')
  unfolding view
  received-Moves lamports tokens buyer_lamports e = rw e still
