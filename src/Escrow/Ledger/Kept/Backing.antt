-- ===== src/Escrow/Ledger/Kept/Backing.antt =====
-- The instructions that settle a pool leave it backed by its vault, if it was, whatever token account of
-- the buyer's they are passed.
use batch_it_protocol.Escrow.Settlement
use batch_it_protocol.Prelude.{
  List, Option-cases, Result-cases, arith, inl, inr, ok, true, ℕ, ◌+◌, ◌≡◌, ◌≤◌,
}
use batch_it_protocol.Prelude.Division.{share}
use batch_it_protocol.Prelude.Maps.{insert, lookup, lookup-le-weight, weight-insert}
use batch_it_protocol.Escrow.Ledger.{
  Ledger, Source, another, passed, claim, claim_accounts, finalize, finalize_accounts, the_vault,
  vault_after,
}
use batch_it_protocol.Escrow.Ledger.Invariant.{Backed, Inv, amount_of, owed_on}
use batch_it_protocol.Escrow.Ledger.Kept.Payout.{weight-owed-le}
use batch_it_protocol.Escrow.Math.Laws.{allocation_lem}
use batch_it_protocol.Escrow.Runtime.{IsRuntime, Runtime}
use batch_it_protocol.Escrow.Settlement.{ClaimAccounts, FinalizeAccounts}
use batch_it_protocol.Escrow.Settlement.Laws.{claim_lem, finalize_lem}
use batch_it_protocol.Escrow.Types.{Contribution, Pubkey, TokenAccount}

-- The vault loses at most what the account passed loses.
drawn :
    (r : Runtime) (source : Source) (l : Ledger) (after : TokenAccount) (n : ℕ)
    → after.amount + n ≡ (passed r source l).amount
    → l.vault_tokens ≤ vault_after source after l + n
drawn r the_vault l after n e = omega (arith, e)
drawn r (another account) l after n e = omega arith

pub finalize-Backed :
    (r : Runtime) (legal : IsRuntime r) (curve : List ℕ) (source : Source) (l l' : Ledger)
    {account : TokenAccount}
    → finalize r curve source l ≡ ok (l', account)
    → Inv l
    → Backed l
    → Backed l'
unfolding finalize
finalize-Backed r legal curve source l l' e v backed =
    let accounts = finalize_accounts r curve source l in
    elim (Result-cases (Settlement.finalize r accounts)) [
      | inr (x, failed) ↦ absurd (ground arith)
      | inl (a, done) ↦
          let f = finalize_lem r legal accounts done in
          let t : ℕ = l.pool.total_contributed in
          let due = weight-owed-le a.pool.distributable t l.contributions f.1 v.counted in
          let left = drawn r source l a.associated_user a.pool.burned f.4 in
          let whole : a.pool.total_contributed ≡ l.pool.total_contributed = ground arith in
          let stock = backed.stocked f.0 in
          let same : l'
              ≡ record l { pool = a.pool; vault_tokens = vault_after source a.associated_user l } =
            ground arith in
          rw same (record {
            stocked = λ s. ground arith;
            covered = λ s. rw whole (omega (arith, due, left, stock, f.3));
          })
    ]

pub claim-Backed :
    (r : Runtime) (legal : IsRuntime r) (who : Pubkey) (source : Source) (wallet : TokenAccount)
    (l l' : Ledger) {source' wallet' : TokenAccount}
    → claim r who source wallet l ≡ ok (l', source', wallet')
    → Inv l
    → Backed l
    → Backed l'
unfolding claim
claim-Backed r legal who source wallet l l' e v backed =
    elim (Option-cases (lookup who l.contributions)) [
      | inl missing ↦ absurd (ground arith)
      | inr (c, found) ↦
          let accounts = claim_accounts r who source wallet c l in
          elim (Result-cases (Settlement.claim r accounts)) [
            | inr (x, failed) ↦ absurd (ground arith)
            | inl (a, done) ↦
                let (n, share_of, st, fresh, _, left, _, pool', contribution') =
                  claim_lem r legal accounts done in
                let d : ℕ = l.pool.distributable in
                let t : ℕ = l.pool.total_contributed in
                let c' : Contribution = record c { claimed = true } in
                let part = lookup-le-weight amount_of who l.contributions in
                let fits : c.amount ≤ t = ground (arith, v.counted) in
                let exact =
                  allocation_lem d c.amount t (v.settled_total st) fits (v.settled_range st)
                    (omega (arith, v.capped, v.in_range)) in
                let n_share : n ≡ share d t c.amount = ground arith in
                let dues = weight-insert (owed_on d t) who c' l.contributions in
                let before = backed.covered st in
                let taken = drawn r source l a.vault_ata n left in
                let same : l' ≡ record l {
                  pool = record (l.pool) { total_claimed = l.pool.total_claimed + n };
                  vault_tokens = vault_after source a.vault_ata l;
                  contributions = insert who c' l.contributions;
                } =
                  ground arith in
                rw same (record { stocked = λ s. ground arith; covered = λ s. ground arith })
          ]
    ]
