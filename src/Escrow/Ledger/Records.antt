-- ===== src/Escrow/Ledger/Records.antt =====
-- No contributor has two records.
use mathlib.Core.Path.{subst}
use batch_it_protocol.Escrow.Funding
use batch_it_protocol.Escrow.Launch
use batch_it_protocol.Escrow.Settlement
use batch_it_protocol.Escrow.Exit
use batch_it_protocol.Prelude.{List, Option-cases, Result-cases, arith, inl, inr, refl, sym, ◌≡◌}
use batch_it_protocol.Prelude.Maps.{IsDistinct, insert, insert-IsDistinct, lookup}
use batch_it_protocol.Escrow.Funding.{ContributeAccounts}
use batch_it_protocol.Escrow.Launch.{BuyAccounts}
use batch_it_protocol.Escrow.Ledger.{
  contribute_accounts, buy_accounts, finalize_accounts, Ledger, begin_launch, claim, claim_accounts,
  complete_buy, contribute, finalize, mark_refundable, refund, refund_accounts,
}
use batch_it_protocol.Escrow.Ledger.Steps.{
  Reachable, Step, bought_in, contributed, created, launched, marked, next, paid_back, paid_out,
  received, settled, start, Opened,
}
use batch_it_protocol.Escrow.Runtime.{Runtime}
use batch_it_protocol.Escrow.Settlement.{FinalizeAccounts}
use batch_it_protocol.Escrow.Types.{Contribution, Pubkey}

-- The records as the instructions change them: not at all, or by writing one.
data Written (m : List (Pubkey × Contribution)) : List (Pubkey × Contribution) → Type 0 where
  as_before : Written m m
  one_record : (who : Pubkey) (c : Contribution) → Written m (insert who c m)

as_it_was : {m m' : List (Pubkey × Contribution)} → m' ≡ m → Written m m'
as_it_was {m} e = subst (λ x. Written m x) (sym e) as_before

wrote :
    {m m' : List (Pubkey × Contribution)} (who : Pubkey) (c : Contribution)
    → m' ≡ insert who c m
    → Written m m'
wrote {m} who c e = subst (λ x. Written m x) (sym e) (one_record who c)

module _ (r : Runtime) (pump : Pubkey) where
  Step-Written : {l l' : Ledger} → Step r pump l l' → Written l.contributions l'.contributions
  unfolding contribute begin_launch complete_buy finalize claim mark_refundable refund
  Step-Written {l} {l'} (contributed now who bump wallet n e) =
      let accounts = contribute_accounts who bump wallet l in
      elim (Result-cases (Funding.contribute r now accounts n)) [
        | inr (x, failed) ↦ absurd (ground arith)
        | inl (a, done) ↦ wrote who a.contribution (ground arith)
      ]
  Step-Written {l} {l'} (launched now mint e) =
      elim (Result-cases (Launch.begin_launch now l.pool mint)) [
        | inr (x, failed) ↦ absurd (ground arith)
        | inl (p, done) ↦ as_it_was (ground arith)
      ]
  Step-Written {l} {l'} (bought_in now mint owner curve source n e) =
      let accounts = buy_accounts r mint owner curve source l in
      elim (Result-cases (Launch.complete_buy r pump now accounts n)) [
        | inr (x, failed) ↦ absurd (ground arith)
        | inl (a, done) ↦ as_it_was (ground arith)
      ]
  Step-Written {l} {l'} (settled curve source e) =
      let accounts = finalize_accounts r curve source l in
      elim (Result-cases (Settlement.finalize r accounts)) [
        | inr (x, failed) ↦ absurd (ground arith)
        | inl (a, done) ↦ as_it_was (ground arith)
      ]
  Step-Written {l} {l'} (paid_out who source wallet e) =
      elim (Option-cases (lookup who l.contributions)) [
        | inl missing ↦ absurd (ground arith)
        | inr (c, found) ↦
            elim (Result-cases (Settlement.claim r (claim_accounts r who source wallet c l))) [
              | inr (x, failed) ↦ absurd (ground arith)
              | inl (a, done) ↦ wrote who a.contribution (ground arith)
            ]
      ]
  Step-Written {l} {l'} (marked now e) = elim (Result-cases (Exit.mark_refundable now l.pool)) [
    | inr (x, failed) ↦ absurd (ground arith)
    | inl (p, done) ↦ as_it_was (ground arith)
  ]
  Step-Written {l} {l'} (paid_back now who wallet e) =
      elim (Option-cases (lookup who l.contributions)) [
        | inl missing ↦ absurd (ground arith)
        | inr (c, found) ↦ elim (Result-cases (Exit.refund now (refund_accounts who wallet c l))) [
          | inr (x, failed) ↦ absurd (ground arith)
          | inl (a, done) ↦ wrote who a.contribution (ground arith)
        ]
      ]
  Step-Written {l} {l'} (received lamports tokens buyer e) = as_it_was (rw e refl)

Written-IsDistinct :
    {m m' : List (Pubkey × Contribution)} → Written m m' → IsDistinct m → IsDistinct m'
Written-IsDistinct as_before h = h
Written-IsDistinct {m} (one_record who c) h = insert-IsDistinct who c m h

Opened-IsDistinct : {l : Ledger} → Opened l → IsDistinct l.contributions
Opened-IsDistinct (created _ _ _ _ _ _ _ _ _ _ _ _ _ apart) = apart

pub Reachable-IsDistinct :
    (r : Runtime) (pump : Pubkey) {l : Ledger} → Reachable r pump l → IsDistinct l.contributions
Reachable-IsDistinct r pump (start o) = Opened-IsDistinct o
Reachable-IsDistinct r pump (next before s) =
    Written-IsDistinct (Step-Written r pump s) (Reachable-IsDistinct r pump before)
