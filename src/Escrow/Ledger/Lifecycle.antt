-- ===== src/Escrow/Ledger/Lifecycle.antt =====
-- How a pool's status moves, and what follows from it.
use batch_it_protocol.Escrow.Funding
use batch_it_protocol.Escrow.Launch
use batch_it_protocol.Escrow.Settlement
use batch_it_protocol.Escrow.Exit
use batch_it_protocol.Prelude.{
  Bool-cases, List, Option-cases, Result-cases, ap, arith, inl, inr, ok, refl, ℕ, ◌≡◌, ◌⊎◌,
}
use batch_it_protocol.Prelude.Int.{leb_ℤ, ℤ}
use batch_it_protocol.Prelude.Maps.{lookup}
use batch_it_protocol.Escrow.Exit.Laws.{mark_refundable_lem, refund_allowed-cases, refund_lem}
use batch_it_protocol.Escrow.Funding.{ContributeAccounts}
use batch_it_protocol.Escrow.Funding.Laws.{contribute_lem}
use batch_it_protocol.Escrow.Launch.{BuyAccounts}
use batch_it_protocol.Escrow.Launch.Laws.{
  begin_launch_lem, complete_buy_idempotent, complete_buy_lem, execute_buy_lem,
}
use batch_it_protocol.Escrow.Ledger.{
  Source, contribute_accounts, buy_accounts, finalize_accounts, Ledger, begin_launch, claim,
  claim_accounts, complete_buy, contribute, finalize, mark_refundable, refund, refund_accounts,
}
use batch_it_protocol.Escrow.Ledger.Steps.{
  Step, bought_in, contributed, launched, marked, paid_back, paid_out, received, settled,
}
use batch_it_protocol.Escrow.Runtime.{IsRuntime, Runtime}
use batch_it_protocol.Escrow.Settlement.{FinalizeAccounts}
use batch_it_protocol.Escrow.Types.{
  TokenAccount, PoolStatus, Pubkey, bought, finalized, is_status, launching, opened, refundable,
}
use batch_it_protocol.Escrow.Settlement.Laws.{claim_lem, finalize_lem}

-- The life of a pool: the moves of the status that state.rs describes.
pub data Edge : PoolStatus → PoolStatus → Type 0 where
  stay : {s : PoolStatus} → Edge s s
  begin : Edge opened launching
  buy : Edge launching bought
  settle : Edge bought finalized
  give_up_open : Edge opened refundable
  give_up_launching : Edge launching refundable

abbrev status_of : Ledger → PoolStatus
status_of l = l.pool.status

Edge-of : {s t s' t' : PoolStatus} → s ≡ s' → t ≡ t' → Edge s' t' → Edge s t
Edge-of p q e = rw (p, q) e

refundable-Edge :
    {s t : PoolStatus}
    → (s ≡ refundable) ⊎ ((s ≡ launching) ⊎ (s ≡ opened))
    → t ≡ refundable
    → Edge s t
refundable-Edge (inl p) q = Edge-of p q stay
refundable-Edge (inr (inl p)) q = Edge-of p q give_up_launching
refundable-Edge (inr (inr p)) q = Edge-of p q give_up_open

module _ (r : Runtime) (legal : IsRuntime r) (l l' : Ledger) where
  contribute-status :
      (now : ℤ) (who bump wallet n : ℕ) {wallet' : ℕ}
      → contribute r now who bump wallet n l ≡ ok (l', wallet')
      → l'.pool.status ≡ l.pool.status
  unfolding contribute
  contribute-status now who bump wallet n e =
      let accounts = contribute_accounts who bump wallet l in
      elim (Result-cases (Funding.contribute r now accounts n)) [
        | inr (x, failed) ↦ absurd (ground arith)
        | inl (a, done) ↦ ground (arith, contribute_lem r legal now accounts n done)
      ]

  pub begin_launch-status :
      (now : ℤ) (mint : ℕ)
      → begin_launch now mint l ≡ ok l'
      → (l.pool.status ≡ opened) × (l'.pool.status ≡ launching)
  unfolding begin_launch
  begin_launch-status now mint e = elim (Result-cases (Launch.begin_launch now l.pool mint)) [
    | inr (x, failed) ↦ absurd (ground arith)
    | inl (p, done) ↦ ground (arith, begin_launch_lem now l.pool mint done)
  ]

  complete_buy-status :
      (pump : ℕ) (now : ℤ) (mint owner : ℕ) (curve : List ℕ) (source : Source) (n : ℕ)
      {account : TokenAccount}
      → complete_buy r pump now mint owner curve source n l ≡ ok (l', account)
      → ((l.pool.status ≡ launching) ⊎ (l.pool.status ≡ bought)) × (l'.pool.status ≡ bought)
  unfolding complete_buy
  complete_buy-status pump now mint owner curve source n e =
      let accounts = buy_accounts r mint owner curve source l in
      elim (Result-cases (Launch.complete_buy r pump now accounts n)) [
        | inr (x, failed) ↦ absurd (ground arith)
        | inl (a, done) ↦ elim (Bool-cases (is_status l.pool.status bought)) [
          | inl again ↦ ground (arith, complete_buy_idempotent r pump now accounts n)
          | inr first ↦
              let f = complete_buy_lem r pump now accounts n done (ground arith) in
              ground (arith, f, execute_buy_lem r accounts n f.5)
        ]
      ]

  finalize-status :
      (curve : List ℕ) (source : Source) {account : TokenAccount}
      → finalize r curve source l ≡ ok (l', account)
      → (l.pool.status ≡ bought) × (l'.pool.status ≡ finalized)
  unfolding finalize
  finalize-status curve source e =
      let accounts = finalize_accounts r curve source l in
      elim (Result-cases (Settlement.finalize r accounts)) [
        | inr (x, failed) ↦ absurd (ground arith)
        | inl (a, done) ↦ ground (arith, finalize_lem r legal accounts done)
      ]

  claim-status :
      (who : ℕ) (source : Source) (wallet : TokenAccount) {source' wallet' : TokenAccount}
      → claim r who source wallet l ≡ ok (l', source', wallet')
      → l'.pool.status ≡ l.pool.status
  unfolding claim
  claim-status who source wallet e = elim (Option-cases (lookup who l.contributions)) [
    | inl missing ↦ absurd (ground arith)
    | inr (c, found) ↦
        elim (Result-cases (Settlement.claim r (claim_accounts r who source wallet c l))) [
          | inr (x, failed) ↦ absurd (ground arith)
          | inl (a, done) ↦
              let f = claim_lem r legal (claim_accounts r who source wallet c l) done in
              let same = f.7 in ground arith
        ]
  ]

  pub mark_refundable-status :
      (now : ℤ)
      → mark_refundable now l ≡ ok l'
      → ((l.pool.status ≡ refundable) ⊎ ((l.pool.status ≡ launching) ⊎ (l.pool.status ≡ opened)))
        × (l'.pool.status ≡ refundable)
  unfolding mark_refundable
  mark_refundable-status now e = elim (Result-cases (Exit.mark_refundable now l.pool)) [
    | inr (x, failed) ↦ absurd (ground arith)
    | inl (p, done) ↦ ground (arith, mark_refundable_lem now l.pool done)
  ]

  pub refund-status :
      (now : ℤ) (who wallet : ℕ) {wallet' : ℕ}
      → refund now who wallet l ≡ ok (l', wallet')
      → ((l.pool.status ≡ refundable) ⊎ ((l.pool.status ≡ launching) ⊎ (l.pool.status ≡ opened)))
        × (l'.pool.status ≡ refundable)
  unfolding refund
  refund-status now who wallet e = elim (Option-cases (lookup who l.contributions)) [
    | inl missing ↦ absurd (ground arith)
    | inr (c, found) ↦ elim (Result-cases (Exit.refund now (refund_accounts who wallet c l))) [
      | inr (x, failed) ↦ absurd (ground arith)
      | inl (a, done) ↦
          let f = refund_lem now (refund_accounts who wallet c l) done in
          ground (arith, f, refund_allowed-cases l.pool.status (leb_ℤ l.pool.grace_ends_at now) f.0)
    ]
  ]

-- Whatever happens to a pool, its status stays or moves along the diagram: from open to launching,
-- bought and finalized, or from open or launching to refundable.
pub Step-Edge :
    (r : Runtime) (legal : IsRuntime r) (pump : Pubkey) (l l' : Ledger)
    → Step r pump l l'
    → Edge l.pool.status l'.pool.status
Step-Edge r legal pump l l' (contributed now who bump wallet n e) =
    Edge-of refl (contribute-status r legal l l' now who bump wallet n e) stay
Step-Edge r legal pump l l' (launched now mint e) =
    let (p, q) = begin_launch-status r legal l l' now mint e in Edge-of p q begin
Step-Edge r legal pump l l' (bought_in now mint owner curve source n e) =
    let (why, q) = complete_buy-status r legal l l' pump now mint owner curve source n e in
    elim why [ inl p ↦ Edge-of p q buy | inr p ↦ Edge-of p q stay ]
Step-Edge r legal pump l l' (settled curve source e) =
    let (p, q) = finalize-status r legal l l' curve source e in Edge-of p q settle
Step-Edge r legal pump l l' (paid_out who source wallet e) =
    Edge-of refl (claim-status r legal l l' who source wallet e) stay
Step-Edge r legal pump l l' (marked now e) =
    let (p, q) = mark_refundable-status r legal l l' now e in refundable-Edge p q
Step-Edge r legal pump l l' (paid_back now who wallet e) =
    let (p, q) = refund-status r legal l l' now who wallet e in refundable-Edge p q
Step-Edge r legal pump l l' (received lamports tokens buyer e) = Edge-of refl (ap status_of e) stay
