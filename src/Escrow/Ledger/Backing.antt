-- ===== src/Escrow/Ledger/Backing.antt =====
-- The tokens bought: if the buy was made into the vault, the vault covers all that the pool ever owes.
use batch_it_protocol.Escrow.Funding
use batch_it_protocol.Escrow.Launch
use batch_it_protocol.Prelude.{
  List, Result-cases, arith, false, inl, inr, ok, refl, some, true, ℕ, ◌+◌, ◌<◌, ◌≡◌, ◌≤◌, ◌⊎◌,
}
use batch_it_protocol.Prelude.Division.{share}
use batch_it_protocol.Prelude.Int.{ℤ}
use batch_it_protocol.Prelude.Maps.{lookup, lookup-insert, weight}
use batch_it_protocol.Prelude.Words.{u64_mod}
use batch_it_protocol.Escrow.Funding.{ContributeAccounts}
use batch_it_protocol.Escrow.Funding.Laws.{contribute_lem}
use batch_it_protocol.Escrow.Launch.{BuyAccounts}
use batch_it_protocol.Escrow.Launch.Laws.{
  complete_buy_idempotent, complete_buy_lem, execute_buy_lem,
}
use batch_it_protocol.Escrow.Ledger.{
  Ledger, Source, buy_accounts, claim, complete_buy, contribute, contribute_accounts, the_vault,
  vault,
}
use batch_it_protocol.Escrow.Ledger.Claiming.{claim_succeeds, claimed_by, paid_into}
use batch_it_protocol.Escrow.Ledger.Finality.{settling}
use batch_it_protocol.Escrow.Ledger.Guarantees.{Reachable-Inv}
use batch_it_protocol.Escrow.Ledger.Invariant.{Backed, Inv, owed_on}
use batch_it_protocol.Escrow.Ledger.Kept.Backing.{claim-Backed, finalize-Backed}
use batch_it_protocol.Escrow.Ledger.Kept.Begin.{passed-kept}
use batch_it_protocol.Escrow.Ledger.Lifecycle.{
  begin_launch-status, mark_refundable-status, refund-status,
}
use batch_it_protocol.Escrow.Ledger.Steps.{
  Leads, Reachable, Step, bought_in, contributed, here, launched, marked, next, paid_back, paid_out,
  received, settled, then_,
}
use batch_it_protocol.Escrow.Runtime.{IsRuntime, Runtime}
use batch_it_protocol.Escrow.Types.{
  Contribution, Pubkey, TokenAccount, bought, finalized, launching,
}

pub Leads-Reachable :
    (r : Runtime) (pump : Pubkey) {l l' : Ledger}
    → Reachable r pump l
    → Leads r pump l l'
    → Reachable r pump l'
Leads-Reachable r pump reach here = reach
Leads-Reachable r pump reach (then_ steps s) = next (Leads-Reachable r pump reach steps) s

module _ (r : Runtime) (legal : IsRuntime r) (l l' : Ledger)
    (st : (l.pool.status ≡ bought) ⊎ (l.pool.status ≡ finalized)) where
  -- No contribution is taken any more.
  contribute-Backed :
      (now : ℤ) (who bump wallet n : ℕ) {wallet' : ℕ}
      → contribute r now who bump wallet n l ≡ ok (l', wallet')
      → Backed l'
  unfolding contribute
  contribute-Backed now who bump wallet n e =
      let accounts = contribute_accounts who bump wallet l in
      elim (Result-cases (Funding.contribute r now accounts n)) [
        | inr (x, failed) ↦ absurd (ground arith)
        | inl (a, done) ↦ absurd (ground (arith, contribute_lem r legal now accounts n done))
      ]

  -- No second buy is made.
  complete_buy-Backed :
      (pump : Pubkey) (now : ℤ) (mint owner : Pubkey) (curve : List ℕ) (source : Source) (n : ℕ)
      {account : TokenAccount}
      → complete_buy r pump now mint owner curve source n l ≡ ok (l', account)
      → Backed l
      → Backed l'
  unfolding complete_buy
  complete_buy-Backed pump now mint owner curve source n e backed =
      let accounts = buy_accounts r mint owner curve source l in
      elim (Result-cases (Launch.complete_buy r pump now accounts n)) [
        | inr (x, failed) ↦ absurd (ground arith)
        | inl (a, done) ↦ elim st [
          | inl again ↦
              let vault_kept = passed-kept r source l in
              let same : l' ≡ l =
                ground (arith, complete_buy_idempotent r pump now accounts n again) in
              rw same backed
          | inr over ↦
              absurd (ground (arith, complete_buy_lem r pump now accounts n done (ground arith)))
        ]
      ]

Step-Backed :
    (r : Runtime) (legal : IsRuntime r) (pump : Pubkey) (l l' : Ledger)
    → (l.pool.status ≡ bought) ⊎ (l.pool.status ≡ finalized)
    → Inv l
    → Backed l
    → Step r pump l l'
    → Backed l'
Step-Backed r legal pump l l' st v backed (contributed now who bump wallet n e) =
    contribute-Backed r legal l l' st now who bump wallet n e
Step-Backed r legal pump l l' st v backed (launched now mint e) =
    absurd (ground (arith, begin_launch-status r legal l l' now mint e))
Step-Backed r legal pump l l' st v backed (bought_in now mint owner curve source n e) =
    complete_buy-Backed r legal l l' st pump now mint owner curve source n e backed
Step-Backed r legal pump l l' st v backed (settled curve source e) =
    finalize-Backed r legal curve source l l' e v backed
Step-Backed r legal pump l l' st v backed (paid_out who source wallet e) =
    claim-Backed r legal who source wallet l l' e v backed
Step-Backed r legal pump l l' st v backed (marked now e) =
    absurd (ground (arith, mark_refundable-status r legal l l' now e))
Step-Backed r legal pump l l' st v backed (paid_back now who wallet e) =
    absurd (ground (arith, refund-status r legal l l' now who wallet e))
Step-Backed r legal pump l l' st v backed (received lamports tokens buyer e) = rw e (record {
  stocked = λ s. omega (arith, backed.stocked s);
  covered = λ s. omega (arith, backed.covered s);
})

-- A pool that was bought with its tokens in the vault stays backed by it.
pub Leads-Backed :
    (r : Runtime) (legal : IsRuntime r) (pump : Pubkey) {l l' : Ledger}
    → Reachable r pump l
    → l.pool.status ≡ bought
    → l.pool.tokens_bought ≤ l.vault_tokens
    → Leads r pump l l'
    → Backed l'
Leads-Backed r legal pump reach st stock here = record {
  stocked = λ _. stock;
  covered = λ s. ground arith;
}
Leads-Backed r legal pump {l} {l'} reach st stock (then_ {l' = m} steps s) =
    Step-Backed r legal pump m l' (settling r legal pump l m (inl st) steps)
      (Reachable-Inv r legal pump m (Leads-Reachable r pump reach steps))
      (Leads-Backed r legal pump reach st stock steps) s

-- A buy into the vault puts the tokens bought there.
pub bought_into_vault :
    (r : Runtime) (pump : Pubkey) (now : ℤ) (mint owner : Pubkey) (curve : List ℕ) (n : ℕ)
    (l l' : Ledger) {account : TokenAccount}
    → complete_buy r pump now mint owner curve the_vault n l ≡ ok (l', account)
    → l.pool.status ≡ launching
    → (l'.pool.status ≡ bought) × (l'.pool.tokens_bought ≤ l'.vault_tokens)
unfolding complete_buy
bought_into_vault r pump now mint owner curve n l l' e st =
    let accounts = buy_accounts r mint owner curve the_vault l in
    elim (Result-cases (Launch.complete_buy r pump now accounts n)) [
      | inr (x, failed) ↦ absurd (ground arith)
      | inl (a, done) ↦
          let f = complete_buy_lem r pump now accounts n done (ground arith) in
          let b = execute_buy_lem r accounts n f.5 in (ground arith, ground arith)
    ]

-- When a launching pool's buy is made into the vault, then whatever anybody does afterwards, with
-- whatever token accounts they pass, the vault holds the tokens bought while the pool is bought and,
-- once it is finalized, all that is still owed on the contributions.
pub vault_covers :
    (r : Runtime) (legal : IsRuntime r) (pump : Pubkey) (now : ℤ) (mint owner : Pubkey)
    (curve : List ℕ) (n : ℕ) (l at_buy l' : Ledger) (account : TokenAccount)
    → Reachable r pump l
    → l.pool.status ≡ launching
    → complete_buy r pump now mint owner curve the_vault n l ≡ ok (at_buy, account)
    → Leads r pump at_buy l'
    → ((l'.pool.status ≡ bought) × (l'.pool.tokens_bought ≤ l'.vault_tokens))
      ⊎ ((l'.pool.status ≡ finalized)
          × (weight (owed_on l'.pool.distributable l'.pool.total_contributed) l'.contributions
              ≤ l'.vault_tokens))
vault_covers r legal pump now mint owner curve n l at_buy l' account reach st e steps =
    let reach' = next reach (bought_in now mint owner curve the_vault n e) in
    let (was, stock) = bought_into_vault r pump now mint owner curve n l at_buy e st in
    let backed = Leads-Backed r legal pump reach' was stock steps in
    elim (settling r legal pump at_buy l' (inl was) steps) [
      | inl p ↦ inl (p, backed.stocked p)
      | inr p ↦ inr (p, backed.covered p)
    ]

-- Once a pool has been bought with its tokens in the vault, then whatever anybody does, in every
-- finalized state that follows a contributor who has not claimed yet, whose share is at least one token
-- and who passes the vault and an own token account of the pool's mint with room for the share, is
-- paid: the claim succeeds, the token account afterwards holds exactly the floor of the pro-rata share
-- more and the vault that much less, whoever has claimed before, and the record is marked.
pub claim_always :
    (r : Runtime) (legal : IsRuntime r) (pump : Pubkey) (who : Pubkey) (wallet : TokenAccount)
    (at_buy l : Ledger) (c : Contribution)
    → Reachable r pump at_buy
    → at_buy.pool.status ≡ bought
    → at_buy.pool.tokens_bought ≤ at_buy.vault_tokens
    → Leads r pump at_buy l
    → l.pool.status ≡ finalized
    → lookup who l.contributions ≡ some c
    → c.claimed ≡ false
    → 0 < share l.pool.distributable l.pool.total_contributed c.amount
    → wallet.owner ≡ who
    → wallet.mint ≡ l.pool.mint
    → wallet.amount + share l.pool.distributable l.pool.total_contributed c.amount < u64_mod
    → (l' : Ledger) × (wallet' : TokenAccount) × (claim r who the_vault wallet l
        ≡ ok (l', vault r l', wallet'))
      × (wallet'.amount
          ≡ wallet.amount + share l.pool.distributable l.pool.total_contributed c.amount)
      × (l'.vault_tokens + share l.pool.distributable l.pool.total_contributed c.amount
          ≡ l.vault_tokens)
      × (lookup who l'.contributions ≡ some (record c { claimed = true }))
claim_always r legal pump who wallet at_buy l c reach was stock steps st found fresh worth
      own_wallet right_mint room =
    let v = Reachable-Inv r legal pump l (Leads-Reachable r pump reach steps) in
    let backed = Leads-Backed r legal pump reach was stock steps in
    let (claims, in_vault) = claim_succeeds r legal l who wallet c v backed st (record {
      found = found;
      fresh = fresh;
      worth = worth;
      own_wallet = own_wallet;
      right_mint = right_mint;
      room = room;
    }) in
    (
      claimed_by who c l,
      paid_into wallet (share l.pool.distributable l.pool.total_contributed c.amount),
      claims,
      refl,
      omega (arith, in_vault),
      ground (arith, lookup-insert who who (record c { claimed = true }) l.contributions),
    )
