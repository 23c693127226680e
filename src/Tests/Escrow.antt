-- ===== src/Tests/Escrow.antt =====
-- Instances of the theorems about the escrow program.
use batch_it_protocol.Escrow.Settlement
use batch_it_protocol.Escrow.Launch
use batch_it_protocol.Escrow.Math
use batch_it_protocol.Prelude.{
  arith, err, false, inl, is_ok, ok, refl, some, true, ℕ, ◌+◌, ◌-◌, ◌<◌, ◌≡◌, ◌≢◌, ◌⊎◌, List, [],
  ◌∷◌, ◌≤◌,
}
use batch_it_protocol.Prelude.Division.{share}
use batch_it_protocol.Prelude.Int.{pos, pos_part, ℤ, ◌+ℤ◌}
use batch_it_protocol.Prelude.Maps.{lookup, weight}
use batch_it_protocol.Burn
use batch_it_protocol.Burn.{BurnBreakdown}
use batch_it_protocol.Escrow.Exit.{close_pool}
use batch_it_protocol.Escrow.Exit
use batch_it_protocol.Escrow.Funding.{create_pool}
use batch_it_protocol.Escrow.Ledger.Steps.{Reachable, next, paid_back}
use batch_it_protocol.Escrow.Ledger.Reopening.{reopened_locks_out}
use batch_it_protocol.Escrow.Types.{
  Contribution, Pool, default_pubkey, refundable, TokenAccount, bought, create_not_landed,
  finalized, pool_not_empty, program,
}
use batch_it_protocol.Escrow.Launch.{BuyAccounts}
use batch_it_protocol.Escrow.Launch.Laws.{complete_buy_create_missing}
use batch_it_protocol.Escrow.Ledger.{
  another, Ledger, contribute, claim, complete_buy, refund, the_vault, vault,
}
use batch_it_protocol.Escrow.Ledger.Backing.{claim_always, vault_covers}
use batch_it_protocol.Escrow.Ledger.Finality.{bought_is_final, finalized-close_pool}
use batch_it_protocol.Escrow.Ledger.Guarantees.{Reachable-Inv, refund_always}
use batch_it_protocol.Escrow.Ledger.Invariant.{Inv, owed_on}
use batch_it_protocol.Escrow.Ledger.Lifecycle.{Edge, Step-Edge}
use batch_it_protocol.Escrow.Math.{allocation, compute_distributable}
use batch_it_protocol.Escrow.Math.Agreement.{
  allocation_agrees, compute_distributable_agrees, compute_distributable_truncates,
}
use batch_it_protocol.Escrow.Settlement.{FinalizeAccounts}
use batch_it_protocol.Tests.Runtime.{curve, runtime, runtime-IsRuntime}
use batch_it_protocol.Tests.Scenario.{
  Leads-final, raised_pool, new_pool, Reachable-bought, Reachable-launching, buy_step,
  launching_ledger, Reachable-final, Reachable-raised, bought_ledger, bought_pool, contribution,
  final_ledger, final_pool, launching_pool, pump, raised_ledger, settle,
}

Reachable-Inv_example : Inv final_ledger
Reachable-Inv_example = Reachable-Inv runtime runtime-IsRuntime pump final_ledger Reachable-final

refund_always_example :
    (l' : Ledger) × (refund (pos 150) 2 300 raised_ledger ≡ ok (l', 306))
    × (l'.pool_lamports + 6 ≡ 1010)
    × (l'.pool.total_contributed + 6 ≡ 10)
    × (lookup 2 l'.contributions ≡ some (record (contribution 2 6) { amount = 0; refunded = true }))
refund_always_example =
    refund_always runtime runtime-IsRuntime pump (pos 150) 2 300 raised_ledger (contribution 2 6)
      Reachable-raised (inl refl) refl refl (omega arith) (omega arith)

-- The first contributor has been refunded.
abbrev half_ledger : Ledger
half_ledger = record raised_ledger {
  pool = record raised_pool { status = refundable; total_contributed = 6; total_refunded = 4 };
  pool_lamports = 1006;
  contributions =
      (1, record (contribution 1 4) { amount = 0; refunded = true }) ∷ (2, contribution 2 6) ∷ [];
}

abbrev pool_anew : Pool
pool_anew = record new_pool { launch_at = pos 300; grace_ends_at = pos 350 }

abbrev wallet : TokenAccount
wallet = record { owner = 2; mint = 9; amount = 0 }

claim_always_example :
    (l' : Ledger) × (wallet' : TokenAccount) × (claim runtime 2 the_vault wallet final_ledger
      ≡ ok (l', vault runtime l', wallet'))
    × (wallet'.amount ≡ 0 + share 50 10 6)
    × (l'.vault_tokens + share 50 10 6 ≡ 50)
    × (lookup 2 l'.contributions ≡ some (record (contribution 2 6) { claimed = true }))
claim_always_example =
    claim_always runtime runtime-IsRuntime pump 2 wallet bought_ledger final_ledger
      (contribution 2 6) Reachable-bought refl (omega arith) Leads-final refl refl refl
      (omega arith) refl refl (omega arith)

vault_covers_example :
    ((finalized ≡ bought) × (60 ≤ 50))
    ⊎ ((finalized ≡ finalized) × (weight (owed_on 50 10) final_ledger.contributions ≤ 50))
vault_covers_example =
    vault_covers runtime runtime-IsRuntime pump (pos 110) 9 pump (1 ∷ []) 30 launching_ledger
      bought_ledger final_ledger (vault runtime bought_ledger) Reachable-launching refl buy_step
      Leads-final

-- A buy into somebody else's token account: the pool is bought, and the vault is empty.
stray_buy :
    complete_buy runtime pump
      (pos 110)
      9
      pump
      (1 ∷ [])
      (another (record { owner = 5; mint = 9; amount = 0 }))
      30
      launching_ledger
    ≡ ok (record bought_ledger { vault_tokens = 0 }, record { owner = 5; mint = 9; amount = 60 })
unfolding complete_buy Launch.complete_buy Launch.execute_buy Math.decode_bonding_curve_reserves
stray_buy = refl

-- The two contributors of a pool that was refunded and closed.
abbrev refunded_ledger : Ledger
refunded_ledger = record raised_ledger {
  pool = record raised_pool { status = refundable; total_contributed = 0; total_refunded = 10 };
  pool_lamports = 1000;
  contributions =
      (1, record (contribution 1 4) { amount = 0; refunded = true })
      ∷ (2, record (contribution 2 6) { amount = 0; refunded = true })
      ∷ [];
}

first_refund : refund (pos 150) 1 300 raised_ledger ≡ ok (half_ledger, 304)
unfolding refund Exit.refund
first_refund = refl

second_refund : refund (pos 160) 2 300 half_ledger ≡ ok (refunded_ledger, 306)
unfolding refund Exit.refund
second_refund = refl

pool_closed : close_pool 7 500 refunded_ledger.pool 1000 ≡ ok 1500
unfolding close_pool
pool_closed = refl

pool_again : create_pool (pos 200) 7 254 255 0 (pos 300) (pos 50) 2 10 1 ≡ ok pool_anew
unfolding create_pool ◌+ℤ◌
pool_again = refl

-- The pool created again is reachable, and the two are locked out of it.
two_locked_out :
    Reachable runtime pump (record refunded_ledger { pool = pool_anew; pool_lamports = 900 })
    × ((who : ℕ) (c : Contribution) (when : ℤ) (b w n : ℕ)
        → who ≢ default_pubkey
        → lookup who refunded_ledger.contributions ≡ some c
        → is_ok (
            contribute runtime when who b w n
              (record refunded_ledger { pool = pool_anew; pool_lamports = 900 }))
          ≡ false)
two_locked_out =
    reopened_locks_out runtime runtime-IsRuntime pump refunded_ledger 500 (pos 200) 254 255 0
      (pos 300) (pos 50) 2 10 1 1500 pool_anew 900
      (next (next Reachable-raised (paid_back (pos 150) 1 300 first_refund))
        (paid_back (pos 160) 2 300 second_refund))
      pool_closed (omega arith) pool_again

bought_is_final_example :
    ((finalized ≡ bought) ⊎ (finalized ≡ finalized))
    × ((now : ℤ) (who : ℕ) (w : ℕ) → is_ok (refund now who w final_ledger) ≡ false)
bought_is_final_example =
    bought_is_final runtime runtime-IsRuntime pump bought_ledger final_ledger (inl refl) Leads-final

Step-Edge_example : Edge bought finalized
Step-Edge_example = Step-Edge runtime runtime-IsRuntime pump bought_ledger final_ledger settle

finalized-close_pool_example : close_pool 7 500 final_pool 1000 ≡ err (program pool_not_empty)
finalized-close_pool_example =
    finalized-close_pool runtime runtime-IsRuntime pump final_ledger 500 Reachable-final refl

compute_distributable_agrees_example :
    (r : BurnBreakdown) × (Burn.compute_distributable (pos 10) (pos 60) (pos 100) (pos 20) ≡ ok r)
    × (compute_distributable 10 60 100 20 ≡ ok (pos_part r.distributable, pos_part r.burned))
compute_distributable_agrees_example =
    compute_distributable_agrees 10 60 100 20 (omega arith) (omega arith) (omega arith)
      (omega arith) (omega arith) (omega arith)

-- 2^40 lamports at the price of one lamport for 2^24 + 1 tokens.
compute_distributable_truncates_example :
    (r : BurnBreakdown) × (Burn.compute_distributable
        (pos 0x100_0000_0000)
        (pos 0x200_0000_0000)
        (pos 0x100_0001)
        (pos 1)
      ≡ ok r)
    × (r.burned ≡ pos 0)
    × (b : ℕ) × (compute_distributable 0x100_0000_0000 0x200_0000_0000 0x100_0001 1
        ≡ ok (0x200_0000_0000 - b, b))
    × (0 < b)
compute_distributable_truncates_example =
    compute_distributable_truncates 0x100_0000_0000 0x200_0000_0000 0x100_0001 1 (omega arith)
      (omega arith) (omega arith) (omega arith) (omega arith) (omega arith) (omega arith)
      (omega arith)

allocation_agrees_example :
    (a : ℕ) × (allocation 50 6 10 ≡ ok a) × (Burn.allocation (pos 50) (pos 6) (pos 10) ≡ ok (pos a))
allocation_agrees_example =
    allocation_agrees 50 6 10 (omega arith) (omega arith) (omega arith) (omega arith)

abbrev buy_accounts : List ℕ → BuyAccounts
buy_accounts curve_data = record {
  pool = launching_pool;
  pool_lamports = 1010;
  mint = 9;
  curve_owner = pump;
  market = record {
    buyer_lamports = 0;
    associated_user = record { owner = 71; mint = 9; amount = 0 };
    curve_data = curve_data;
  };
}

create_missing :
    Launch.complete_buy runtime pump (pos 110) (buy_accounts []) 30
    ≡ err (program create_not_landed)
create_missing =
    complete_buy_create_missing runtime pump (pos 110) (buy_accounts []) 30 refl refl (omega arith)
      refl (inl refl)

abbrev finalize_accounts : FinalizeAccounts
finalize_accounts = record {
  pool_key = 70;
  pool = bought_pool;
  associated_user = vault runtime bought_ledger;
  curve_data = curve;
}
