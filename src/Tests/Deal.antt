-- ===== src/Tests/Deal.antt =====
-- Instances of the theorems about the escrow as a deal.
use batch_it_protocol.Escrow.Settlement
use batch_it_protocol.Escrow.Math
use batch_it_protocol.Prelude.{[], arith, inl, ok, refl, true, ℕ, ◌+◌, ◌∷◌, ◌≡◌}
use batch_it_protocol.Prelude.Division.{share}
use batch_it_protocol.Prelude.Int.{pos}
use batch_it_protocol.Escrow.Exit.{close_pool}
use batch_it_protocol.Escrow.Ledger.{Ledger, claim, the_vault, vault}
use batch_it_protocol.Escrow.Ledger.Backing.{Leads-Backed}
use batch_it_protocol.Escrow.Ledger.Claiming.{paid_into, CanClaim, claims_commute}
use batch_it_protocol.Escrow.Ledger.Guarantees.{Reachable-Inv}
use batch_it_protocol.Escrow.Ledger.Drain.{repaid, refund_all, refundees}
use batch_it_protocol.Escrow.Ledger.PayAll.{credited, claim_all, creditors, owed_in, pays_everybody}
use batch_it_protocol.Escrow.Ledger.Refinement.{Reachable-Moves, shares_are_fixed}
use batch_it_protocol.Escrow.Ledger.Steps.{here, paid_out, then_}
use batch_it_protocol.Escrow.Ledger.View.{deposit_of, paid_of, view}
use batch_it_protocol.Escrow.Ledger.WindUp.{give_up, winds_up}
use batch_it_protocol.Escrow.Types.{TokenAccount, finalized}
use batch_it_protocol.Escrow.Spec.{Deal, IsFresh, Moves}
use batch_it_protocol.Tests.Runtime.{runtime, runtime-IsRuntime}
use batch_it_protocol.Tests.Scenario.{
  Leads-final, Reachable-bought, bought_ledger, Reachable-final, Reachable-raised, contribution,
  final_ledger, final_pool, pump, raised_ledger,
}

Reachable-Moves_example : (d : Deal) × IsFresh d × Moves d (view final_ledger)
Reachable-Moves_example =
    Reachable-Moves runtime runtime-IsRuntime pump final_ledger Reachable-final

winds_up_example :
    (l1 : Ledger) × (l2 : Ledger) × (give_up (pos 150) raised_ledger ≡ ok l1)
    × (refund_all (pos 150) (λ _. 300) (refundees raised_ledger.contributions) l1
        ≡ ok (l2, 304 ∷ 306 ∷ []))
    × (l2.pool.total_contributed ≡ 0)
    × (l2.pool_lamports + 10 ≡ 1010)
    × (close_pool 7 500 l2.pool l2.pool_lamports ≡ ok (500 + l2.pool_lamports))
unfolding repaid
winds_up_example =
    winds_up runtime runtime-IsRuntime pump (pos 150) (λ _. 300) 500 raised_ledger Reachable-raised
      (inl refl) refl (λ _. omega arith) (omega arith)

-- The first contributor has claimed.
abbrev paid_ledger : Ledger
paid_ledger = record final_ledger {
  pool = record final_pool { total_claimed = 20 };
  vault_tokens = 30;
  contributions = (1, record (contribution 1 4) { claimed = true }) ∷ (2, contribution 2 6) ∷ [];
}

abbrev first_wallet : TokenAccount
first_wallet = record { owner = 1; mint = 9; amount = 0 }

claim_step :
    claim runtime 1 the_vault first_wallet final_ledger
    ≡ ok (paid_ledger, vault runtime paid_ledger, paid_into first_wallet 20)
unfolding claim Settlement.claim Settlement.pay_tokens Math.allocation
claim_step = refl

shares_are_fixed_example :
    (finalized ≡ finalized)
    × ((who : ℕ)
        → (share 50 10 (deposit_of paid_ledger.contributions who)
            ≡ share 50 10 (deposit_of final_ledger.contributions who))
          × ((paid_of final_ledger.contributions who ≡ true)
              → paid_of paid_ledger.contributions who ≡ true))
shares_are_fixed_example =
    shares_are_fixed runtime runtime-IsRuntime pump final_ledger paid_ledger Reachable-final refl
      (then_ here (paid_out 1 the_vault first_wallet claim_step))

abbrev second_wallet : TokenAccount
second_wallet = record { owner = 2; mint = 9; amount = 3 }

first_can : CanClaim final_ledger 1 first_wallet (contribution 1 4)
first_can = record {
  found = refl;
  fresh = refl;
  worth = omega arith;
  own_wallet = refl;
  right_mint = refl;
  room = omega arith;
}

second_can : CanClaim final_ledger 2 second_wallet (contribution 2 6)
second_can = record {
  found = refl;
  fresh = refl;
  worth = omega arith;
  own_wallet = refl;
  right_mint = refl;
  room = omega arith;
}

claims_commute_example :
    (la : Ledger) × (lb : Ledger) × (l' : Ledger) × (claim runtime 1 the_vault first_wallet
        final_ledger
      ≡ ok (la, vault runtime la, paid_into first_wallet (share 50 10 4)))
    × (claim runtime 2 the_vault second_wallet la
        ≡ ok (l', vault runtime l', paid_into second_wallet (share 50 10 6)))
    × (claim runtime 2 the_vault second_wallet final_ledger
        ≡ ok (lb, vault runtime lb, paid_into second_wallet (share 50 10 6)))
    × (claim runtime 1 the_vault first_wallet lb
        ≡ ok (l', vault runtime l', paid_into first_wallet (share 50 10 4)))
claims_commute_example =
    claims_commute runtime runtime-IsRuntime final_ledger 1 2 first_wallet second_wallet
      (contribution 1 4) (contribution 2 6)
      (Reachable-Inv runtime runtime-IsRuntime pump final_ledger Reachable-final)
      (Leads-Backed runtime runtime-IsRuntime pump Reachable-bought refl (omega arith) Leads-final)
      refl (omega arith) first_can second_can

-- Everybody's empty token account.
abbrev wallet_of : ℕ → TokenAccount
wallet_of who = record { owner = who; mint = 9; amount = 0 }

pays_everybody_example :
    (l' : Ledger) × (claim_all runtime wallet_of
        (creditors 50 10 final_ledger.contributions)
        final_ledger
      ≡ ok (l', paid_into (wallet_of 1) 20 ∷ paid_into (wallet_of 2) 30 ∷ []))
    × (l'.vault_tokens + owed_in 50 10 final_ledger.contributions ≡ 50)
    × (owed_in 50 10 l'.contributions ≡ 0)
unfolding credited
pays_everybody_example =
    pays_everybody runtime runtime-IsRuntime pump wallet_of bought_ledger final_ledger
      Reachable-bought refl (omega arith) Leads-final refl (λ who. refl) (λ who. refl)
      (λ who. omega arith)
