-- ===== src/Tests/Scenario.antt =====
-- The life of one pool: two contributions of 4 and 6 lamports, the launch, the buy, the settlement.
use batch_it_protocol.Escrow.Funding
use batch_it_protocol.Escrow.Launch
use batch_it_protocol.Escrow.Settlement
use batch_it_protocol.Escrow.Math
use batch_it_protocol.Prelude.{[], arith, false, ok, refl, ℕ, ◌≡◌, ◌∷◌}
use batch_it_protocol.Prelude.Int.{pos, ◌+ℤ◌}
use batch_it_protocol.Escrow.Ledger.{
  the_vault, vault, Ledger, begin_launch, complete_buy, contribute, finalize,
}
use batch_it_protocol.Escrow.Ledger.Steps.{
  Leads, here, then_, Opened, Reachable, Step, bought_in, contributed, created, launched, next,
  settled, start,
}
use batch_it_protocol.Escrow.Types.{Contribution, Pool, bought, finalized, launching, opened}
use batch_it_protocol.Tests.Runtime.{curve, runtime}

-- The key of pump.
abbrev pub pump : ℕ
pump = 6

-- Contributions of at least 1 lamport until time 100, a raise of 2 to 10, and a grace period of 50.
abbrev pub new_pool : Pool
new_pool = record {
  bump = 254;
  buyer_bump = 255;
  status = opened;
  creator = 7;
  seed = 0;
  mint = 0;
  launch_at = pos 100;
  grace_ends_at = pos 150;
  min_raise_lamports = 2;
  max_pool_lamports = 10;
  min_contribution_lamports = 1;
  total_contributed = 0;
  contributor_count = 0;
  tokens_bought = 0;
  distributable = 0;
  burned = 0;
  post_virtual_token_reserves = 0;
  post_virtual_quote_reserves = 0;
  total_claimed = 0;
  total_refunded = 0;
}

abbrev pub empty_ledger : Ledger
empty_ledger = record {
  pool_key = 70;
  pool = new_pool;
  pool_lamports = 1000;
  buyer_lamports = 0;
  vault_tokens = 0;
  contributions = [];
}

abbrev pub contribution : ℕ → ℕ → Contribution
contribution who amount = record {
  bump = 253;
  pool = 70;
  contributor = who;
  amount = amount;
  claimed = false;
  refunded = false;
}

abbrev pub first_ledger : Ledger
first_ledger = record empty_ledger {
  pool = record new_pool { total_contributed = 4; contributor_count = 1 };
  pool_lamports = 1004;
  contributions = (1, contribution 1 4) ∷ [];
}

abbrev pub raised_pool : Pool
raised_pool = record new_pool { total_contributed = 10; contributor_count = 2 }

abbrev pub raised_ledger : Ledger
raised_ledger = record empty_ledger {
  pool = raised_pool;
  pool_lamports = 1010;
  contributions = (1, contribution 1 4) ∷ (2, contribution 2 6) ∷ [];
}

abbrev pub launching_pool : Pool
launching_pool = record raised_pool { mint = 9; status = launching }

abbrev pub launching_ledger : Ledger
launching_ledger = record raised_ledger { pool = launching_pool }

abbrev pub bought_pool : Pool
bought_pool = record launching_pool {
  tokens_bought = 60;
  post_virtual_token_reserves = 100;
  post_virtual_quote_reserves = 20;
  status = bought;
}

abbrev pub bought_ledger : Ledger
bought_ledger = record raised_ledger { pool = bought_pool; pool_lamports = 1000; vault_tokens = 60 }

abbrev pub final_pool : Pool
final_pool = record bought_pool { distributable = 50; burned = 10; status = finalized }

abbrev pub final_ledger : Ledger
final_ledger = record bought_ledger { pool = final_pool; vault_tokens = 50 }

pub Opened-empty : Opened empty_ledger
unfolding Funding.create_pool ◌+ℤ◌
Opened-empty = created (pos 0) 7 254 255 0 (pos 100) (pos 50) 2 10 1 (omega arith) refl tt tt

first_step : contribute runtime (pos 10) 1 253 500 4 empty_ledger ≡ ok (first_ledger, 496)
unfolding contribute Funding.contribute
first_step = refl

second_step : contribute runtime (pos 20) 2 253 500 6 first_ledger ≡ ok (raised_ledger, 494)
unfolding contribute Funding.contribute
second_step = refl

launch_step : begin_launch (pos 100) 9 raised_ledger ≡ ok launching_ledger
unfolding begin_launch Launch.begin_launch
launch_step = refl

pub buy_step :
    complete_buy runtime pump (pos 110) 9 pump (1 ∷ []) the_vault 30 launching_ledger
    ≡ ok (bought_ledger, vault runtime bought_ledger)
unfolding complete_buy Launch.complete_buy Launch.execute_buy Math.decode_bonding_curve_reserves
buy_step = refl

settle_step :
    finalize runtime curve the_vault bought_ledger ≡ ok (final_ledger, vault runtime final_ledger)
unfolding finalize Settlement.finalize Settlement.price_reserves Settlement.burn_surplus
    Math.compute_distributable Math.decode_bonding_curve_reserves
settle_step = refl

pub launch : Step runtime pump raised_ledger launching_ledger
launch = launched (pos 100) 9 launch_step

pub Reachable-raised : Reachable runtime pump raised_ledger
Reachable-raised =
    next (next (start Opened-empty) (contributed (pos 10) 1 253 500 4 first_step))
      (contributed (pos 20) 2 253 500 6 second_step)

pub settle : Step runtime pump bought_ledger final_ledger
settle = settled curve the_vault settle_step

pub Reachable-launching : Reachable runtime pump launching_ledger
Reachable-launching = next Reachable-raised launch

pub Reachable-bought : Reachable runtime pump bought_ledger
Reachable-bought =
    next Reachable-launching (bought_in (pos 110) 9 pump (1 ∷ []) the_vault 30 buy_step)

pub Reachable-final : Reachable runtime pump final_ledger
Reachable-final = next Reachable-bought settle

pub Leads-final : Leads runtime pump bought_ledger final_ledger
Leads-final = then_ here settle
