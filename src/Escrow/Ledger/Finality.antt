-- ===== src/Escrow/Ledger/Finality.antt =====
-- A buy is final, and a finalized pool is never closed.
use batch_it_protocol.Escrow.Exit
use batch_it_protocol.Prelude.{
  Option-cases, Result-cases, arith, err, false, inl, inr, is_ok, refl, ℕ, ◌≡◌, ◌⊎◌,
}
use batch_it_protocol.Prelude.Int.{leb_ℤ, ℤ}
use batch_it_protocol.Prelude.Maps.{lookup}
use batch_it_protocol.Escrow.Exit.{close_pool}
use batch_it_protocol.Escrow.Exit.Laws.{close_pool_lem, refund_allowed-cases, refund_lem}
use batch_it_protocol.Escrow.Ledger.{Ledger, refund, refund_accounts}
use batch_it_protocol.Escrow.Ledger.Guarantees.{Reachable-Inv}
use batch_it_protocol.Escrow.Ledger.Lifecycle.{
  Edge, Step-Edge, begin, buy, give_up_launching, give_up_open, settle, stay,
}
use batch_it_protocol.Escrow.Ledger.Steps.{Leads, Reachable, here, then_}
use batch_it_protocol.Escrow.Runtime.{IsRuntime, Runtime}
use batch_it_protocol.Escrow.Types.{PoolStatus, Pubkey, bought, finalized, pool_not_empty, program}

abbrev pub IsSettling : PoolStatus → Type 0
IsSettling s = (s ≡ bought) ⊎ (s ≡ finalized)

Edge-IsSettling : {s t : PoolStatus} → Edge s t → IsSettling s → IsSettling t
Edge-IsSettling stay h = h
Edge-IsSettling begin h = ground arith
Edge-IsSettling buy h = ground arith
Edge-IsSettling settle h = ground arith
Edge-IsSettling give_up_open h = ground arith
Edge-IsSettling give_up_launching h = ground arith

pub settling :
    (r : Runtime) (legal : IsRuntime r) (pump : Pubkey) (l l' : Ledger)
    → IsSettling l.pool.status
    → Leads r pump l l'
    → IsSettling l'.pool.status
settling r legal pump l l' h here = h
settling r legal pump l l' h (then_ {l' = m} steps s) =
    Edge-IsSettling (Step-Edge r legal pump m l' s) (settling r legal pump l m h steps)

refund-refused :
    (l : Ledger)
    → IsSettling l.pool.status
    → (now : ℤ) (who : Pubkey) (wallet : ℕ) → is_ok (refund now who wallet l) ≡ false
unfolding refund
refund-refused l h now who wallet = elim (Option-cases (lookup who l.contributions)) [
  | inl missing ↦ ground arith
  | inr (c, found) ↦ elim (Result-cases (Exit.refund now (refund_accounts who wallet c l))) [
    | inr (x, failed) ↦ ground arith
    | inl (a, done) ↦
        let f = refund_lem now (refund_accounts who wallet c l) done in
        ground (arith, f, refund_allowed-cases l.pool.status (leb_ℤ l.pool.grace_ends_at now) f.0)
  ]
]

-- Once the buy is made the pool stays bought or finalized, whatever happens to it, and from then on
-- every refund is refused.
pub bought_is_final :
    (r : Runtime) (legal : IsRuntime r) (pump : Pubkey) (l l' : Ledger)
    → (l.pool.status ≡ bought) ⊎ (l.pool.status ≡ finalized)
    → Leads r pump l l'
    → ((l'.pool.status ≡ bought) ⊎ (l'.pool.status ≡ finalized))
      × ((now : ℤ) (who : Pubkey) (wallet : ℕ) → is_ok (refund now who wallet l') ≡ false)
bought_is_final r legal pump l l' h steps =
    let st = settling r legal pump l l' h steps in (st, refund-refused l' st)

-- In every reachable finalized state the contributions are still on the pool's books, so its creator's
-- `close_pool` is refused with `PoolNotEmpty`.
pub finalized-close_pool :
    (r : Runtime) (legal : IsRuntime r) (pump : Pubkey) (l : Ledger) (creator_lamports : ℕ)
    → Reachable r pump l
    → l.pool.status ≡ finalized
    → close_pool l.pool.creator creator_lamports l.pool l.pool_lamports
      ≡ err (program pool_not_empty)
finalized-close_pool r legal pump l creator_lamports reach st =
    close_pool_lem l.pool.creator creator_lamports l.pool l.pool_lamports refl
      ((Reachable-Inv r legal pump l reach).settled_total st)
