-- ===== src/Escrow/Ledger/View.antt =====
-- What a ledger shows of the deal that it keeps: the records are read as functions of the contributor.
use mathlib.Core.Path.{ap₂, fun_ext, subst}
use batch_it_protocol.Prelude.{
  Bool, Bool-cases, Option, Option-cases, true, ◌≢◌, ap, arith, false, inl, inr, none, refl, some,
  sym, ◌∙◌, ℕ, ◌==◌, ◌≡◌, List,
}
use batch_it_protocol.Prelude.Maps.{insert, lookup, lookup-insert, measure, AllEntries-lookup}
use batch_it_protocol.Escrow.Ledger.{Ledger}
use batch_it_protocol.Escrow.Ledger.Invariant.{Inv, IsEntry, amount_of}
use batch_it_protocol.Escrow.Spec.{Deal, Move, Moves, at, still, then_}
use batch_it_protocol.Escrow.Types.{Contribution, Pool, Pubkey, finalized}

abbrev pub claimed_of : Option Contribution → Bool
claimed_of none = false
claimed_of (some c) = c.claimed

-- What `who` has in the deal, and whether `who` has been paid; a missing record has nothing.
abbrev pub deposit_of : List (Pubkey × Contribution) → Pubkey → ℕ
deposit_of m who = measure amount_of (lookup who m)

abbrev pub paid_of : List (Pubkey × Contribution) → Pubkey → Bool
paid_of m who = claimed_of (lookup who m)

abbrev pub view_of : Pool → List (Pubkey × Contribution) → Deal
view_of p m = record {
  terms = record {
    launch_at = p.launch_at;
    grace_ends_at = p.grace_ends_at;
    min_raise = p.min_raise_lamports;
    max_pool = p.max_pool_lamports;
    min_contribution = p.min_contribution_lamports;
  };
  phase = p.status;
  raised = p.total_contributed;
  deposit = deposit_of m;
  paid = paid_of m;
  stock = p.tokens_bought;
  supply = p.distributable;
  handed_out = p.total_claimed;
  returned = p.total_refunded;
}

unfoldable pub view : Ledger → Deal
view l = view_of l.pool l.contributions

pub deposit-insert :
    (who : Pubkey) (c : Contribution) (m : List (Pubkey × Contribution))
    → deposit_of (insert who c m) ≡ at who c.amount (deposit_of m)
deposit-insert who c m = fun_ext λ k. ground (arith, lookup-insert k who c m)

pub paid-insert :
    (who : Pubkey) (c : Contribution) (m : List (Pubkey × Contribution))
    → paid_of (insert who c m) ≡ at who c.claimed (paid_of m)
paid-insert who c m = fun_ext λ k. ground (arith, lookup-insert k who c m)

-- Writing what is there already changes nothing.
pub at-same {ℓ} : {V : Type ℓ} (who : Pubkey) (v : V) (f : Pubkey → V) → f who ≡ v → at who v f ≡ f
at-same who v f e = fun_ext λ k. elim (Bool-cases (k == who)) [
  | inl same ↦ let key : who ≡ k = ground arith in rw same (sym e ∙ ap f key)
  | inr other ↦ rw other refl
]

-- The view of a ledger in which one record is written.
pub view-insert :
    (p : Pool) (who : Pubkey) (c : Contribution) (m : List (Pubkey × Contribution))
    → view_of p (insert who c m) ≡ record (view_of p m) {
      deposit = at who c.amount (deposit_of m);
      paid = at who c.claimed (paid_of m);
    }
view-insert p who c m =
    ap₂ (λ (f : Pubkey → ℕ) (g : Pubkey → Bool). record (view_of p m) { deposit = f; paid = g })
      (deposit-insert who c m) (paid-insert who c m)

-- The view after a record is written whose claim mark is as it was.
pub view-deposit :
    (p : Pool) (who : Pubkey) (n : ℕ) (c : Contribution) (m : List (Pubkey × Contribution))
    → n ≡ c.amount
    → paid_of m who ≡ c.claimed
    → record (view_of p m) { deposit = at who n (deposit_of m) } ≡ view_of p (insert who c m)
view-deposit p who n c m en e =
    ap (λ x. record (view_of p m) { deposit = at who x (deposit_of m) }) en
    ∙ ap (λ g. record (view_of p m) { deposit = at who c.amount (deposit_of m); paid = g })
        (sym (at-same who c.claimed (paid_of m) e))
    ∙ sym (view-insert p who c m)

-- The view after a record is written whose amount is as it was.
pub view-paid :
    (p : Pool) (who : Pubkey) (c : Contribution) (m : List (Pubkey × Contribution))
    → c.claimed ≡ true
    → deposit_of m who ≡ c.amount
    → record (view_of p m) { paid = at who true (paid_of m) } ≡ view_of p (insert who c m)
view-paid p who c m et e =
    ap (λ b. record (view_of p m) { paid = at who b (paid_of m) }) (sym et)
    ∙ ap (λ f. record (view_of p m) { deposit = f; paid = at who c.claimed (paid_of m) })
        (sym (at-same who c.amount (deposit_of m) e))
    ∙ sym (view-insert p who c m)

-- Nobody is marked as paid before the pool is finalized.
pub unpaid_yet :
    (l : Ledger) (who : Pubkey)
    → Inv l
    → l.pool.status ≢ finalized
    → paid_of l.contributions who ≡ false
unpaid_yet l who v early = elim (Option-cases (lookup who l.contributions)) [
  | inl missing ↦ ground arith
  | inr (c, found) ↦
      let entry =
        AllEntries-lookup (IsEntry l.pool_key l.pool.status) who l.contributions v.entries found in
      ground (arith, entry.unclaimed)
]

-- One move, to a state that shows the same.
pub one : {d e f : Deal} → Move d e → e ≡ f → Moves d f
one {d} m p = subst (λ x. Moves d x) p (then_ still m)
