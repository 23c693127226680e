-- ===== src/Escrow/Spec.antt =====
-- What the escrow promises, with no accounts: a deal among contributors as programs/batchit/src/lib.rs
-- and state.rs describe it. What each contributor has in the deal and who has been paid are functions
-- of the contributor; where lamports and tokens are held, and how the records are stored, is left out.
use batch_it_protocol.Prelude.{
  Bool, arith, false, if◌then◌else◌, refl, true, ℕ, ◌+◌, ◌-◌, ◌<◌, ◌==◌, ◌≡◌, ◌≤◌, ◌⊎◌,
}
use batch_it_protocol.Prelude.Division.{share}
use batch_it_protocol.Prelude.Int.{leb_ℤ, ltb_ℤ, ℤ}
use batch_it_protocol.Escrow.Types.{
  PoolStatus, Pubkey, bought, finalized, launching, opened, refundable,
}

-- What the creator has fixed.
pub record Terms : Type 0 where
  pub launch_at : ℤ
  pub grace_ends_at : ℤ
  pub min_raise : ℕ
  pub max_pool : ℕ
  pub min_contribution : ℕ

pub record Deal : Type 0 where
  pub terms : Terms
  pub phase : PoolStatus
  pub raised : ℕ
  pub deposit : Pubkey → ℕ
  pub paid : Pubkey → Bool
  pub stock : ℕ
  pub supply : ℕ
  pub handed_out : ℕ
  pub returned : ℕ

-- A function changed at one contributor.
abbrev pub at {ℓ} : {V : Type ℓ} → Pubkey → V → (Pubkey → V) → Pubkey → V
at who v f k = if k == who then v else f k

-- The tokens that a contributor is due once the supply is known.
abbrev pub due : Deal → Pubkey → ℕ
due d who = share d.supply d.raised (d.deposit who)

-- The moves of a deal, each with the time at which it is made, where that matters.
pub data Move (d : Deal) : Deal → Type 0 where
  deposits :
      (now : ℤ) (who : Pubkey) (n : ℕ)
      → d.phase ≡ opened
      → ltb_ℤ now d.terms.launch_at ≡ true
      → 0 < n
      → d.terms.min_contribution ≤ n
      → d.raised + n ≤ d.terms.max_pool
      → Move d (record d { raised = d.raised + n; deposit = at who (d.deposit who + n) d.deposit })
  begins :
      (now : ℤ)
      → d.phase ≡ opened
      → leb_ℤ d.terms.launch_at now ≡ true
      → ltb_ℤ now d.terms.grace_ends_at ≡ true
      → d.terms.min_raise ≤ d.raised
      → Move d (record d { phase = launching })
  buys :
      (now : ℤ) (tokens : ℕ)
      → d.phase ≡ launching
      → ltb_ℤ now d.terms.grace_ends_at ≡ true
      → 0 < tokens
      → Move d (record d { phase = bought; stock = tokens })
  settles :
      (supply : ℕ)
      → d.phase ≡ bought
      → supply ≤ d.stock
      → Move d (record d { phase = finalized; supply = supply })
  pays :
      (who : Pubkey)
      → d.phase ≡ finalized
      → d.paid who ≡ false
      → Move d (record d { paid = at who true d.paid; handed_out = d.handed_out + due d who })
  gives_up :
      (now : ℤ)
      → (d.phase ≡ launching) ⊎ (d.phase ≡ opened)
      → leb_ℤ d.terms.grace_ends_at now ≡ true
      → Move d (record d { phase = refundable })
  returns :
      (who : Pubkey)
      → d.phase ≡ refundable
      → 0 < d.deposit who
      → d.deposit who ≤ d.raised
      → Move d (record d {
        raised = d.raised - d.deposit who;
        deposit = at who 0 d.deposit;
        returned = d.returned + d.deposit who;
      })

-- Any number of moves.
pub data Moves (d : Deal) : Deal → Type 0 where
  still : Moves d d
  then_ : {e f : Deal} → Moves d e → Move e f → Moves d f

-- A deal before the first contribution.
pub record IsFresh (d : Deal) : Type 0 where
  pub open_phase : d.phase ≡ opened
  pub nothing_raised : d.raised ≡ 0
  pub no_deposit : (who : Pubkey) → d.deposit who ≡ 0
  pub nobody_paid : (who : Pubkey) → d.paid who ≡ false
  pub none_handed_out : d.handed_out ≡ 0
  pub none_returned : d.returned ≡ 0

pub append : {d e f : Deal} → Moves d e → Moves e f → Moves d f
append p still = p
append p (then_ q m) = then_ (append p q) m

-- A settled deal stays settled, on the same terms of distribution, and no payment is taken back.
pub record IsSettledAs (d e : Deal) : Type 0 where
  pub phase : e.phase ≡ finalized
  pub supply : e.supply ≡ d.supply
  pub raised : e.raised ≡ d.raised
  pub deposit : e.deposit ≡ d.deposit
  pub paid_kept : (who : Pubkey) → d.paid who ≡ true → e.paid who ≡ true

Move-IsSettledAs : {d e f : Deal} → IsSettledAs d e → Move e f → IsSettledAs d f
Move-IsSettledAs h (deposits now who n s _ _ _ _) = absurd (ground arith)
Move-IsSettledAs h (begins now s _ _ _) = absurd (ground arith)
Move-IsSettledAs h (buys now n s _ _) = absurd (ground arith)
Move-IsSettledAs h (settles n s _) = absurd (ground arith)
Move-IsSettledAs h (pays who s unpaid) = record {
  phase = h.phase;
  supply = h.supply;
  raised = h.raised;
  deposit = h.deposit;
  paid_kept = λ k p. ground (arith, h.paid_kept k p);
}
Move-IsSettledAs h (gives_up now s _) = absurd (ground arith)
Move-IsSettledAs h (returns who s _ _) = absurd (ground arith)

pub Moves-IsSettledAs : {d e : Deal} → d.phase ≡ finalized → Moves d e → IsSettledAs d e
Moves-IsSettledAs s still = record {
  phase = s;
  supply = refl;
  raised = refl;
  deposit = refl;
  paid_kept = λ who p. p;
}
Moves-IsSettledAs s (then_ p m) = Move-IsSettledAs (Moves-IsSettledAs s p) m
