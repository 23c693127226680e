-- ===== src/Spike/Run/Attempts.antt =====
-- What stands behind the end of each of the two ways to buy.
use batch_it_protocol.Prelude.{
  Bool-cases, Option-cases, Result, arith, err, false, inl, inr, none, ok, refl, true, ℕ, ◌<◌, ◌==◌,
  ◌>>=◌, ◌≡◌,
}
use Prim.Native.String.{String}
use batch_it_protocol.Orchestrator.Jito.{BundleResult}
use batch_it_protocol.Web3.{Web3}
use batch_it_protocol.Spike.Run.{
  Inputs, Simulation, SpikeResult, Stop, add_signature, ask, ended, exited, not_empty, option_a,
  probed, same_clean, split_clean, thrown,
}
use batch_it_protocol.Spike.Run.Paths.{
  Parts, buyer_ata, same_tx, split_buy_tx, split_create_tx, split_prepare_tx, try_same_tx,
  try_split,
}

probed-success :
    (m : Result String BundleResult) (r : SpikeResult) → (probed m r).success ≡ r.success
probed-success (ok answer) r = refl
probed-success (err message) r = refl

probed-option : (m : Result String BundleResult) (r : SpikeResult) → (probed m r).option ≡ r.option
probed-option (ok answer) r = refl
probed-option (err message) r = refl

module _ (w : Web3) (i : Inputs) where
  -- One transaction: an exception, or a success after it was simulated without an error, sent and
  -- confirmed, and the buyer's account held a positive amount.
  pub data SameTx (p : Parts) : Result Stop SpikeResult → Type 0 where
    same_failed : (message : String) (r : SpikeResult) → SameTx p (err (thrown message r))
    same_shown :
        (r : SpikeResult) (simulation : Simulation) (signature confirmed : String) (amount : ℕ)
        → r.success ≡ true
        → r.option ≡ option_a
        → i.same_simulation (same_tx w i p) ≡ ok simulation
        → simulation.error ≡ none
        → i.same_sent (same_tx w i p) ≡ ok signature
        → i.same_confirmed signature ≡ ok confirmed
        → i.same_amount (buyer_ata w i) ≡ ok amount
        → 0 < amount
        → SameTx p (ok r)

  SameTx-ask :
      (p : Parts) (r : SpikeResult) {A : Type 0} (m : Result String A)
      (f : A → Result Stop SpikeResult)
      → ((a : A) → m ≡ ok a → SameTx p (f a))
      → SameTx p (ask r m >>= f)
  SameTx-ask p r (ok a) f h = h a refl
  SameTx-ask p r (err message) f h = same_failed message r

  SameTx-clean :
      (p : Parts) (r : SpikeResult) (s : Simulation) (f : Unit {0} → Result Stop SpikeResult)
      → (s.error ≡ none → SameTx p (f tt))
      → SameTx p (same_clean r s >>= f)
  SameTx-clean p r s f h = elim (Option-cases s.error) [
    | inl e ↦ rw e (h e)
    | inr (e, q) ↦ rw q (same_failed _ _)
  ]

  SameTx-not_empty :
      (p : Parts) (r : SpikeResult) (n : ℕ) (f : Unit {0} → Result Stop SpikeResult)
      → (0 < n → SameTx p (f tt))
      → SameTx p (not_empty r n >>= f)
  SameTx-not_empty p r n f h = elim (Bool-cases (n == 0)) [
    | inl e ↦ rw e (same_failed _ _)
    | inr e ↦ rw e (h (ground arith))
  ]

  pub try_same_tx-SameTx : (p : Parts) (r : SpikeResult) → SameTx p (try_same_tx w i p r)
  unfolding try_same_tx
  try_same_tx-SameTx p r = SameTx-ask p r i.same_blockhash _ λ blockhash _.
      SameTx-ask p r (i.same_simulation (same_tx w i p)) _ λ simulation simulated.
        SameTx-clean p r simulation _ λ clean.
          SameTx-ask p r (i.same_sent (same_tx w i p)) _ λ signature sent.
            SameTx-ask p r (i.same_confirmed signature) _ λ confirmation confirmed.
              SameTx-ask p (add_signature signature r) (i.same_amount (buyer_ata w i)) _
                λ amount held. SameTx-not_empty p (add_signature signature r) amount _ λ positive.
                  same_shown _ simulation signature confirmation amount (probed-success i.probe _)
                    (probed-option i.probe _) simulated clean sent confirmed held positive

  -- One after the other: an exception, a rejection by the simulation, or a success after the buy was
  -- simulated without an error and confirmed, whatever amount the buyer's account held.
  pub data Split (p : Parts) : Result Stop SpikeResult → Type 0 where
    split_threw : (message : String) (r : SpikeResult) → Split p (err (thrown message r))
    split_rejected : (r : SpikeResult) → r.success ≡ false → Split p (err (exited (ended r 1)))
    split_shown :
        (r : SpikeResult) (simulation : Simulation) (signature : String) (amount : ℕ)
        → r.success ≡ true
        → r.option ≡ option_a
        → i.split_simulation (split_buy_tx w i p) ≡ ok simulation
        → simulation.error ≡ none
        → i.split_sent (split_buy_tx w i p) ≡ ok signature
        → i.split_amount (buyer_ata w i) ≡ ok amount
        → Split p (ok r)

  Split-ask :
      (p : Parts) (r : SpikeResult) {A : Type 0} (m : Result String A)
      (f : A → Result Stop SpikeResult)
      → ((a : A) → m ≡ ok a → Split p (f a))
      → Split p (ask r m >>= f)
  Split-ask p r (ok a) f h = h a refl
  Split-ask p r (err message) f h = split_threw message r

  Split-clean :
      (p : Parts) (r : SpikeResult) (s : Simulation) (f : Unit {0} → Result Stop SpikeResult)
      → (s.error ≡ none → Split p (f tt))
      → Split p (split_clean r s >>= f)
  Split-clean p r s f h = elim (Option-cases s.error) [
    | inl e ↦ rw e (h e)
    | inr (e, q) ↦ rw q (split_rejected _ refl)
  ]

  pub try_split-Split : (p : Parts) (r : SpikeResult) → Split p (try_split w i p r)
  unfolding try_split
  try_split-Split p r = Split-ask p r (i.create_sent (split_create_tx w i p)) _ λ create _.
      let created = add_signature create r in
      Split-ask p created (i.prepare_sent (split_prepare_tx w i p)) _ λ prepare _.
        let prepared = add_signature prepare created in
        Split-ask p prepared i.split_blockhash _ λ blockhash _.
          Split-ask p prepared (i.split_simulation (split_buy_tx w i p)) _ λ simulation simulated.
            Split-clean p prepared simulation _ λ clean.
              Split-ask p prepared (i.split_sent (split_buy_tx w i p)) _ λ signature sent.
                Split-ask p (add_signature signature prepared) (i.split_amount (buyer_ata w i)) _
                  λ amount held.
                    split_shown _ simulation signature amount refl refl simulated clean sent held
