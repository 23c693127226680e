-- ===== src/Spike/Run/Verdict.antt =====
-- What stands behind the verdict of a run.
use batch_it_protocol.Prelude.{
  Bool-cases, List, Option, Result, arith, err, false, get_elem?, inl, inr, ltb, none, ok, refl,
  some, true, ℕ, ◌<◌, ◌>>=◌, ◌≡◌, ◌≢◌,
}
use Prim.Native.String.{String}
use batch_it_protocol.Escrow.Types.{Pubkey}
use batch_it_protocol.Web3.{Web3}
use batch_it_protocol.Spike.Fees.{decode_global_fees, pick_fee_recipient}
use batch_it_protocol.Spike.Program.{build_pda_buy_ix}
use batch_it_protocol.Spike.Pump.{build_create_ix}
use batch_it_protocol.Spike.Run.{
  ensure_program_deployed, Note, Inputs, Printed, SpikeResult, SpikeRun, Stop, ended, option_a,
  print_verdict, proven,
}
use batch_it_protocol.Spike.Run.Paths.{
  Parts, after_same_tx, after_split, buy_params, crash, create_params, deploy, found, fund_by,
  funded, main, missing, or_crash, run_of, steps, try_same_tx, try_split,
}
use batch_it_protocol.Spike.Run.Attempts.{
  SameTx, Split, same_failed, same_shown, split_rejected, split_shown, split_threw,
  try_same_tx-SameTx, try_split-Split,
}

print_verdict-proven :
    (r : SpikeResult) → r.success ≡ true → r.option ≡ option_a → print_verdict r ≡ proven
unfolding print_verdict
print_verdict-proven r hs ho = rw (hs, ho) refl

print_verdict-refuted : (r : SpikeResult) → r.success ≡ false → print_verdict r ≢ proven
unfolding print_verdict
print_verdict-refuted r hs = ground arith

module _ (w : Web3) (i : Inputs) where
  -- The buy of the parts is the Anchor program's, of the mint of this run for the program's address.
  abbrev pub IsBuy : Parts → Type 0
  IsBuy p =
      (recipient : Pubkey) × (buyback : Pubkey) × (build_pda_buy_ix w
          (buy_params w i recipient buyback)
        ≡ ok p.buy)

  -- The ends of a run: an exception that writes nothing; a result without success, with an exit status
  -- that is not 0; or a success on one of the two ways.
  pub data RunVerdict : SpikeRun → Type 0 where
    crashed : RunVerdict crash
    not_shown :
        (r : SpikeResult) (printed : Printed) (status : ℕ)
        → r.success ≡ false
        → printed ≢ proven
        → 0 < status
        → RunVerdict (record { written = some r; printed = printed; status = status })
    at_once :
        (p : Parts) (r : SpikeResult)
        → IsBuy p
        → SameTx w i p (ok r)
        → print_verdict r ≡ proven
        → RunVerdict (ended r 0)
    in_turn :
        (p : Parts) (r : SpikeResult)
        → IsBuy p
        → Split w i p (ok r)
        → print_verdict r ≡ proven
        → RunVerdict (ended r 0)

  after_split-RunVerdict :
      (p : Parts)
      → IsBuy p
      → (t : Result Stop SpikeResult) → Split w i p t
      → RunVerdict (after_split w i t)
  after_split-RunVerdict p b _ (split_threw message r) =
      not_shown _ _ 1 refl (print_verdict-refuted _ refl) (omega arith)
  after_split-RunVerdict p b _ (split_rejected r h) =
      not_shown r _ 1 h (print_verdict-refuted r h) (omega arith)
  after_split-RunVerdict p b _ (split_shown r simulation signature amount hs ho h1 h2 h3 h4) =
      in_turn p r b (split_shown r simulation signature amount hs ho h1 h2 h3 h4)
        (print_verdict-proven r hs ho)

  after_same_tx-RunVerdict :
      (p : Parts)
      → IsBuy p
      → (t : Result Stop SpikeResult) → SameTx w i p t
      → RunVerdict (after_same_tx w i p t)
  after_same_tx-RunVerdict p b _ (same_failed message r) =
      after_split-RunVerdict p b _ (try_split-Split w i p _)
  after_same_tx-RunVerdict p b _ (same_shown r s signature c amount hs ho h1 h2 h3 h4 h5 h6) =
      at_once p r b (same_shown r s signature c amount hs ho h1 h2 h3 h4 h5 h6)
        (print_verdict-proven r hs ho)

  RunVerdict-or_crash :
      {E A : Type 0} (m : Result E A) (f : A → Result SpikeRun SpikeRun)
      → ((a : A) → m ≡ ok a → RunVerdict (run_of (f a)))
      → RunVerdict (run_of (or_crash m >>= f))
  RunVerdict-or_crash (ok a) f h = h a refl
  RunVerdict-or_crash (err e) f h = crashed

  RunVerdict-found :
      {A : Type 0} (m : Option A) (f : A → Result SpikeRun SpikeRun)
      → ((a : A) → RunVerdict (run_of (f a)))
      → RunVerdict (run_of (found m >>= f))
  RunVerdict-found (some a) f h = h a
  RunVerdict-found none f h = crashed

  RunVerdict-funded :
      (balance : ℕ) (f : Unit {0} → Result SpikeRun SpikeRun)
      → RunVerdict (run_of (f tt))
      → RunVerdict (run_of (funded w i balance >>= f))
  RunVerdict-funded balance f h = elim (Bool-cases (ltb balance 500000000)) [
    | inl e ↦ rw e (not_shown _ _ 2 refl (λ q. cc) (omega arith))
    | inr e ↦ rw e h
  ]

  RunVerdict-deploy :
      (m : Result String (List Note)) (f : SpikeResult → Result SpikeRun SpikeRun)
      → ((r : SpikeResult) → RunVerdict (run_of (f r)))
      → RunVerdict (run_of (deploy w i m >>= f))
  RunVerdict-deploy (ok notes) f h = h _
  RunVerdict-deploy (err message) f h = not_shown _ _ 1 refl (λ q. cc) (omega arith)

  -- Whatever its calls answer, a run ends in one of these.
  pub main-RunVerdict : RunVerdict (main w i)
  unfolding main steps
  main-RunVerdict = RunVerdict-or_crash i.balance _ λ balance _. RunVerdict-funded balance _ (
      RunVerdict-deploy (ensure_program_deployed i.program_id i.deployment) _ λ deployed.
        RunVerdict-or_crash i.global_data _ λ global_info _.
          RunVerdict-found global_info _ λ global_bytes.
            RunVerdict-or_crash (decode_global_fees w global_bytes) _ λ fees _.
              RunVerdict-or_crash (build_create_ix w (create_params w i)) _ λ create _.
                RunVerdict-or_crash i.buyer_balance _ λ buyer_balance _.
                  RunVerdict-or_crash (fund_by w i (missing w i buyer_balance)) _ λ fund _.
                    RunVerdict-found (get_elem? fees.buyback_fee_recipients 0) _ λ buyback.
                      RunVerdict-or_crash
                        (build_pda_buy_ix w (buy_params w i (pick_fee_recipient fees) buyback)) _
                        λ buy built.
                          after_same_tx-RunVerdict _ (pick_fee_recipient fees, buyback, built) _
                            (try_same_tx-SameTx w i _ _))

-- On the split path the amount that the buyer's account holds changes nothing: a run in which it is
-- answered with one amount ends as with any other.
pub main_ignores_amount :
    (w : Web3) (i : Inputs) (n m : ℕ)
    → main w (record i { split_amount = λ ata. ok n })
      ≡ main w (record i { split_amount = λ ata. ok m })
unfolding main steps try_same_tx try_split
main_ignores_amount w i n m = refl
