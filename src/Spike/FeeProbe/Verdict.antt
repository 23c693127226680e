-- ===== src/Spike/FeeProbe/Verdict.antt =====
-- What stands behind the lines that the fee probe prints.
use batch_it_protocol.Prelude.{
  Bool, false, true, List, [], ap, get_elem?, none, ok, refl, ℕ, ◌++◌, ◌∙◌, ◌≡◌, ◌∷◌,
}
use Prim.Native.String.{String}
use batch_it_protocol.Escrow.Types.{Pubkey}
use batch_it_protocol.Web3.{Instruction, Web3}
use batch_it_protocol.Spike.Fees.{PumpGlobalFees, decode_global_fees, pick_fee_recipient}
use batch_it_protocol.Spike.FeeProbe.{
  ProbeInputs, ProbeLine, ProbeRun, balance, bought_by, buyback_key, buy_sim_fail, buy_sim_ok,
  created, fee_probe_success, four_keys, main, probe_ata, probe_buy_params, probe_buy_tx,
  probe_create_params, probe_create_tx, probe_steps, stopped, buy_with,
}
use batch_it_protocol.Spike.Pump.{build_buy_exact_sol_in_ix, build_create_ix}
use batch_it_protocol.Spike.Steps.{after_build, after_call, after_no_error, after_present, finish}

-- Whether a success is announced.
abbrev pub announces : List ProbeLine → Bool
announces [] = false
announces (fee_probe_success ∷ lines) = true
announces (_ ∷ lines) = announces lines

module _ (w : Web3) (i : ProbeInputs) where
  -- The ways in which a probe may end: it stops with exit status 1 before it announces a success; or it
  -- announces one, and then the buy by the generated key was simulated without an error and confirmed,
  -- after the transaction that creates the token, and the amount printed is that of the key's account.
  pub data ProbeVerdict : ProbeRun → Type 0 where
    gave_up : (lines : List ProbeLine) → announces lines ≡ false → ProbeVerdict (stopped lines)
    shown :
        (fee_recipient buyback : Pubkey) (create buy : Instruction) (lines : List ProbeLine)
        (create_signature buy_signature : String) (amount : ℕ)
        → build_create_ix w (probe_create_params w i) ≡ ok create
        → build_buy_exact_sol_in_ix w (probe_buy_params w i fee_recipient buyback) ≡ ok buy
        → i.create_signature (probe_create_tx w i create) ≡ ok create_signature
        → i.simulation (probe_buy_tx w i buy) ≡ ok none
        → i.buy_signature (probe_buy_tx w i buy) ≡ ok buy_signature
        → i.token_amount (probe_ata w i) ≡ ok amount
        → ProbeVerdict (record {
          printed =
              (((lines ++ (created create_signature ∷ [])) ++ (buy_sim_ok ∷ []))
                ++ (bought_by buy_signature ∷ []))
              ++ (balance amount ∷ fee_probe_success ∷ []);
          status = 0;
        })

  -- The part of the run that follows the keys.
  bought :
      (fees : PumpGlobalFees) (buyback : Pubkey) → ProbeVerdict (finish (buy_with w i fees buyback))
  unfolding buy_with
  bought fees buyback =
      let keys = four_keys w i fees ++ (buyback_key buyback ∷ []) in
      let p = probe_buy_params w i (pick_fee_recipient fees) buyback in
      after_build ProbeVerdict (stopped keys) (gave_up keys refl)
        (build_create_ix w (probe_create_params w i)) _
        λ create built.
          after_build ProbeVerdict (stopped keys) (gave_up keys refl)
            (build_buy_exact_sol_in_ix w p) _
            λ buy bought.
              after_call ProbeVerdict (stopped keys) (gave_up keys refl)
                (i.create_signature (probe_create_tx w i create)) _
                λ create_signature landed.
                  let lines = keys ++ (created create_signature ∷ []) in
                  after_call ProbeVerdict (stopped lines) (gave_up lines refl) i.blockhash _ λ _ _.
                    after_call ProbeVerdict (stopped lines) (gave_up lines refl)
                      (i.simulation (probe_buy_tx w i buy)) _
                      λ simulation answered.
                        after_no_error ProbeVerdict (stopped lines) (gave_up lines refl) _
                          simulation _ (λ e. gave_up (lines ++ (buy_sim_fail e ∷ [])) refl)
                          λ clean.
                            let done = lines ++ (buy_sim_ok ∷ []) in
                            after_call ProbeVerdict (stopped done) (gave_up done refl)
                              (i.buy_signature (probe_buy_tx w i buy)) _
                              λ buy_signature confirmed.
                                let last = done ++ (bought_by buy_signature ∷ []) in
                                after_call ProbeVerdict (stopped last) (gave_up last refl)
                                  (i.token_amount (probe_ata w i)) _
                                  λ amount held.
                                    shown (pick_fee_recipient fees) buyback create buy keys
                                      create_signature buy_signature amount built bought landed
                                      (answered ∙ ap ok clean) confirmed held

  -- Whatever its calls answer, a probe ends in one of these ways.
  pub main-ProbeVerdict : ProbeVerdict (main w i)
  unfolding main probe_steps
  main-ProbeVerdict =
      after_call ProbeVerdict (stopped []) (gave_up [] refl) i.global_data _ λ global_info _.
        after_present ProbeVerdict (stopped []) (gave_up [] refl) global_info _ λ global_bytes _.
          after_build ProbeVerdict (stopped []) (gave_up [] refl)
            (decode_global_fees w global_bytes) _
            λ fees _.
              let four = four_keys w i fees in
              after_present ProbeVerdict (stopped four) (gave_up four refl)
                (get_elem? fees.buyback_fee_recipients 0) _ λ buyback _. bought fees buyback
