-- ===== src/Spike/Program/Data.antt =====
-- The bytes of the buy, and when the builders refuse.
use batch_it_protocol.Prelude.{
  ◌∙◌, Bool, List, [], arith, drop, err, false, length, length-append, ok, refl, sym, take, ℕ, ◌++◌,
  ◌<◌, ◌≡◌, ◌≤◌, ◌⊎◌, inl, inr, ◌∷◌,
}
use mathlib.Core.List.{append-nil, append_assoc}
use mathlib.Core.Path.{subst}
use batch_it_protocol.Prelude.Bytes.{le_bytes, length-le_bytes}
use batch_it_protocol.Prelude.Int.{ℤ, pos}
use batch_it_protocol.Prelude.Words.{u64_mod}
use batch_it_protocol.Web3.{Instruction, IsWeb3, Web3}
use batch_it_protocol.Web3.Buffer.{
  alloc, bind-refused, length-take, copy_to, drop_prefix, out_of_range, put_at-middle, set_byte,
  set_byte-middle, take_all, take_prefix, write_u64-middle, write_u64-refused, write_u64,
}
use batch_it_protocol.Web3.Reader.{
  Reader, Reads, Reads-bind, Reads-map, flag, pure, read_bool, read_bool-Reads, read_u64,
  read_u64-Reads, ◌>>=◌,
}
use batch_it_protocol.Spike.Lite.{LiteBuyParams, buy_ix}
use batch_it_protocol.Spike.Program.{PdaBuyParams, anchor_disc, build_pda_buy_ix, pda_buy_keys}
use batch_it_protocol.Spike.Pump.{BuyParams, build_buy_exact_sol_in_ix, or_default}

-- The arguments of the program's handler, as Anchor reads them behind the discriminator: two `u64`
-- and a `bool`.
abbrev pub read_buy_args : Reader (ℕ × ℕ × Bool)
read_buy_args = do
  spendable ← read_u64
  min_out ← read_u64
  track_volume ← read_bool
  pure (spendable, min_out, track_volume)

read_buy_args-Reads :
    (v m : ℕ) (b : Bool)
    → v < u64_mod
    → m < u64_mod
    → Reads read_buy_args (le_bytes 8 v ++ (le_bytes 8 m ++ (flag b ∷ []))) (v, m, b)
read_buy_args-Reads v m b hv hm =
    Reads-bind _ _ (read_u64-Reads v hv)
      (Reads-bind _ _ (read_u64-Reads m hm) (Reads-map read_bool _ (read_bool-Reads b)))

module _ (d : List ℕ) (e : length d ≡ 8) where
  copied : copy_to 0 d (alloc 25) ≡ d ++ (alloc 8 ++ alloc 9)
  copied =
      rw (take_all 25 d (omega (arith, e))) (put_at-middle 0 [] d (alloc 8) (alloc 17) refl (sym e))

  written :
      (v m : ℕ) (b : Bool)
      → v < u64_mod
      → m < u64_mod
      → (first : List ℕ) × (both : List ℕ) × (write_u64 (pos v) 8 (copy_to 0 d (alloc 25))
          ≡ ok first)
        × (write_u64 (pos m) 16 first ≡ ok both)
        × (set_byte 24 (flag b) both ≡ d ++ (le_bytes 8 v ++ (le_bytes 8 m ++ (flag b ∷ []))))
  written v m b hv hm =
      let x = le_bytes 8 v in
      let y = le_bytes 8 m in
      let size : length (d ++ x) ≡ 16 = omega (arith, e, length-append d x, length-le_bytes 8 v) in
      let size_all : length ((d ++ x) ++ y) ≡ 24 =
        omega (arith, size, length-append (d ++ x) y, length-le_bytes 8 m) in
      let last : set_byte 24 (flag b) ((d ++ x) ++ (y ++ (0 ∷ [])))
          ≡ ((d ++ x) ++ y) ++ (flag b ∷ []) =
        subst (λ t. set_byte 24 (flag b) t ≡ ((d ++ x) ++ y) ++ (flag b ∷ []))
          (append_assoc (d ++ x) y (0 ∷ []))
          (set_byte-middle 24 (flag b) 0 ((d ++ x) ++ y) [] size_all) in
      (
        d ++ (x ++ alloc 9),
        (d ++ x) ++ (y ++ (0 ∷ [])),
        rw copied (write_u64-middle v 8 d (alloc 8) (alloc 9) hv e refl),
        rw (← append_assoc d x (alloc 9))
            (write_u64-middle m 16 (d ++ x) (alloc 8) (0 ∷ []) hm size refl),
        last ∙ (append_assoc (d ++ x) y (flag b ∷ []) ∙ append_assoc d x (y ++ (flag b ∷ []))),
      )

module _ (w : Web3) (p : PdaBuyParams) (v m : ℕ) where
  -- With 64-bit amounts buildPdaBuyIx builds an instruction whose data is the handler's discriminator,
  -- from which Anchor reads back the amounts and the flag, and nothing more.
  pub build_pda_buy_ix-data :
      IsWeb3 w
      → p.spendable_sol_in ≡ pos v
      → p.min_tokens_out ≡ pos m
      → v < u64_mod
      → m < u64_mod
      → (ix : Instruction) × (build_pda_buy_ix w p ≡ ok ix)
        × (take 8 ix.data_bytes ≡ anchor_disc w "buy_exact_sol_in_with_pda")
        × (read_buy_args (drop 8 ix.data_bytes) ≡ ok ((v, m, or_default p.track_volume false), []))
  unfolding build_pda_buy_ix anchor_disc
  build_pda_buy_ix-data legal ev em hv hm =
      let d = anchor_disc w "buy_exact_sol_in_with_pda" in
      let b = or_default p.track_volume false in
      let args = le_bytes 8 v ++ (le_bytes 8 m ++ (flag b ∷ [])) in
      let e : length d ≡ 8 =
        length-take 8 (w.sha256 "global:buy_exact_sol_in_with_pda")
          (omega (arith, legal.hash_size "global:buy_exact_sol_in_with_pda")) in
      let (first, both, h, k, l) = written d e v m b hv hm in
      let ix : Instruction = record {
        program_id = p.program_id;
        keys = pda_buy_keys w p;
        data_bytes = d ++ args;
      } in
      let back : read_buy_args (drop 8 (d ++ args)) ≡ ok ((v, m, b), []) =
        subst (λ t. read_buy_args t ≡ ok ((v, m, b), []))
          (append-nil args ∙ sym (drop_prefix 8 d args e))
          ((read_buy_args-Reads v m b hv hm).at []) in
      (ix, rw (ev, em, h, k, l) refl, take_prefix 8 d args e, back)

-- An amount that is no `u64`.
abbrev pub IsTooBig : ℤ → Type 0
IsTooBig a = (v : ℕ) → a ≡ pos v → u64_mod ≤ v

-- An amount that is negative or passes 64 bits makes each of the three builders throw: the direct buy,
-- the buy of the Anchor program and the buy of the lite program.
pub builders_refuse :
    (w : Web3) (direct : BuyParams) (pda : PdaBuyParams) (lite : LiteBuyParams)
    (spendable min_out : ℤ)
    → IsTooBig spendable ⊎ IsTooBig min_out
    → (build_buy_exact_sol_in_ix w
          (record direct { spendable_sol_in = spendable; min_tokens_out = min_out })
        ≡ err out_of_range)
      × (build_pda_buy_ix w (record pda { spendable_sol_in = spendable; min_tokens_out = min_out })
          ≡ err out_of_range)
      × (buy_ix w (record lite { spendable_sol_in = spendable; min_tokens_out = min_out })
          ≡ err out_of_range)
unfolding build_buy_exact_sol_in_ix build_pda_buy_ix buy_ix
builders_refuse w direct pda lite a b (inl h) =
    let no = λ (o : ℕ) (buffer : List ℕ). write_u64-refused a o buffer h in
    (
      rw (no 0 (alloc 8)) refl,
      rw (no 8 (copy_to 0 (anchor_disc w "buy_exact_sol_in_with_pda") (alloc 25))) refl,
      rw (no 1 (set_byte 0 1 (alloc 18))) refl,
    )
builders_refuse w direct pda lite a b (inr h) =
    let no = λ (o : ℕ) (buffer : List ℕ). write_u64-refused b o buffer h in
    (
      bind-refused (write_u64 a 0 (alloc 8)) _ (λ _. rw (no 0 (alloc 8)) refl),
      bind-refused
          (write_u64 a 8 (copy_to 0 (anchor_disc w "buy_exact_sol_in_with_pda") (alloc 25))) _
          (λ first. rw (no 16 first) refl),
      bind-refused (write_u64 a 1 (set_byte 0 1 (alloc 18))) _ (λ first. rw (no 9 first) refl),
    )
