-- ===== src/Trader/Withdrawal.antt =====
-- A withdrawal from the trader is the root's, and sweeps every token account to the root.
use grokchain_programs.Base.{
  ℕ, ◌+◌, ◌≤◌, ◌≡◌, ◌⊎◌, inl, inr, true, List, [], ◌∷◌, arith, ltb, length, ◌%◌, ◌==◌, Bool-cases,
  ◌∙◌, subst, if◌then◌else◌,
}
use grokchain_programs.Constants.{pump_trader_space}
use grokchain_programs.Common.{require_pump_trader_ready}
use grokchain_programs.Common.Root.{check_root, IsRoot, check_root-IsRoot}
use grokchain_programs.Errors.{withdraw_remaining_accounts_odd}
use grokchain_programs.Events.{Event}
use grokchain_programs.Subscription.Pay.{trader_signer}
use grokchain_programs.Subscription.TokenAccount.{fields_of, is_token_program}
use grokchain_programs.Trader.Sweep.{
  WithdrawPumpTrader, swept_account_fields, sweep_ix, sweep_token_pair, sweep_pairs,
  withdraw_lamports, check_withdraw_pump_trader, withdraw_pump_trader,
}
use grokchain_programs.Runtime.Address.{Pubkey}
use grokchain_programs.Runtime.World.{World, Runtime, AccountInfo, ok}
use grokchain_programs.Runtime.Check
use grokchain_programs.Runtime.Check.{Result-cases}
use grokchain_programs.Runtime.Monad.{
  Action, pure, when, invoke_signed, invoke_signed_inv, >>-eq-ok, lift-eq-ok, written,
}

-- One pair: both accounts are of the same token program and the same mint, the first is the
-- trader's and the second the root's, and the token program has been asked to transfer the whole
-- balance, if there is any.
pub record SweepsPair (rt : Runtime) (trader root signer from to : Pubkey) (w w' : World)
    : Type 0 where
  pub program : w.owner from ≡ w.owner to
  pub is_token : is_token_program (w.owner from) ≡ true
  pub from_trader : (fields_of (w.bytes from)).owner ≡ trader
  pub to_root : (fields_of (w.bytes to)).owner ≡ root
  pub mint : (fields_of (w.bytes from)).mint ≡ (fields_of (w.bytes to)).mint
  pub moves :
      (((fields_of (w.bytes from)).amount ≡ 0) × (w' ≡ w))
      ⊎ (rt.invoke
            (sweep_ix (w.owner from) from to trader (fields_of (w.bytes from)).amount)
            (signer ∷ [])
            w
          ≡ ok w')

-- All pairs, one after the other.
abbrev pub Sweeps : Runtime → Pubkey → Pubkey → Pubkey → List AccountInfo → World → World → Type 0
Sweeps rt trader root signer [] w w' = w' ≡ w
Sweeps rt trader root signer (from ∷ []) w w' = w' ≡ w
Sweeps rt trader root signer (from ∷ to ∷ rest) w w' =
    (v : World) × SweepsPair rt trader root signer from.key to.key w v
    × Sweeps rt trader root signer rest v w'

-- The last step of a pair.
move_all : Runtime → Pubkey → Pubkey → Pubkey → Pubkey → ℕ → Pubkey → Action (Unit {0})
move_all rt program from to trader amount signer =
    if amount == 0
    then pure tt
    else invoke_signed rt (sweep_ix program from to trader amount) (signer ∷ [])

sweep_token_pair_inv :
    (rt : Runtime) (from to trader root signer : Pubkey) (w w' : World)
    → sweep_token_pair rt from to trader root signer w ≡ ok (tt, w')
    → (w.owner from ≡ w.owner to)
      × (is_token_program (w.owner from) ≡ true)
      × ((fields_of (w.bytes from)).owner ≡ trader)
      × ((fields_of (w.bytes to)).owner ≡ root)
      × ((fields_of (w.bytes from)).mint ≡ (fields_of (w.bytes to)).mint)
      × (move_all rt (w.owner from) from to trader (fields_of (w.bytes from)).amount signer w
          ≡ ok (tt, w'))
unfolding sweep_token_pair swept_account_fields move_all
sweep_token_pair_inv rt from to trader root signer w w' h =
    (ground arith, ground arith, ground arith, ground arith, ground arith, ground arith)

sweep_token_pair-SweepsPair :
    (rt : Runtime) (from to trader root signer : Pubkey) (w w' : World)
    → sweep_token_pair rt from to trader root signer w ≡ ok (tt, w')
    → SweepsPair rt trader root signer from to w w'
unfolding move_all
sweep_token_pair-SweepsPair rt from to trader root signer w w' h =
    let (program, token, owned, rooted, mint, move) =
      sweep_token_pair_inv rt from to trader root signer w w' h in
    record {
      program = program;
      is_token = token;
      from_trader = owned;
      to_root = rooted;
      mint = mint;
      moves = elim (Bool-cases ((fields_of (w.bytes from)).amount == 0)) [
        | inl e ↦ inl (ground (arith, e), ground (arith, e, move))
        | inr e ↦ inr (
            invoke_signed_inv rt
              (sweep_ix (w.owner from) from to trader (fields_of (w.bytes from)).amount) _ w w'
              (ground (arith, e, move)))
      ];
    }

sweep_pairs-Sweeps :
    (rt : Runtime) (remaining : List AccountInfo) (trader root signer : Pubkey) (w w' : World)
    → sweep_pairs rt remaining trader root signer w ≡ ok (tt, w')
    → Sweeps rt trader root signer remaining w w'
unfolding sweep_pairs
sweep_pairs-Sweeps rt [] trader root signer w w' h = ground arith
sweep_pairs-Sweeps rt (from ∷ []) trader root signer w w' h = ground arith
sweep_pairs-Sweeps rt (from ∷ to ∷ rest) trader root signer w w' h =
    let (v, e, r) = >>-eq-ok (sweep_token_pair rt from.key to.key trader root signer) _ h in
    (
      v,
      sweep_token_pair-SweepsPair rt from.key to.key trader root signer w v e,
      sweep_pairs-Sweeps rt rest trader root signer v w' r,
    )

-- The lamports: none are asked for, or the trader covers them above its rent and the transfer to
-- the root that it signs has been made.
abbrev pub PaysRoot : Runtime → Pubkey → Pubkey → Pubkey → ℕ → World → World → Type 0
PaysRoot rt trader root signer lamports w w' =
    ((lamports ≡ 0) × (w' ≡ w))
    ⊎ ((lamports + rt.minimum_balance pump_trader_space ≤ w.lamports trader)
        × (rt.invoke (rt.system_transfer trader root lamports) (signer ∷ []) w ≡ ok w'))

covered_transfer :
    (rt : Runtime) (trader root : Pubkey) (lamports : ℕ) (signer : Pubkey) (w w' : World)
    → withdraw_lamports rt trader root lamports signer w ≡ ok (tt, w')
    → (lamports + rt.minimum_balance pump_trader_space ≤ w.lamports trader)
      × (invoke_signed rt (rt.system_transfer trader root lamports) (signer ∷ []) w ≡ ok (tt, w'))
unfolding withdraw_lamports
covered_transfer rt trader root lamports signer w w' h = (ground arith, ground arith)

withdraw_lamports-PaysRoot :
    (rt : Runtime) (trader root : Pubkey) (lamports : ℕ) (signer : Pubkey) (w w' : World)
    → when (ltb 0 lamports) (withdraw_lamports rt trader root lamports signer) w ≡ ok (tt, w')
    → PaysRoot rt trader root signer lamports w w'
withdraw_lamports-PaysRoot rt trader root lamports signer w w' h =
    elim (Bool-cases (ltb 0 lamports)) [
      | inl e ↦
          let (covered, moved) = covered_transfer rt trader root lamports signer w w' (
            subst (λ b. when b (withdraw_lamports rt trader root lamports signer) w ≡ ok (tt, w')) e
              h) in
          inr (covered, invoke_signed_inv rt _ _ w w' moved)
      | inr e ↦ inl (
        ground (arith, e),
        idle w w' (
            subst (λ b. when b (withdraw_lamports rt trader root lamports signer) w ≡ ok (tt, w')) e
              h),
      )
    ]
  where
    idle : (v v' : World) → pure tt v ≡ ok (tt, v') → v' ≡ v
    idle v v' q = ground arith

pub check_withdraw_inv :
    (rt : Runtime) (ctx : WithdrawPumpTrader) (w w' : World)
    → check_withdraw_pump_trader rt ctx w ≡ ok (tt, w')
    → IsRoot ctx.signed × (w' ≡ w)
unfolding check_withdraw_pump_trader
check_withdraw_inv rt ctx w w' h = elim (Result-cases (check_root rt ctx.signed)) [
  | inl (_, e) ↦ (check_root-IsRoot rt ctx.signed e, ground (arith, e, h))
  | inr (x, e) ↦ ground (arith, e, h)
]

pub trader_ready_inv :
    (rt : Runtime) (trader : Pubkey) (w w' : World)
    → require_pump_trader_ready rt trader w ≡ ok (tt, w')
    → w' ≡ w
unfolding require_pump_trader_ready
trader_ready_inv rt trader w w' h = ground arith

-- What a withdrawal that succeeds has done: the root's lamports first, then every pair, and the
-- event last. The accounts come in pairs.
pub record IsWithdrawn (rt : Runtime) (ctx : WithdrawPumpTrader) (lamports : ℕ) (w w' : World)
    : Type 0 where
  pub root : IsRoot ctx.signed
  pub even : length ctx.remaining_accounts % 2 ≡ 0
  pub paid : World
  pub pays :
      PaysRoot rt ctx.pump_trader ctx.root.key (trader_signer rt ctx.grok_account) lamports w paid
  pub swept : World
  pub sweeps :
      Sweeps rt ctx.pump_trader ctx.root.key
        (trader_signer rt ctx.grok_account)
        ctx.remaining_accounts
        paid
        swept
  pub logged : w' ≡ record swept {
    log =
        Event.pump_trader_withdrawn ctx.pump_trader ctx.grok_account.key ctx.root.key lamports
        ∷ swept.log;
  }

-- Whenever `withdraw_pump_trader` succeeds, the root of the account has signed; the lamports, if
-- any are asked for, go from the trader to the root and leave the trader its rent; and each pair of
-- remaining accounts is one of the trader's and one of the root's, of the same token program and
-- mint, of which the first's whole balance is transferred to the second.
pub withdraw_pump_trader-IsWithdrawn :
    (rt : Runtime) (ctx : WithdrawPumpTrader) (lamports : ℕ) (w w' : World)
    → withdraw_pump_trader rt ctx lamports w ≡ ok (tt, w')
    → IsWithdrawn rt ctx lamports w w'
unfolding withdraw_pump_trader
withdraw_pump_trader-IsWithdrawn rt ctx lamports w w' h =
    let (w1, e1, h1) = >>-eq-ok (check_withdraw_pump_trader rt ctx) _ h in
    let (root, r1) = check_withdraw_inv rt ctx w w1 e1 in
    let (even, h2) =
      lift-eq-ok
        (Check.require (length ctx.remaining_accounts % 2 == 0) withdraw_remaining_accounts_odd) _
        h1 in
    let (w2, e2, h3) = >>-eq-ok (require_pump_trader_ready rt ctx.pump_trader) _ h2 in
    let r2 = trader_ready_inv rt ctx.pump_trader w1 w2 e2 in
    let (w3, e3, h4) = >>-eq-ok (when (ltb 0 lamports) (withdraw_lamports rt _ _ _ _)) _ h3 in
    let (w4, e4, h5) = >>-eq-ok (sweep_pairs rt ctx.remaining_accounts _ _ _) _ h4 in
    record {
      root = root;
      even = ground (arith, even);
      paid = w3;
      pays =
          subst
            (λ v.
              PaysRoot rt ctx.pump_trader ctx.root.key (trader_signer rt ctx.grok_account) lamports
                v w3)
            (r2 ∙ r1) (withdraw_lamports-PaysRoot rt _ _ lamports _ w2 w3 e3);
      swept = w4;
      sweeps = sweep_pairs-Sweeps rt ctx.remaining_accounts _ _ _ w3 w4 e4;
      logged = written (Event.pump_trader_withdrawn _ _ _ lamports) w4 w' h5;
    }
