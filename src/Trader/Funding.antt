-- ===== src/Trader/Funding.antt =====
-- Funding the trader is the root's, moves exactly the amount, and can be undone by the root.
use grokchain_programs.Base.{
  ℕ, ◌+◌, ◌≤◌, ◌<◌, ◌≡◌, ◌≢◌, [], ◌∷◌, arith, u64_size, ltb, ap, ◌∙◌, sym, inl, inr, refl, lt→ltb,
}
use grokchain_programs.Common.{debit_spend_vault, require_pump_trader_ready}
use grokchain_programs.Common.Root.{check_root, IsRoot, check_root-IsRoot}
use grokchain_programs.Common.Sponsor.{debit_spend_vault_inv}
use grokchain_programs.Constants.{
  pump_trader_space, system_program_id, token_program_id, token_2022_program_id,
}
use grokchain_programs.Custodians.Laws.{TakesOut}
use grokchain_programs.Custody.Laws.{debited}
use grokchain_programs.Errors.{zero_amount}
use grokchain_programs.Events.{Event}
use grokchain_programs.State.{spend_vault_space}
use grokchain_programs.Subscription.Pay.{derived_trader, trader_signer}
use grokchain_programs.Trader.Manage.{FundPumpTrader, check_fund_pump_trader, fund_pump_trader}
use grokchain_programs.Trader.Sweep.{
  WithdrawPumpTrader, check_withdraw_pump_trader, withdraw_pump_trader, withdraw_lamports,
  sweep_pairs,
}
use grokchain_programs.Trader.Withdrawal.{trader_ready_inv}
use grokchain_programs.Runtime.Address.{Pubkey}
use grokchain_programs.Runtime.World.{World, Runtime, Result, ok}
use grokchain_programs.Runtime.Check
use grokchain_programs.Runtime.Check.{Result-cases}
use grokchain_programs.Runtime.Monad.{Action, when, >>-eq-ok, lift-eq-ok, written, >>_then}

pub check_fund_inv :
    (rt : Runtime) (ctx : FundPumpTrader) (w w' : World)
    → check_fund_pump_trader rt ctx w ≡ ok (tt, w')
    → IsRoot ctx.signed
      × (check_root rt ctx.signed ≡ ok tt)
      × (ctx.pump_trader ≡ (derived_trader rt ctx.grok_account).0)
      × (w' ≡ w)
unfolding check_fund_pump_trader
check_fund_inv rt ctx w w' h = elim (Result-cases (check_root rt ctx.signed)) [
  | inl (_, e) ↦ (check_root-IsRoot rt ctx.signed e, e, ground (arith, e, h), ground (arith, e, h))
  | inr (x, e) ↦ ground (arith, e, h)
]

ready_parts :
    (rt : Runtime) (trader : Pubkey) (w w' : World)
    → require_pump_trader_ready rt trader w ≡ ok (tt, w')
    → (w.owner trader ≡ system_program_id)
      × (w.bytes trader ≡ [])
      × (rt.minimum_balance pump_trader_space ≤ w.lamports trader)
unfolding require_pump_trader_ready
ready_parts rt trader w w' h = (ground arith, ground arith, ground arith)

-- What a funding that succeeds has checked and done.
record IsFunded (rt : Runtime) (ctx : FundPumpTrader) (lamports : ℕ) (w w' : World) : Type 0 where
  pub root : IsRoot ctx.signed
  pub checked : check_root rt ctx.signed ≡ ok tt
  pub derived : ctx.pump_trader ≡ (derived_trader rt ctx.grok_account).0
  pub positive : 0 < lamports
  pub system_owned : w.owner ctx.pump_trader ≡ system_program_id
  pub no_data : w.bytes ctx.pump_trader ≡ []
  pub above_rent : rt.minimum_balance pump_trader_space ≤ w.lamports ctx.pump_trader
  pub covered : lamports + rt.minimum_balance spend_vault_space ≤ w.lamports ctx.spend_vault.key
  pub fits : w.lamports ctx.pump_trader + lamports < u64_size
  pub moves : w' ≡ record (debited ctx.spend_vault.key ctx.pump_trader lamports w) {
    log =
        Event.pump_trader_funded ctx.pump_trader ctx.spend_vault.key ctx.grok_account.key
          ctx.root.key lamports
        ∷ w.log;
  }

fund_pump_trader-IsFunded :
    (rt : Runtime) (ctx : FundPumpTrader) (lamports : ℕ) (w w' : World)
    → fund_pump_trader rt ctx lamports w ≡ ok (tt, w')
    → IsFunded rt ctx lamports w w'
unfolding fund_pump_trader
fund_pump_trader-IsFunded rt ctx lamports w w' h =
    let (w1, e1, h1) = >>-eq-ok (check_fund_pump_trader rt ctx) _ h in
    let (root, checked, derived, r1) = check_fund_inv rt ctx w w1 e1 in
    let (positive, h2) = lift-eq-ok (Check.require (ltb 0 lamports) zero_amount) _ h1 in
    let (w2, e2, h3) = >>-eq-ok (require_pump_trader_ready rt ctx.pump_trader) _ h2 in
    let r2 = trader_ready_inv rt ctx.pump_trader w1 w2 e2 in
    let start = ap (require_pump_trader_ready rt ctx.pump_trader) (sym r1) ∙ e2 in
    let (system_owned, no_data, above_rent) = ready_parts rt ctx.pump_trader w w2 start in
    let (w3, e3, h4) = >>-eq-ok (debit_spend_vault rt ctx.spend_vault ctx.pump_trader _) _ h3 in
    let paid = ap (debit_spend_vault rt ctx.spend_vault _ lamports) (sym (r2 ∙ r1)) ∙ e3 in
    let (moved, covered, fits) = debit_spend_vault_inv rt ctx.spend_vault _ lamports w w3 paid in
    record {
      root = root;
      checked = checked;
      derived = derived;
      positive = ground (arith, positive);
      system_owned = system_owned;
      no_data = no_data;
      above_rent = above_rent;
      covered = covered;
      fits = fits;
      moves =
          written (Event.pump_trader_funded _ _ _ _ lamports) w3 w' h4
          ∙ ap {A = World}
              (λ v. record v {
                log =
                    Event.pump_trader_funded ctx.pump_trader ctx.spend_vault.key
                      ctx.grok_account.key ctx.root.key lamports
                    ∷ v.log;
              })
              moved;
    }

-- Whenever `fund_pump_trader` succeeds, for a vault that is not the trader: the root of the account
-- has signed, exactly the amount, which is positive, goes from the vault to the trader, the vault
-- keeps its rent, and an account `k` apart from the two keeps its balance.
pub fund_pump_trader-TakesOut :
    (rt : Runtime) (ctx : FundPumpTrader) (lamports : ℕ) (k : Pubkey) (w w' : World)
    → ctx.spend_vault.key ≢ ctx.pump_trader
    → k ≢ ctx.spend_vault.key
    → k ≢ ctx.pump_trader
    → fund_pump_trader rt ctx lamports w ≡ ok (tt, w')
    → IsRoot ctx.signed
      × TakesOut ctx.spend_vault.key ctx.pump_trader lamports
          (rt.minimum_balance spend_vault_space)
          k
          w
          w'
fund_pump_trader-TakesOut rt ctx lamports k w w' v kv kt h =
    let f = fund_pump_trader-IsFunded rt ctx lamports w w' h in
    (f.root, rw f.moves (ground (arith, f.positive, f.covered, f.fits)))

covered_withdrawal :
    (rt : Runtime) (trader root : Pubkey) (lamports : ℕ) (signer : Pubkey) (w moved : World)
    → lamports + rt.minimum_balance pump_trader_space ≤ w.lamports trader
    → rt.invoke (rt.system_transfer trader root lamports) (signer ∷ []) w ≡ ok moved
    → withdraw_lamports rt trader root lamports signer w ≡ ok (tt, moved)
unfolding withdraw_lamports
covered_withdrawal rt trader root lamports signer w moved covered sent = ground arith

trader_ready :
    (rt : Runtime) (trader : Pubkey) (w : World)
    → w.owner trader ≡ system_program_id
    → w.bytes trader ≡ []
    → rt.minimum_balance pump_trader_space ≤ w.lamports trader
    → require_pump_trader_ready rt trader w ≡ ok (tt, w)
unfolding require_pump_trader_ready
trader_ready rt trader w owned empty rent = ground arith

-- The withdrawal of all that a funding has brought, with no token account.
abbrev pub withdrawal_of : FundPumpTrader → WithdrawPumpTrader
withdrawal_of ctx = record {
  signed = ctx.signed;
  pump_trader = ctx.pump_trader;
  token_program = token_program_id;
  token_2022_program = token_2022_program_id;
  remaining_accounts = [];
}

withdrawal_checks :
    (rt : Runtime) (ctx : FundPumpTrader) (w : World)
    → check_root rt ctx.signed ≡ ok tt
    → ctx.pump_trader ≡ (derived_trader rt ctx.grok_account).0
    → check_withdraw_pump_trader rt (withdrawal_of ctx) w ≡ ok (tt, w)
unfolding check_withdraw_pump_trader
withdrawal_checks rt ctx w checked derived = ground arith

-- After a funding that succeeds, for a vault that is not the trader, the root can take the same
-- lamports out again: if the system program makes the transfer, `withdraw_pump_trader` succeeds, and
-- its effect is the transfer and the event.
pub fund-withdraw_completes :
    (rt : Runtime) (ctx : FundPumpTrader) (lamports : ℕ) (w w' moved : World)
    → ctx.spend_vault.key ≢ ctx.pump_trader
    → fund_pump_trader rt ctx lamports w ≡ ok (tt, w')
    → rt.invoke
        (rt.system_transfer ctx.pump_trader ctx.root.key lamports)
        (trader_signer rt ctx.grok_account ∷ [])
        w'
      ≡ ok moved
    → withdraw_pump_trader rt (withdrawal_of ctx) lamports w'
      ≡ ok (
        tt,
        record moved {
          log =
              Event.pump_trader_withdrawn ctx.pump_trader ctx.grok_account.key ctx.root.key lamports
              ∷ moved.log;
        },
      )
unfolding withdraw_pump_trader sweep_pairs
fund-withdraw_completes rt ctx lamports w w' moved apart h sent =
    let f = fund_pump_trader-IsFunded rt ctx lamports w w' h in
    let out = withdrawal_of ctx in
    let signer = trader_signer rt ctx.grok_account in
    let ready =
      trader_ready rt ctx.pump_trader w' (rw f.moves f.system_owned) (rw f.moves f.no_data)
        (rw f.moves (ground (arith, f.above_rent, apart))) in
    let pays =
      covered_withdrawal rt ctx.pump_trader ctx.root.key lamports signer w' moved
        (rw f.moves (ground (arith, f.above_rent, apart))) sent in
    >>_then (check_withdraw_pump_trader rt out) _ (withdrawal_checks rt ctx w' f.checked f.derived)
      (>>_then (require_pump_trader_ready rt ctx.pump_trader) _ ready (
        >>_then
          (when (ltb 0 lamports)
            (withdraw_lamports rt ctx.pump_trader ctx.root.key lamports signer))
          _ (positive_then lamports _ f.positive pays) refl))
  where
    positive_then :
        (n : ℕ) (m : Action (Unit {0})) {v : World} {r : Result (Unit {0} × World)}
        → 0 < n
        → m v ≡ r
        → when (ltb 0 n) m v ≡ r
    positive_then n m p e = rw (lt→ltb 0 n p) e
