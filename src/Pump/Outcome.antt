-- ===== src/Pump/Outcome.antt =====
-- What a trade on pump.fun that succeeds has checked and done.
use grokchain_programs.Base.{
  ◌+◌, ◌≤◌, ◌<◌, ◌≡◌, true, Bool, none, some, get_elem?, arith, u64_size, ◌∙◌, subst,
}
use grokchain_programs.Common.Adapter.{check_adapter, check_adapter_inv}
use grokchain_programs.Common.Checks.{reject_paymaster_in_remaining}
use grokchain_programs.Constants.{
  pump_trader_space, pump_user_index, pump_create_user_index, pump_program_index_buy,
  pump_program_index_sell, pump_create_program_index, pump_create_mint_index,
  pump_buy_v2_account_count, pump_sell_v2_account_count,
}
use grokchain_programs.CoreCpi.Metering.{MetersGrants}
use grokchain_programs.Events.{Event}
use grokchain_programs.Policy.{pump_sell_check_grant_amount}
use grokchain_programs.Pump.Accounts.{
  account_at, validate_pump_pdas, validate_pump_create_pdas, build_pump_ix, build_pump_create_ix,
}
use grokchain_programs.Pump.Checks.{
  require_pump_account_count, require_nonempty_pump_data, require_pump_buy_amounts,
  require_pump_sell_amounts, require_pump_create_strings, require_pump_create_amounts,
  require_pump_mint_is_signer, require_pump_create_account_count, require_nonempty_pump_create_data,
}
use grokchain_programs.Pump.Encoding.{
  encode_pump_buy_v2, encode_pump_sell_v2, encode_pump_create_v2,
}
use grokchain_programs.Pump.Slots.{reject_paymaster-AvoidsPaymaster, account_at_inv}
use grokchain_programs.Pump.Steps.{
  check_roles_inv, check_user-IsUser, check_program_slot_inv, check_ata_inv, check_prefunded_inv,
  build_pump_ix-IsBuilt, build_pump_create_ix-IsBuilt,
}
use grokchain_programs.Pump.Sending.{IsAsked, IsSent, meter_inv, sends}
use grokchain_programs.Pump.Trade.{
  PumpTrade, trader_pda, check_roles, check_user, check_program_slot, meter, check_prefunded,
  check_ata, pump_buy, pump_sell, pump_create,
}
use grokchain_programs.State.{PumpBuyArgs, PumpSellArgs, PumpCreateArgs}
use grokchain_programs.Runtime.World.{World, Runtime, AccountInfo, ok}
use grokchain_programs.Runtime.Monad.{
  lift, emit, written, lift-value, >>=-eq-ok, >>-eq-ok, lift-eq-ok,
}

mint_signs : (b : Bool) → require_pump_mint_is_signer b ≡ ok tt → b ≡ true
unfolding require_pump_mint_is_signer
mint_signs b h = ground arith

-- Whenever `pump_buy` succeeds, on a CORE that keeps its contract and for a cost that is a u64: the
-- agent signed, the trader stands in the user's slot and covers the cost above its rent, the grant
-- has metered the cost within its cap, and pump.fun was sent exactly the `buy_v2` of the arguments,
-- with the remaining accounts in order, under their own flags but for the trader, who signs and is
-- writable, and with no signature added but the trader's.
pub pump_buy-IsSent :
    (rt : Runtime) (ctx : PumpTrade) (args : PumpBuyArgs) (w w' : World)
    → MetersGrants rt
    → args.max_sol_cost < u64_size
    → pump_buy rt ctx args w ≡ ok (tt, w')
    → IsAsked rt ctx pump_user_index
      × (args.max_sol_cost + rt.minimum_balance pump_trader_space ≤ w.lamports (trader_pda rt ctx))
      × (mint : AccountInfo) × (get_elem? ctx.remaining_accounts 1 ≡ some mint)
      × IsSent rt ctx pump_user_index none args.max_sol_cost args.sponsor_lamports
          (encode_pump_buy_v2 args.amount args.max_sol_cost)
          (Event.pump_bought ctx.spend_vault.key
            (trader_pda rt ctx)
            mint.key
            args.amount
            args.max_sol_cost
            ctx.agent.key
            ctx.grant.key
            ctx.grant.value.generation)
          w
          w'
unfolding pump_buy
pump_buy-IsSent rt ctx args w w' core small h =
    let payload = encode_pump_buy_v2 args.amount args.max_sol_cost in
    let trader = trader_pda rt ctx in
    let (named, h1) = lift-eq-ok (check_adapter rt ctx.mouth ctx.pump_program _) _ h in
    let (authorised, relayed, program, _) = check_adapter_inv rt ctx.mouth _ _ named in
    let (_, h2) = lift-eq-ok (require_pump_buy_amounts args.amount args.max_sol_cost) _ h1 in
    let (w1, e1, h3) = >>-eq-ok (check_roles ctx args.sponsor_lamports) _ h2 in
    let r1 = check_roles_inv ctx args.sponsor_lamports w w1 e1 in
    let (_, h4) = lift-eq-ok (require_pump_account_count _ pump_buy_v2_account_count) _ h3 in
    let (w2, e2, h5) = >>-eq-ok (check_user rt ctx pump_user_index) _ h4 in
    let (r2, user) = check_user-IsUser rt ctx pump_user_index w1 w2 e2 in
    let (w3, e3, h6) = >>-eq-ok (check_program_slot ctx pump_program_index_buy) _ h5 in
    let r3 = check_program_slot_inv ctx pump_program_index_buy w2 w3 e3 in
    let (_, h7) = lift-eq-ok (validate_pump_pdas rt ctx.remaining_accounts trader _) _ h6 in
    let (apart, h8) = lift-eq-ok (reject_paymaster_in_remaining ctx.remaining_accounts _) _ h7 in
    let (w4, e4, h9) = >>-eq-ok (meter rt ctx args.max_sol_cost) _ h8 in
    let (r4, within) = meter_inv rt ctx _ w3 w w4 core small (r3 ∙ r2 ∙ r1) e4 in
    let (w5, e5, h10) = >>-eq-ok (check_prefunded rt ctx pump_user_index args.max_sol_cost) _ h9 in
    let (r5, funded) = check_prefunded_inv rt ctx pump_user_index args.max_sol_cost user w4 w5 e5 in
    let (w6, e6, h11) = >>-eq-ok (check_ata ctx) _ h10 in
    let r6 = check_ata_inv ctx w5 w6 e6 in
    let (_, h12) = lift-eq-ok (require_nonempty_pump_data payload) _ h11 in
    let (v, rest, done) =
      sends rt ctx pump_user_index none args.max_sol_cost args.sponsor_lamports payload
        (build_pump_ix ctx.remaining_accounts trader payload) _ w w6 w' (r6 ∙ r5 ∙ r4) within
        (build_pump_ix-IsBuilt ctx trader payload) h12 in
    let (mint, w7, e7, h13) = >>=-eq-ok (lift (account_at ctx.remaining_accounts 1)) _ rest in
    let (found, r7) = lift-value (account_at ctx.remaining_accounts 1) e7 in
    (
      record {
        authorised = authorised;
        relayed = relayed;
        program = program;
        user = user;
        apart = reject_paymaster-AvoidsPaymaster ctx.remaining_accounts _ apart;
      },
      subst (λ u. args.max_sol_cost + rt.minimum_balance pump_trader_space ≤ u.lamports trader) r4
          funded,
      mint,
      account_at_inv ctx.remaining_accounts 1 mint found,
      done (Event.pump_bought _ _ mint.key args.amount args.max_sol_cost _ _ _) (
          written (Event.pump_bought _ _ mint.key args.amount args.max_sol_cost _ _ _) v w' (
            subst
              (λ u.
                emit
                  (Event.pump_bought ctx.spend_vault.key (trader_pda rt ctx) mint.key args.amount
                    args.max_sol_cost ctx.agent.key ctx.grant.key ctx.grant.value.generation)
                  u
                ≡ ok (tt, w'))
              r7 h13)),
    )

-- Whenever `pump_sell` succeeds, on a CORE that keeps its contract: the agent signed, the trader
-- stands in the user's slot, the grant has metered nothing, and pump.fun was sent exactly the
-- `sell_v2` of the arguments, with the remaining accounts in order, under their own flags but for
-- the trader, who signs and is writable, and with no signature added but the trader's.
pub pump_sell-IsSent :
    (rt : Runtime) (ctx : PumpTrade) (args : PumpSellArgs) (w w' : World)
    → MetersGrants rt
    → pump_sell rt ctx args w ≡ ok (tt, w')
    → IsAsked rt ctx pump_user_index
      × (mint : AccountInfo) × (get_elem? ctx.remaining_accounts 1 ≡ some mint)
      × IsSent rt ctx pump_user_index none pump_sell_check_grant_amount args.sponsor_lamports
          (encode_pump_sell_v2 args.amount args.min_sol_output)
          (Event.pump_sold ctx.spend_vault.key
            (trader_pda rt ctx)
            mint.key
            args.amount
            args.min_sol_output
            ctx.agent.key
            ctx.grant.key
            ctx.grant.value.generation)
          w
          w'
unfolding pump_sell
pump_sell-IsSent rt ctx args w w' core h =
    let payload = encode_pump_sell_v2 args.amount args.min_sol_output in
    let trader = trader_pda rt ctx in
    let (named, h1) = lift-eq-ok (check_adapter rt ctx.mouth ctx.pump_program _) _ h in
    let (authorised, relayed, program, _) = check_adapter_inv rt ctx.mouth _ _ named in
    let (_, h2) = lift-eq-ok (require_pump_sell_amounts args.amount args.min_sol_output) _ h1 in
    let (w1, e1, h3) = >>-eq-ok (check_roles ctx args.sponsor_lamports) _ h2 in
    let r1 = check_roles_inv ctx args.sponsor_lamports w w1 e1 in
    let (_, h4) = lift-eq-ok (require_pump_account_count _ pump_sell_v2_account_count) _ h3 in
    let (w2, e2, h5) = >>-eq-ok (check_user rt ctx pump_user_index) _ h4 in
    let (r2, user) = check_user-IsUser rt ctx pump_user_index w1 w2 e2 in
    let (w3, e3, h6) = >>-eq-ok (check_program_slot ctx pump_program_index_sell) _ h5 in
    let r3 = check_program_slot_inv ctx pump_program_index_sell w2 w3 e3 in
    let (_, h7) = lift-eq-ok (validate_pump_pdas rt ctx.remaining_accounts trader _) _ h6 in
    let (apart, h8) = lift-eq-ok (reject_paymaster_in_remaining ctx.remaining_accounts _) _ h7 in
    let (w4, e4, h9) = >>-eq-ok (meter rt ctx pump_sell_check_grant_amount) _ h8 in
    let (r4, within) = meter_inv rt ctx _ w3 w w4 core (omega arith) (r3 ∙ r2 ∙ r1) e4 in
    let (_, h12) = lift-eq-ok (require_nonempty_pump_data payload) _ h9 in
    let (v, rest, done) =
      sends rt ctx pump_user_index none pump_sell_check_grant_amount args.sponsor_lamports payload
        (build_pump_ix ctx.remaining_accounts trader payload) _ w w4 w' (r4) within
        (build_pump_ix-IsBuilt ctx trader payload) h12 in
    let (mint, w7, e7, h13) = >>=-eq-ok (lift (account_at ctx.remaining_accounts 1)) _ rest in
    let (found, r7) = lift-value (account_at ctx.remaining_accounts 1) e7 in
    (
      record {
        authorised = authorised;
        relayed = relayed;
        program = program;
        user = user;
        apart = reject_paymaster-AvoidsPaymaster ctx.remaining_accounts _ apart;
      },
      mint,
      account_at_inv ctx.remaining_accounts 1 mint found,
      done (Event.pump_sold _ _ mint.key args.amount args.min_sol_output _ _ _) (
          written (Event.pump_sold _ _ mint.key args.amount args.min_sol_output _ _ _) v w' (
            subst
              (λ u.
                emit
                  (Event.pump_sold ctx.spend_vault.key (trader_pda rt ctx) mint.key args.amount
                    args.min_sol_output ctx.agent.key ctx.grant.key ctx.grant.value.generation)
                  u
                ≡ ok (tt, w'))
              r7 h13)),
    )

-- Whenever `pump_create` succeeds, on a CORE that keeps its contract and for a cost that is a u64:
-- the agent signed, the new coin's account signed, the trader stands in the user's slot and covers
-- the cost above its rent, the grant has metered the cost within its cap, and pump.fun was sent
-- exactly the `create_v2` of the arguments with the account's root as the creator, with the
-- remaining accounts in order, under their own flags but for the trader, who signs and is writable,
-- and the new coin, which signs by itself and is writable, and with no signature added but the
-- trader's.
pub pump_create-IsSent :
    (rt : Runtime) (ctx : PumpTrade) (args : PumpCreateArgs) (w w' : World)
    → MetersGrants rt
    → args.max_sol_cost < u64_size
    → pump_create rt ctx args w ≡ ok (tt, w')
    → IsAsked rt ctx pump_create_user_index
      × (args.max_sol_cost + rt.minimum_balance pump_trader_space ≤ w.lamports (trader_pda rt ctx))
      × (mint : AccountInfo) × (get_elem? ctx.remaining_accounts pump_create_mint_index ≡ some mint)
      × (mint.is_signer ≡ true)
      × IsSent rt ctx pump_create_user_index
          (some pump_create_mint_index)
          args.max_sol_cost
          args.sponsor_lamports
          (encode_pump_create_v2 args.name args.symbol args.uri ctx.grok_account.value.root
            args.is_mayhem_mode args.is_cashback_enabled)
          (Event.pump_created ctx.spend_vault.key
            (trader_pda rt ctx)
            mint.key
            ctx.grok_account.value.root
            args.max_sol_cost
            args.is_mayhem_mode
            args.is_cashback_enabled
            ctx.agent.key
            ctx.grant.key
            ctx.grant.value.generation)
          w
          w'
unfolding pump_create
pump_create-IsSent rt ctx args w w' core small h =
    let payload =
      encode_pump_create_v2 args.name args.symbol args.uri ctx.grok_account.value.root
        args.is_mayhem_mode args.is_cashback_enabled in
    let trader = trader_pda rt ctx in
    let (named, h1) = lift-eq-ok (check_adapter rt ctx.mouth ctx.pump_program _) _ h in
    let (authorised, relayed, program, _) = check_adapter_inv rt ctx.mouth _ _ named in
    let (_, h1a) = lift-eq-ok (require_pump_create_strings args.name args.symbol args.uri) _ h1 in
    let (_, h2) = lift-eq-ok (require_pump_create_amounts args.max_sol_cost) _ h1a in
    let (w1, e1, h3) = >>-eq-ok (check_roles ctx args.sponsor_lamports) _ h2 in
    let r1 = check_roles_inv ctx args.sponsor_lamports w w1 e1 in
    let (_, h4) = lift-eq-ok (require_pump_create_account_count _) _ h3 in
    let (w2, e2, h5) = >>-eq-ok (check_user rt ctx pump_create_user_index) _ h4 in
    let (r2, user) = check_user-IsUser rt ctx pump_create_user_index w1 w2 e2 in
    let (mint, wm, em, hm) =
      >>=-eq-ok (lift (account_at ctx.remaining_accounts pump_create_mint_index)) _ h5 in
    let (found, rm) = lift-value (account_at ctx.remaining_accounts pump_create_mint_index) em in
    let (signs, hs) = lift-eq-ok (require_pump_mint_is_signer mint.is_signer) _ hm in
    let (w3, e3, h6) = >>-eq-ok (check_program_slot ctx pump_create_program_index) _ hs in
    let r3 = check_program_slot_inv ctx pump_create_program_index wm w3 e3 in
    let (_, h7) = lift-eq-ok (validate_pump_create_pdas rt ctx.remaining_accounts) _ h6 in
    let (apart, h8) = lift-eq-ok (reject_paymaster_in_remaining ctx.remaining_accounts _) _ h7 in
    let (w4, e4, h9) = >>-eq-ok (meter rt ctx args.max_sol_cost) _ h8 in
    let (r4, within) = meter_inv rt ctx _ w3 w w4 core small (r3 ∙ rm ∙ r2 ∙ r1) e4 in
    let (w5, e5, h10) =
      >>-eq-ok (check_prefunded rt ctx pump_create_user_index args.max_sol_cost) _ h9 in
    let (r5, funded) =
      check_prefunded_inv rt ctx pump_create_user_index args.max_sol_cost user w4 w5 e5 in
    let (_, h12) = lift-eq-ok (require_nonempty_pump_create_data payload) _ h10 in
    let (v, rest, done) =
      sends rt ctx pump_create_user_index (some pump_create_mint_index) args.max_sol_cost
        args.sponsor_lamports payload (build_pump_create_ix ctx.remaining_accounts trader payload) _
        w w5 w' (r5 ∙ r4) within (build_pump_create_ix-IsBuilt ctx trader payload) h12 in
    (
      record {
        authorised = authorised;
        relayed = relayed;
        program = program;
        user = user;
        apart = reject_paymaster-AvoidsPaymaster ctx.remaining_accounts _ apart;
      },
      subst (λ u. args.max_sol_cost + rt.minimum_balance pump_trader_space ≤ u.lamports trader) r4
          funded,
      mint,
      account_at_inv ctx.remaining_accounts pump_create_mint_index mint found,
      mint_signs mint.is_signer signs,
      done (Event.pump_created _ _ mint.key _ args.max_sol_cost _ _ _ _ _)
          (written (Event.pump_created _ _ mint.key _ args.max_sol_cost _ _ _ _ _) v w' rest),
    )
