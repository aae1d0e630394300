-- ===== src/Pump/Steps.antt =====
-- What the steps of a trade on pump.fun have checked and done.
use grokchain_programs.Base.{
  ℕ, ◌+◌, ◌≤◌, ◌≡◌, ◌≢◌, Option, none, some, List, [], ◌∷◌, get_elem?, arith, subst, inl, inr,
}
use grokchain_programs.Common.{require_pump_trader_ready}
use grokchain_programs.Constants.{
  pump_trader_space, pump_user_index, pump_create_user_index, pump_create_mint_index,
}
use grokchain_programs.Policy.{
  require_pump_user_not_vault, require_pump_user_is_trader, require_pump_trader_prefunded,
}
use grokchain_programs.Pump.Accounts.{
  account_at, build_metas, trade_meta, create_meta, pump_ix, build_pump_ix, build_pump_create_ix,
}
use grokchain_programs.Pump.Slots.{
  Pairwise, Handed, trade_meta-Handed, create_meta-Handed, build_metas-Handed, account_at_inv,
}
use grokchain_programs.Pump.Trade.{
  PumpTrade, trader_pda, check_roles, check_user, check_program_slot, check_prefunded, check_ata,
  send,
}
use grokchain_programs.Subscription.Pay.{trader_signer}
use grokchain_programs.Runtime.Address.{Pubkey}
use grokchain_programs.Runtime.World.{
  World, Runtime, AccountInfo, AccountMeta, Instruction, Result, ok,
}
use grokchain_programs.Runtime.Check.{Result-cases}
use grokchain_programs.Runtime.Monad.{lift, invoke_signed_inv, lift-value, >>=-eq-ok}

pub check_roles_inv :
    (ctx : PumpTrade) (sponsor : ℕ) (w w' : World)
    → check_roles ctx sponsor w ≡ ok (tt, w')
    → w' ≡ w
unfolding check_roles
check_roles_inv ctx sponsor w w' h = ground arith

-- The account in the user's slot is the trader, and not the vault.
pub record IsUser (rt : Runtime) (ctx : PumpTrade) (index : ℕ) : Type 0 where
  pub user : AccountInfo
  pub in_slot : get_elem? ctx.remaining_accounts index ≡ some user
  pub is_trader : user.key ≡ trader_pda rt ctx
  pub not_vault : user.key ≢ ctx.spend_vault.key

user_parts :
    (rt : Runtime) (ctx : PumpTrade) (index : ℕ) (a : AccountInfo) (w w' : World)
    → account_at ctx.remaining_accounts index ≡ ok a
    → check_user rt ctx index w ≡ ok (tt, w')
    → (w' ≡ w) × (a.key ≡ trader_pda rt ctx) × (a.key ≢ ctx.spend_vault.key)
unfolding check_user require_pump_trader_ready require_pump_user_not_vault
    require_pump_user_is_trader
user_parts rt ctx index a w w' e h = (ground arith, ground arith, ground arith)

pub check_user-IsUser :
    (rt : Runtime) (ctx : PumpTrade) (index : ℕ) (w w' : World)
    → check_user rt ctx index w ≡ ok (tt, w')
    → (w' ≡ w) × IsUser rt ctx index
unfolding check_user
check_user-IsUser rt ctx index w w' h =
    let (a, w1, e, _) = >>=-eq-ok (lift (account_at ctx.remaining_accounts index)) _ h in
    let (found, _) = lift-value (account_at ctx.remaining_accounts index) e in
    let (same, trader, vault) = user_parts rt ctx index a w w' found h in
    (
      same,
      record {
        user = a;
        in_slot = account_at_inv ctx.remaining_accounts index a found;
        is_trader = trader;
        not_vault = vault;
      },
    )

pub check_program_slot_inv :
    (ctx : PumpTrade) (index : ℕ) (w w' : World)
    → check_program_slot ctx index w ≡ ok (tt, w')
    → w' ≡ w
unfolding check_program_slot
check_program_slot_inv ctx index w w' h = ground arith

pub check_ata_inv : (ctx : PumpTrade) (w w' : World) → check_ata ctx w ≡ ok (tt, w') → w' ≡ w
unfolding check_ata
check_ata_inv ctx w w' h = ground arith

pub check_prefunded_inv :
    (rt : Runtime) (ctx : PumpTrade) (index cost : ℕ) (u : IsUser rt ctx index) (w w' : World)
    → check_prefunded rt ctx index cost w ≡ ok (tt, w')
    → (w' ≡ w) × (cost + rt.minimum_balance pump_trader_space ≤ w.lamports (trader_pda rt ctx))
unfolding check_prefunded account_at require_pump_trader_prefunded
check_prefunded_inv rt ctx index cost u w w' h =
    (ground (arith, u.in_slot, h), ground (arith, u.in_slot, u.is_trader, h))

pub send_inv :
    (rt : Runtime) (ctx : PumpTrade) (built : Result Instruction) (w w' : World)
    → send rt ctx built w ≡ ok (tt, w')
    → (ix : Instruction) × (built ≡ ok ix)
      × (rt.invoke ix (trader_signer rt ctx.grok_account ∷ []) w ≡ ok w')
unfolding send
send_inv rt ctx built w w' h =
    let (ix, w1, e, r) = >>=-eq-ok (lift built) _ h in
    let (is_built, same) = lift-value built e in
    (
      ix,
      is_built,
      subst (λ v. rt.invoke ix (trader_signer rt ctx.grok_account ∷ []) v ≡ ok w') same
          (invoke_signed_inv rt ix (trader_signer rt ctx.grok_account ∷ []) w1 w' r),
    )

-- The instruction goes to pump.fun with this data, and hands on the remaining accounts.
pub record IsBuilt (ctx : PumpTrade) (user : ℕ) (minted : Option ℕ) (trader : Pubkey)
    (payload : List ℕ) (ix : Instruction) : Type 0 where
  pub metas : List AccountMeta
  pub built : ix ≡ pump_ix metas payload
  pub handed : Pairwise (Handed trader user minted) 0 ctx.remaining_accounts metas

metas_of :
    (ctx : PumpTrade) (trader : Pubkey) (payload : List ℕ) (ix : Instruction)
    → build_pump_ix ctx.remaining_accounts trader payload ≡ ok ix
    → (metas : List AccountMeta) × (build_metas (trade_meta trader) 0 ctx.remaining_accounts
        ≡ ok metas)
      × (ix ≡ pump_ix metas payload)
unfolding build_pump_ix
metas_of ctx trader payload ix h =
    elim (Result-cases (build_metas (trade_meta trader) 0 ctx.remaining_accounts)) [
      | inl (ms, e) ↦ (ms, e, ground (arith, e, h))
      | inr (x, e) ↦ ground (arith, e, h)
    ]

pub build_pump_ix-IsBuilt :
    (ctx : PumpTrade) (trader : Pubkey) (payload : List ℕ) (ix : Instruction)
    → build_pump_ix ctx.remaining_accounts trader payload ≡ ok ix
    → IsBuilt ctx pump_user_index none trader payload ix
build_pump_ix-IsBuilt ctx trader payload ix h =
    let (ms, e, same) = metas_of ctx trader payload ix h in
    record {
      metas = ms;
      built = same;
      handed =
          build_metas-Handed (Handed trader pump_user_index none) (trade_meta trader)
            (trade_meta-Handed trader) 0 ctx.remaining_accounts ms e;
    }

create_metas_of :
    (ctx : PumpTrade) (trader : Pubkey) (payload : List ℕ) (ix : Instruction)
    → build_pump_create_ix ctx.remaining_accounts trader payload ≡ ok ix
    → (metas : List AccountMeta) × (build_metas (create_meta trader) 0 ctx.remaining_accounts
        ≡ ok metas)
      × (ix ≡ pump_ix metas payload)
unfolding build_pump_create_ix
create_metas_of ctx trader payload ix h =
    elim (Result-cases (build_metas (create_meta trader) 0 ctx.remaining_accounts)) [
      | inl (ms, e) ↦ (ms, e, ground (arith, e, h))
      | inr (x, e) ↦ ground (arith, e, h)
    ]

pub build_pump_create_ix-IsBuilt :
    (ctx : PumpTrade) (trader : Pubkey) (payload : List ℕ) (ix : Instruction)
    → build_pump_create_ix ctx.remaining_accounts trader payload ≡ ok ix
    → IsBuilt ctx pump_create_user_index (some pump_create_mint_index) trader payload ix
build_pump_create_ix-IsBuilt ctx trader payload ix h =
    let (ms, e, same) = create_metas_of ctx trader payload ix h in
    record {
      metas = ms;
      built = same;
      handed =
          build_metas-Handed (Handed trader pump_create_user_index (some pump_create_mint_index))
            (create_meta trader) (create_meta-Handed trader) 0 ctx.remaining_accounts ms e;
    }
