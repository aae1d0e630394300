-- ===== src/Token/Steps.antt =====
-- What the steps of a swap before the route have checked and done.
use grokchain_programs.Base.{
  ℕ, ◌+◌, ◌≤◌, ◌≡◌, true, false, Bool, List, [], ◌∷◌, arith, ◌∙◌, ap, sym, subst, inl, inr,
  Bool-cases, ◌==◌,
}
use grokchain_programs.Common.{require_pump_trader_ready}
use grokchain_programs.Common.Checks.{reject_protected_remaining}
use grokchain_programs.Constants.{pump_trader_space}
use grokchain_programs.Intents.Call.{paymaster_key}
use grokchain_programs.Policy.{require_pump_trader_prefunded}
use grokchain_programs.State.{TokenBuyArgs}
use grokchain_programs.Subscription.Pay.{derived_trader, trader_signer}
use grokchain_programs.Runtime.Check.{Result-cases}
use grokchain_programs.Token.Accounts.{
  find_trader_in_remaining, is_trader_token_account, find_trader_token_account,
  token_account_amount, amount_at, wrap_sol_to_wsol, sync_ix,
}
use grokchain_programs.Token.Route.{route_ix, build_jupiter_ix}
use grokchain_programs.Token.Trade.{TokenTrade, check_trader, pick_accounts, wrap, require_nonempty}
use grokchain_programs.Runtime.Address.{Pubkey}
use grokchain_programs.Runtime.World.{World, Runtime, AccountInfo, Instruction, ok}
use grokchain_programs.Runtime.Monad.{
  when, pure, ◌>>◌, invoke_signed, invoke_signed_inv, >>=-eq-ok, >>-eq-ok,
}

pub find_trader_token_account_inv :
    (remaining : List AccountInfo) (trader mint : Pubkey) (is_source : Bool) (acc : AccountInfo)
    (w w' : World)
    → find_trader_token_account remaining trader mint is_source w ≡ ok (acc, w')
    → (w' ≡ w) × (is_trader_token_account w acc.key trader mint ≡ true)
unfolding find_trader_token_account
find_trader_token_account_inv [] trader mint is_source acc w w' h = ground arith
find_trader_token_account_inv (a ∷ rest) trader mint is_source acc w w' h =
    ground (arith, find_trader_token_account_inv rest trader mint is_source acc w w')

find_trader-key :
    (accounts : List AccountInfo) (trader : Pubkey) (acc : AccountInfo)
    → find_trader_in_remaining accounts trader ≡ ok acc
    → acc.key ≡ trader
unfolding find_trader_in_remaining
find_trader-key [] trader acc h = cc
find_trader-key (a ∷ rest) trader acc h = elim (Bool-cases (a.key == trader)) [
  | inl e ↦ ground (arith, e, h)
  | inr e ↦ find_trader-key rest trader acc (ground (arith, e, h))
]

pub check_trader-key :
    (rt : Runtime) (ctx : TokenTrade) (acc : AccountInfo) (w w' : World)
    → check_trader rt ctx w ≡ ok (acc, w')
    → acc.key ≡ (derived_trader rt ctx.grok_account).0
unfolding check_trader
check_trader-key rt ctx acc w w' h =
    let trader = (derived_trader rt ctx.grok_account).0 in
    elim (Result-cases (find_trader_in_remaining ctx.remaining_accounts trader)) [
      | inl (a, e) ↦
          find_trader-key ctx.remaining_accounts trader acc (e ∙ ap ok (ground (arith, e, h)))
      | inr (x, e) ↦ ground (arith, e, h)
    ]

pub check_trader_inv :
    (rt : Runtime) (ctx : TokenTrade) (acc : AccountInfo) (w w' : World)
    → check_trader rt ctx w ≡ ok (acc, w')
    → (w' ≡ w)
      × (reject_protected_remaining ctx.remaining_accounts ctx.spend_vault.key
            (paymaster_key ctx.paymaster)
          ≡ ok tt)
unfolding check_trader require_pump_trader_ready
check_trader_inv rt ctx acc w w' h = ground arith

picked :
    (s d : AccountInfo) (r : AccountInfo × AccountInfo) (w w' : World)
    → (require_nonempty s.key >> (require_nonempty d.key >> pure (s, d))) w ≡ ok (r, w')
    → (w' ≡ w) × (r ≡ (s, d))
picked s d r w w' h = ground arith

-- What `pick_accounts` has found: two accounts of the trader's, of the two mints.
abbrev pub Picked : Runtime → TokenTrade → TokenBuyArgs → World → AccountInfo × AccountInfo → Type 0
Picked rt ctx args w (source, dest) =
    (is_trader_token_account w source.key (derived_trader rt ctx.grok_account).0 args.input_mint
      ≡ true)
    × (is_trader_token_account w dest.key (derived_trader rt ctx.grok_account).0 args.output_mint
        ≡ true)

pub pick_accounts-Picked :
    (rt : Runtime) (ctx : TokenTrade) (args : TokenBuyArgs) (r : AccountInfo × AccountInfo)
    (w w' : World)
    → pick_accounts rt ctx args w ≡ ok (r, w')
    → (w' ≡ w) × Picked rt ctx args w r
unfolding pick_accounts
pick_accounts-Picked rt ctx args r w w' h =
    let (s, w1, e1, h1) = >>=-eq-ok (find_trader_token_account _ _ _ _) _ h in
    let (r1, is_s) = find_trader_token_account_inv _ _ _ _ s w w1 e1 in
    let (d, w2, e2, h2) = >>=-eq-ok (find_trader_token_account _ _ _ _) _ h1 in
    let (r2, is_d) = find_trader_token_account_inv _ _ _ _ d w1 w2 e2 in
    let (r3, eq) = picked s d r w2 w' h2 in
    (
      r3 ∙ r2 ∙ r1,
      subst (Picked rt ctx args w) (sym eq) (
        is_s,
        subst
            (λ v.
              is_trader_token_account v d.key (derived_trader rt ctx.grok_account).0
                args.output_mint
              ≡ true)
            r1 is_d,
      ),
    )

-- The lamports have been wrapped, when that was asked: moved by a transfer that the trader signs
-- and that leaves its rent, then made known to the token program.
pub record IsWrapped (rt : Runtime) (ctx : TokenTrade) (args : TokenBuyArgs)
    (trader source : Pubkey) (w w' : World) : Type 0 where
  pub covered : args.in_amount + rt.minimum_balance pump_trader_space ≤ w.lamports trader
  pub moved : World
  pub transferred :
      rt.invoke
        (rt.system_transfer trader source args.in_amount)
        (trader_signer rt ctx.grok_account ∷ [])
        w
      ≡ ok moved
  pub synced : rt.invoke (sync_ix source) [] moved ≡ ok w'

abbrev pub Prepares :
    Runtime → TokenTrade → TokenBuyArgs → Bool → Pubkey → Pubkey → World → World → Type 0
Prepares rt ctx args true trader source w w' = IsWrapped rt ctx args trader source w w'
Prepares rt ctx args false trader source w w' = w' ≡ w

wrap_first :
    (rt : Runtime) (ctx : TokenTrade) (args : TokenBuyArgs) (trader source : Pubkey) (w w' : World)
    → wrap rt ctx args trader source w ≡ ok (tt, w')
    → (args.in_amount + rt.minimum_balance pump_trader_space ≤ w.lamports trader)
      × ((invoke_signed rt
                (rt.system_transfer trader source args.in_amount)
                (trader_signer rt ctx.grok_account ∷ [])
              >> invoke_signed rt (sync_ix source) [])
            w
          ≡ ok (tt, w'))
unfolding wrap wrap_sol_to_wsol require_pump_trader_prefunded
wrap_first rt ctx args trader source w w' h = (ground arith, ground arith)

pub wrap-Prepares :
    (rt : Runtime) (ctx : TokenTrade) (args : TokenBuyArgs) (b : Bool) (trader source : Pubkey)
    (w w' : World)
    → when b (wrap rt ctx args trader source) w ≡ ok (tt, w')
    → Prepares rt ctx args b trader source w w'
wrap-Prepares rt ctx args true trader source w w' h =
    let (covered, both) = wrap_first rt ctx args trader source w w' h in
    let (moved, e1, e2) = >>-eq-ok (invoke_signed rt _ _) _ both in
    record {
      covered = covered;
      moved = moved;
      transferred = invoke_signed_inv rt _ _ w moved e1;
      synced = invoke_signed_inv rt _ _ moved w' e2;
    }
wrap-Prepares rt ctx args false trader source w w' h = ground arith

pub token_account_amount_inv :
    (info : Pubkey) (n : ℕ) (w w' : World)
    → token_account_amount info w ≡ ok (n, w')
    → (n ≡ amount_at (w.bytes info)) × (w' ≡ w)
unfolding token_account_amount
token_account_amount_inv info n w w' h = ground arith

pub build_jupiter_ix_inv :
    (remaining : List AccountInfo) (trader : Pubkey) (payload : List ℕ) (ix : Instruction)
    → build_jupiter_ix remaining trader payload ≡ ok ix
    → ix ≡ route_ix remaining trader payload
unfolding build_jupiter_ix
build_jupiter_ix_inv remaining trader payload ix h = ground arith
