-- ===== src/SponsorFee/Destruction.antt =====
-- The burn takes the whole balance, leaves none, and is anyone's to make.
use grokchain_programs.Base.{ℕ, ◌<◌, ◌≡◌, refl, true, [], ◌∷◌, arith, subst, sym, ap, ◌∙◌, ◌==◌}
use grokchain_programs.Constants.{grok_token_mint, token_2022_program_id}
use grokchain_programs.Errors.{burn_incomplete}
use grokchain_programs.Events.{Event}
use grokchain_programs.SponsorFee.Burn.{
  BurnCollectedFees, fee_vault_fields, grok_mint_decimals, fee_authority, fee_signer, burn_ix,
  check_burn, burnable, burn_collected_fees,
}
use grokchain_programs.Subscription.TokenAccount.{TokenFields, fields_of}
use grokchain_programs.Runtime.Address.{Pubkey}
use grokchain_programs.Runtime.World.{World, Runtime, AccountInfo, Result, ok}
use grokchain_programs.Runtime.Check
use grokchain_programs.Runtime.Monad.{
  invoke_signed, invoke_signed_inv, written, >>=-eq-ok, >>-eq-ok, lift-eq-ok, invoked_as,
}

-- A burn that is complete: Token-2022's `BurnChecked` of exactly the balance of the account's fee
-- vault, which is positive and of the program's token, with the signature of the vault's
-- authority; and the vault is empty after it.
pub record IsBurned (rt : Runtime) (ctx : BurnCollectedFees) (w w' : World) : Type 0 where
  pub signed : ctx.burner.is_signer ≡ true
  pub vault_program : w.owner ctx.fee_vault ≡ token_2022_program_id
  pub vault_mint : (fields_of (w.bytes ctx.fee_vault)).mint ≡ grok_token_mint
  pub vault_owner :
      (fields_of (w.bytes ctx.fee_vault)).owner ≡ (fee_authority rt ctx.grok_account).0
  pub positive : 0 < (fields_of (w.bytes ctx.fee_vault)).amount
  pub decimals : ℕ
  pub burned : World
  pub invoked :
      rt.invoke
        (burn_ix ctx.fee_vault
          (fee_authority rt ctx.grok_account).0
          (fields_of (w.bytes ctx.fee_vault)).amount
          decimals)
        (fee_signer rt ctx.grok_account ∷ [])
        w
      ≡ ok burned
  pub emptied : (fields_of (burned.bytes ctx.fee_vault)).amount ≡ 0
  pub logged : w' ≡ record burned {
    log =
        Event.sponsor_fees_burned ctx.grok_account
          (fields_of (w.bytes ctx.fee_vault)).amount
          ctx.burner.key
        ∷ burned.log;
  }

pub check_burn_inv :
    (rt : Runtime) (ctx : BurnCollectedFees) (w w' : World)
    → check_burn rt ctx w ≡ ok (tt, w')
    → (ctx.burner.is_signer ≡ true) × (w' ≡ w)
unfolding check_burn
check_burn_inv rt ctx w w' h = ground arith

burnable_by :
    (rt : Runtime) (ctx : BurnCollectedFees) (other : AccountInfo) (w : World)
    {r : Result (ℕ × World)}
    → burnable rt ctx w ≡ r
    → burnable rt (record ctx { burner = other }) w ≡ r
unfolding burnable
burnable_by rt ctx other w h = h

fee_vault_fields_inv :
    (info : Pubkey) (f : TokenFields) (w w' : World)
    → fee_vault_fields info w ≡ ok (f, w')
    → (w' ≡ w) × (f ≡ fields_of (w.bytes info)) × (w.owner info ≡ token_2022_program_id)
unfolding fee_vault_fields
fee_vault_fields_inv info f w w' h = ground arith

checked_vault :
    (rt : Runtime) (ctx : BurnCollectedFees) (amount : ℕ) (w w' : World)
    → burnable rt ctx w ≡ ok (amount, w')
    → (w' ≡ w)
      × (amount ≡ (fields_of (w.bytes ctx.fee_vault)).amount)
      × (w.owner ctx.fee_vault ≡ token_2022_program_id)
      × ((fields_of (w.bytes ctx.fee_vault)).mint ≡ grok_token_mint)
      × ((fields_of (w.bytes ctx.fee_vault)).owner ≡ (fee_authority rt ctx.grok_account).0)
      × (0 < (fields_of (w.bytes ctx.fee_vault)).amount)
unfolding burnable fee_vault_fields
checked_vault rt ctx amount w w' h =
    (ground arith, ground arith, ground arith, ground arith, ground arith, ground arith)

grok_mint_decimals_inv :
    (info : Pubkey) (d : ℕ) (w w' : World) → grok_mint_decimals info w ≡ ok (d, w') → w' ≡ w
unfolding grok_mint_decimals
grok_mint_decimals_inv info d w w' h = ground arith

-- Whenever `burn_collected_fees` succeeds, the burn is complete in the sense of `IsBurned`.
pub burn_collected_fees-IsBurned :
    (rt : Runtime) (ctx : BurnCollectedFees) (w w' : World)
    → burn_collected_fees rt ctx w ≡ ok (tt, w')
    → IsBurned rt ctx w w'
unfolding burn_collected_fees
burn_collected_fees-IsBurned rt ctx w w' h =
    let (w1, e1, h1) = >>-eq-ok (check_burn rt ctx) _ h in
    let (signed, r1) = check_burn_inv rt ctx w w1 e1 in
    let (amount, w2, e2, h2) = >>=-eq-ok (burnable rt ctx) _ h1 in
    let (r2, is_amount, program, mint, owner, positive) =
      checked_vault rt ctx amount w w2 (ap (burnable rt ctx) (sym r1) ∙ e2) in
    let (d, w3, e3, h3) = >>=-eq-ok (grok_mint_decimals ctx.mint) _ h2 in
    let r3 = grok_mint_decimals_inv ctx.mint d w2 w3 e3 in
    let (w4, e4, h4) = >>-eq-ok (invoke_signed rt _ _) _ h3 in
    let burns = invoke_signed_inv rt _ _ w3 w4 e4 in
    let (after, w5, e5, h5) = >>=-eq-ok (fee_vault_fields ctx.fee_vault) _ h4 in
    let (r5, is_after, _) = fee_vault_fields_inv ctx.fee_vault after w4 w5 e5 in
    let (zero_left, h6) = lift-eq-ok (Check.require (after.amount == 0) burn_incomplete) _ h5 in
    record {
      signed = signed;
      vault_program = program;
      vault_mint = mint;
      vault_owner = owner;
      positive = positive;
      decimals = d;
      burned = w4;
      invoked =
          invoked_as rt (fee_signer rt ctx.grok_account ∷ []) w3 w w4 w4 burns
            (ap (λ n. burn_ix ctx.fee_vault (fee_authority rt ctx.grok_account).0 n d) is_amount)
            (r3 ∙ r2) refl;
      emptied = subst (λ f. f.amount ≡ 0) is_after (==→eq after.amount zero_left);
      logged =
          written (Event.sponsor_fees_burned ctx.grok_account amount ctx.burner.key) w5 w' h6
          ∙ recorded r5 is_amount;
    }
  where
    ==→eq : (n : ℕ) → Check.require (n == 0) burn_incomplete ≡ ok tt → n ≡ 0
    ==→eq n q = ground (arith, q)

    recorded :
        {v v' : World} {n n' : ℕ}
        → v ≡ v'
        → n ≡ n'
        → record v { log = Event.sponsor_fees_burned ctx.grok_account n ctx.burner.key ∷ v.log }
          ≡ record v' {
            log = Event.sponsor_fees_burned ctx.grok_account n' ctx.burner.key ∷ v'.log;
          }
    recorded p q = rw (p, q) refl
