-- ===== src/Merchants.antt =====
-- The root's list of payees (programs/grok_chain_intents/src/instructions/merchants.rs).
pub mod Laws
use grokchain_programs.Base.{
  ℕ, Bool, true, false, not, List, [], ◌∷◌, ◌++◌, length, contains, ltb, ◌==◌, if◌then◌else◌,
}
use grokchain_programs.Errors.{
  merchant_registry_full, merchant_already_listed, merchant_not_listed, grok_account_mismatch,
  unauthorized_root,
}
use grokchain_programs.Constants.{intents_id, seed_merchants, max_merchants}
use grokchain_programs.Common.Mouth.{check_seeds}
use grokchain_programs.Common.Root.{Root, check_root, check_derived}
use grokchain_programs.Events.{Event}
use grokchain_programs.State.{MerchantRegistry}
use grokchain_programs.Runtime.Address.{Pubkey, text, address}
use grokchain_programs.Runtime.World.{Runtime, Account, AccountInfo, Result}
use grokchain_programs.Runtime.Check
use grokchain_programs.Runtime.Monad.{Action, pure, ◌>>=◌, ◌>>◌, lift, require, emit}

-- `InitMerchantRegistry`: the registry's address and bump, which the instruction creates.
pub record InitMerchantRegistry : Type 0 where
  pub signed : Root
  pub open signed use *
  pub merchant_registry : Pubkey
  pub bump : ℕ

-- `UpdateMerchantRegistry`.
pub record UpdateMerchantRegistry : Type 0 where
  pub signed : Root
  pub open signed use *
  pub merchant_registry : Account MerchantRegistry

-- `init`: the registry as it is created.
unfoldable pub init : Runtime → InitMerchantRegistry → Pubkey → Action MerchantRegistry
unfolding check_root check_derived
init rt ctx mint = do
  lift (check_root rt ctx.signed)
  lift (
      check_derived rt ctx.merchant_registry ctx.bump
        (text seed_merchants ∷ address ctx.grok_account.key ∷ []))
  emit (
      Event.merchant_registry_initialized ctx.merchant_registry ctx.grok_account.key ctx.root.key
        mint)
  pure (record {
    grok_account = ctx.grok_account.key;
    root = ctx.root.key;
    mint = mint;
    bump = ctx.bump;
    merchants = [];
  })

unfoldable pub check_update : Runtime → UpdateMerchantRegistry → Action (Unit {0})
unfolding check_root
check_update rt ctx = do
  lift (check_root rt ctx.signed)
  lift (
      check_seeds rt ctx.merchant_registry.key
        (text seed_merchants ∷ address ctx.grok_account.key ∷ []) ctx.merchant_registry.value.bump
        intents_id)
  require (ctx.merchant_registry.value.grok_account == ctx.grok_account.key) grok_account_mismatch
  require (ctx.merchant_registry.value.root == ctx.root.key) unauthorized_root

-- `add`: the registry with the merchant at its end.
unfoldable pub add : Runtime → UpdateMerchantRegistry → Pubkey → Action MerchantRegistry
unfolding check_update
add rt ctx merchant = do
  check_update rt ctx
  let reg = ctx.merchant_registry.value
  require (ltb (length reg.merchants) max_merchants) merchant_registry_full
  require (not (contains merchant reg.merchants)) merchant_already_listed
  let merchants = reg.merchants ++ (merchant ∷ [])
  emit (
      Event.merchant_added ctx.merchant_registry.key reg.grok_account reg.root merchant
        (length merchants))
  pure (record reg { merchants = merchants })

-- `reg.merchants.retain(|m| *m != merchant)`
abbrev pub retain_others : Pubkey → List Pubkey → List Pubkey
retain_others merchant [] = []
retain_others merchant (m ∷ rest) =
    if m == merchant then retain_others merchant rest else m ∷ retain_others merchant rest

-- `remove`: the registry without the merchant.
unfoldable pub remove : Runtime → UpdateMerchantRegistry → Pubkey → Action MerchantRegistry
unfolding check_update
remove rt ctx merchant = do
  check_update rt ctx
  let reg = ctx.merchant_registry.value
  let merchants = retain_others merchant reg.merchants
  require (ltb (length merchants) (length reg.merchants)) merchant_not_listed
  emit (
      Event.merchant_removed ctx.merchant_registry.key reg.grok_account reg.root merchant
        (length merchants))
  pure (record reg { merchants = merchants })
