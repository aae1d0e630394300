-- ===== src/SponsorFee/Config.antt =====
-- The fee's configuration (`init_fee` and `set_fee` of sponsor_fee.rs).
use grokchain_programs.Base.{ℕ, [], ◌∷◌, leb, ◌==◌}
use grokchain_programs.Errors.{sponsor_fee_too_high, unauthorized_root}
use grokchain_programs.Constants.{intents_id, seed_sponsor_fee}
use grokchain_programs.Common.Mouth.{check_seeds, seed_grok_account}
use grokchain_programs.Common.Root.{Root, check_derived}
use grokchain_programs.Events.{Event}
use grokchain_programs.State.{SponsorFeeConfig}
use grokchain_programs.Runtime.Address.{Pubkey, text, address}
use grokchain_programs.Runtime.World.{Runtime, Account, AnchorError, Result}
use grokchain_programs.Runtime.Check
use grokchain_programs.Runtime.Monad.{Action, pure, ◌>>◌, lift, require, emit}

-- `MAX_FEE_PER_INTENT`.
abbrev pub max_fee_per_intent : ℕ
max_fee_per_intent = 10_000_000

-- `InitSponsorFee`.
pub record InitSponsorFee : Type 0 where
  pub signed : Root
  pub open signed use *
  pub sponsor_fee : Pubkey
  pub bump : ℕ

-- `SetSponsorFee`.
pub record SetSponsorFee : Type 0 where
  pub signed : Root
  pub open signed use *
  pub sponsor_fee : Account SponsorFeeConfig

-- The root's checks of these two: the account's seeds are the signer's, with a bare `bump`.
unfoldable pub check_fee_root : Runtime → Root → Result (Unit {0})
check_fee_root rt r = Check.◌>>◌ (Check.check_signer r.root) (
    Check.◌>>◌
      (Check.constrain
        (r.grok_account.key
          == (rt.find_program_address (text seed_grok_account ∷ address r.root.key ∷ [])
              rt.core_id).0)
        AnchorError.constraint_seeds)
      (Check.require (r.grok_account.value.root == r.root.key) unauthorized_root))

-- `init_sponsor_fee`: Anchor's checks, then `init_fee`, which returns the account as it is written.
unfoldable pub init_sponsor_fee : Runtime → InitSponsorFee → Action SponsorFeeConfig
init_sponsor_fee rt ctx = do
  lift (check_fee_root rt ctx.signed)
  lift (
      check_derived rt ctx.sponsor_fee ctx.bump
        (text seed_sponsor_fee ∷ address ctx.grok_account.key ∷ []))
  emit (Event.sponsor_fee_set ctx.grok_account.key ctx.root.key 0)
  pure (record {
    grok_account = ctx.grok_account.key;
    root = ctx.root.key;
    fee_per_intent = 0;
    bump = ctx.bump;
  })

-- `set_sponsor_fee`: Anchor's checks, then `set_fee`.
unfoldable pub set_sponsor_fee : Runtime → SetSponsorFee → ℕ → Action SponsorFeeConfig
set_sponsor_fee rt ctx fee_per_intent = do
  let cfg = ctx.sponsor_fee.value
  lift (check_fee_root rt ctx.signed)
  lift (
      check_seeds rt ctx.sponsor_fee.key (text seed_sponsor_fee ∷ address ctx.grok_account.key ∷ [])
        cfg.bump intents_id)
  require (cfg.root == ctx.root.key) unauthorized_root
  require (leb fee_per_intent max_fee_per_intent) sponsor_fee_too_high
  emit (Event.sponsor_fee_set cfg.grok_account cfg.root fee_per_intent)
  pure (record cfg { fee_per_intent = fee_per_intent })
