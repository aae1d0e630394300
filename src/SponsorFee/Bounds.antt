-- ===== src/SponsorFee/Bounds.antt =====
-- The fee stays below its ceiling and is the root's to set.
use grokchain_programs.Base.{ℕ, ◌≤◌, ◌≡◌, true, arith, subst, sym}
use grokchain_programs.Common.Root.{IsRoot}
use grokchain_programs.SponsorFee.Config.{
  InitSponsorFee, SetSponsorFee, max_fee_per_intent, check_fee_root, init_sponsor_fee,
  set_sponsor_fee,
}
use grokchain_programs.State.{SponsorFeeConfig}
use grokchain_programs.Runtime.Address.{Pubkey}
use grokchain_programs.Runtime.World.{World, Runtime, ok}

-- Any number of settings of one configuration, in any worlds.
pub data Settings (rt : Runtime) : SponsorFeeConfig → SponsorFeeConfig → Type 0 where
  unset : {c : SponsorFeeConfig} → Settings rt c c
  setting :
      {c c' c'' : SponsorFeeConfig} (ctx : SetSponsorFee) (fee : ℕ) (w w' : World)
      → ctx.sponsor_fee.value ≡ c
      → set_sponsor_fee rt ctx fee w ≡ ok (c', w')
      → Settings rt c' c''
      → Settings rt c c''

-- The configuration is this root's for this account, and its fee is within the ceiling.
abbrev pub IsFee : Pubkey → Pubkey → SponsorFeeConfig → Type 0
IsFee grok root c =
    (c.grok_account ≡ grok) × (c.root ≡ root) × (c.fee_per_intent ≤ max_fee_per_intent)

init-IsFee :
    (rt : Runtime) (ctx : InitSponsorFee) (c : SponsorFeeConfig) (w w' : World)
    → init_sponsor_fee rt ctx w ≡ ok (c, w')
    → IsRoot ctx.signed × (c.fee_per_intent ≡ 0) × IsFee ctx.grok_account.key ctx.root.key c
unfolding init_sponsor_fee check_fee_root
init-IsFee rt ctx c w w' h = ground arith

set-IsFee :
    (rt : Runtime) (ctx : SetSponsorFee) (fee : ℕ) (c : SponsorFeeConfig) (w w' : World)
    (grok root : Pubkey)
    → IsFee grok root ctx.sponsor_fee.value
    → set_sponsor_fee rt ctx fee w ≡ ok (c, w')
    → IsFee grok root c
      × (ctx.root.is_signer ≡ true)
      × (ctx.root.key ≡ root)
      × (c.fee_per_intent ≡ fee)
unfolding set_sponsor_fee check_fee_root
set-IsFee rt ctx fee c w w' grok root i h = ground arith

Settings-IsFee :
    (rt : Runtime) (grok root : Pubkey) {c c' : SponsorFeeConfig}
    → Settings rt c c'
    → IsFee grok root c
    → IsFee grok root c'
Settings-IsFee rt grok root unset i = i
Settings-IsFee rt grok root {c} (setting {c' = c'} ctx fee w w' e h rest) i =
    Settings-IsFee rt grok root rest
      (set-IsFee rt ctx fee c' w w' grok root (subst (IsFee grok root) (sym e) i) h).0

-- After `init_sponsor_fee` and any number of settings by `set_sponsor_fee`, in any worlds, the fee
-- is at most the ceiling, and the configuration is still that of the account and of the root who
-- signed its creation, under whom it began with no fee.
pub Settings-bounded :
    (rt : Runtime) (ctx : InitSponsorFee) (c c' : SponsorFeeConfig) (w w' : World)
    → init_sponsor_fee rt ctx w ≡ ok (c, w')
    → Settings rt c c'
    → IsRoot ctx.signed × (c.fee_per_intent ≡ 0) × IsFee ctx.grok_account.key ctx.root.key c'
Settings-bounded rt ctx c c' w w' h run =
    let (root, free, i) = init-IsFee rt ctx c w w' h in
    (root, free, Settings-IsFee rt ctx.grok_account.key ctx.root.key run i)
