-- ===== src/Subscription/Removal.antt =====
-- A merchant that the root has removed is not paid by its subscription any more.
use grokchain_programs.Base.{◌≡◌, false, contains, List, arith}
use grokchain_programs.Merchants.{UpdateMerchantRegistry, remove, retain_others}
use grokchain_programs.Merchants.Laws.{remove-made, contains-retain}
use grokchain_programs.State.{MerchantRegistry, Subscription, PaySubscriptionArgs}
use grokchain_programs.Subscription.Pay.{PaySubscription, pay}
use grokchain_programs.Subscription.Parts.{pay-Parts}
use grokchain_programs.Runtime.Address.{Pubkey}
use grokchain_programs.Runtime.World.{World, Runtime, ok}

contains-retain_self : (m : Pubkey) (ms : List Pubkey) → contains m (retain_others m ms) ≡ false
contains-retain_self m ms = ground (arith, contains-retain m m ms)

removed-contains :
    (rt : Runtime) (ctx : UpdateMerchantRegistry) (merchant : Pubkey) (w w' : World)
    (reg : MerchantRegistry)
    → remove rt ctx merchant w ≡ ok (reg, w')
    → contains merchant reg.merchants ≡ false
removed-contains rt ctx merchant w w' reg h =
    let (_, _, made) = remove-made rt ctx merchant w w' reg h in
    rw made (contains-retain_self merchant ctx.merchant_registry.value.merchants)

-- Once `remove` has taken a merchant off a registry, no payment of a subscription to this merchant
-- succeeds with the registry as `remove` has written it, whatever the period, the accounts and the
-- world.
pub remove-pay :
    (rt rt' : Runtime) (admin : UpdateMerchantRegistry) (merchant : Pubkey) (reg : MerchantRegistry)
    (ctx : PaySubscription) (args : PaySubscriptionArgs) (v v' w w' : World) (sub : Subscription)
    → remove rt admin merchant v ≡ ok (reg, v')
    → ctx.merchant_registry.value ≡ reg
    → ctx.subscription.value.merchant ≡ merchant
    → ¬ (pay rt' ctx args w ≡ ok (sub, w'))
remove-pay rt rt' admin merchant reg ctx args v v' w w' sub removed read payee h =
    let listed = (pay-Parts rt' ctx args w w' sub h).transfer.approved in
    let gone = removed-contains rt admin merchant v v' reg removed in cc (listed, gone, read, payee)
