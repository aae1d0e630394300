-- ===== src/Intents/Settlement.antt =====
-- What `pay` and `swap` do to the grant and to the balances when they succeed, and that they do
-- succeed.
use grokchain_programs.Base.{
  refl, ℕ, ◌+◌, ◌≤◌, ◌<◌, ◌≡◌, ◌≢◌, true, List, ◌∷◌, [], arith, contains, u64_size,
}
use grokchain_programs.CoreCpi.{check_grant_ix, check_grant}
use grokchain_programs.CoreCpi.Metering.{MetersGrants}
use grokchain_programs.Common.{debit_spend_vault, reimburse_sponsor}
use grokchain_programs.Common.Checks.{precheck_sponsor}
use grokchain_programs.Common.Mouth.{Mouth, IsAuthorised, check_mouth}
use grokchain_programs.Constants.{max_sponsor_lamports}
use grokchain_programs.Custody.{try_debit_program_owned}
use grokchain_programs.Custody.Laws.{debited}
use grokchain_programs.Custody.Totals.{Distinct, sum_of}
use grokchain_programs.Events.{Event}
use grokchain_programs.Intents.Pay.{Pay, pay}
use grokchain_programs.Intents.Swap.{Swap, swap}
use grokchain_programs.Intents.Effects.{Spends, pay-Spends, swap-Spends}
use grokchain_programs.Intents.Balances.{
  ForSponsor, Spends-metered, Spends-vault, Spends-others, Spends-total,
}
use grokchain_programs.Policy.{require_pay_amount, require_sponsor_accounts, require_sponsor_cap}
use grokchain_programs.State.{PayArgs, SwapArgs, spend_vault_space}
use grokchain_programs.Runtime.Address.{Pubkey}
use grokchain_programs.Runtime.World.{World, Runtime, ok}

-- A spend of `amount` from the vault that has been settled: the grant's counter has grown by the
-- amount and is within its cap, the vault has exactly the amount less and keeps its rent, and an
-- account `k` apart keeps its balance.
abbrev pub IsSettled : Runtime → Mouth → ℕ → Pubkey → World → World → Type 0
IsSettled rt m amount k w w' =
    ((w'.grants m.grant.key).spent_lamports ≡ (w.grants m.grant.key).spent_lamports + amount)
    × ((w'.grants m.grant.key).spent_lamports ≤ (w'.grants m.grant.key).spend_cap_lamports)
    × (w'.lamports m.spend_vault.key + amount ≡ w.lamports m.spend_vault.key)
    × (rt.minimum_balance spend_vault_space ≤ w'.lamports m.spend_vault.key)
    × (w'.lamports k ≡ w.lamports k)

-- The accounts of a spend are apart: the vault from the destination, and both the vault and `k`
-- from the sponsor's accounts.
abbrev pub IsApart : Mouth → Pubkey → Pubkey → Type 0
IsApart m dest k =
    (m.spend_vault.key ≢ dest)
    × (k ≢ m.spend_vault.key)
    × (k ≢ dest)
    × ForSponsor m
        (λ pm fp. (m.spend_vault.key ≢ pm) × (m.spend_vault.key ≢ fp) × (k ≢ pm) × (k ≢ fp))

Spends-IsSettled :
    (rt : Runtime) (m : Mouth) (dest k : Pubkey) (amount sponsor : ℕ) (event : Event) (w w' : World)
    → IsApart m dest k
    → Spends rt m dest amount sponsor event w w'
    → IsSettled rt m amount k w w'
Spends-IsSettled rt m dest k amount sponsor event w w' (v, kv, kd, apart) s =
    let (spent, capped) = Spends-metered rt m dest amount sponsor event w w' s in
    let (paid, floor) =
      Spends-vault rt m dest amount sponsor event w w' s v
        (λ pm fp p f. let (a, b, _, _) = apart pm fp p f in (a, b)) in
    let same =
      Spends-others rt m dest amount sponsor event w w' s k kv kd
        (λ pm fp p f. let (_, _, a, b) = apart pm fp p f in (a, b)) in
    (spent, capped, paid, floor, same)

-- Whenever `pay` succeeds, on a CORE that keeps its contract, for an amount that is a u64 and with
-- accounts that are apart: the grant's agent signed, the sponsor's part is within its limit, and
-- the amount, which is positive, is settled in the sense of `IsSettled`: the grant has metered it
-- within its cap, the vault has exactly that much less and keeps its rent, and an account apart
-- keeps its balance.
pub pay-IsSettled :
    (rt : Runtime) (ctx : Pay) (args : PayArgs) (k : Pubkey) (w w' : World)
    → MetersGrants rt
    → args.amount_lamports < u64_size
    → IsApart ctx.mouth ctx.recipient k
    → pay rt ctx args w ≡ ok (tt, w')
    → IsAuthorised ctx.mouth
      × (0 < args.amount_lamports)
      × (args.sponsor_lamports ≤ max_sponsor_lamports)
      × IsSettled rt ctx.mouth args.amount_lamports k w w'
pay-IsSettled rt ctx args k w w' core small apart h =
    let (a, positive, sponsor, s) = pay-Spends rt ctx args w w' core small h in
    (a, positive, sponsor, Spends-IsSettled rt ctx.mouth _ k _ _ _ w w' apart s)

-- Whenever `swap` succeeds, on a CORE that keeps its contract, for an amount that is a u64 and with
-- accounts that are apart: the grant's agent signed, the sponsor's part is within its limit, the
-- amount is positive and no less than the stated minimum, and it is settled in the sense of
-- `IsSettled`.
pub swap-IsSettled :
    (rt : Runtime) (ctx : Swap) (args : SwapArgs) (k : Pubkey) (w w' : World)
    → MetersGrants rt
    → args.amount_in_lamports < u64_size
    → IsApart ctx.mouth ctx.out_destination k
    → swap rt ctx args w ≡ ok (tt, w')
    → IsAuthorised ctx.mouth
      × ((0 < args.amount_in_lamports) × (args.min_out_lamports ≤ args.amount_in_lamports))
      × (args.sponsor_lamports ≤ max_sponsor_lamports)
      × IsSettled rt ctx.mouth args.amount_in_lamports k w w'
swap-IsSettled rt ctx args k w w' core small apart h =
    let (a, amounts, sponsor, s) = swap-Spends rt ctx args w w' core small h in
    (a, amounts, sponsor, Spends-IsSettled rt ctx.mouth _ k _ _ _ w w' apart s)

-- Whenever `pay` succeeds, on a CORE that keeps its contract and for an amount that is a u64, no
-- lamport is made or lost: the sum over any distinct accounts that include the vault, the recipient
-- and the sponsor's two is as before, when the vault is not the recipient and the paymaster not the
-- fee payer.
pub pay_conserves :
    (rt : Runtime) (ctx : Pay) (args : PayArgs) (ks : List Pubkey) (w w' : World)
    → MetersGrants rt
    → args.amount_lamports < u64_size
    → Distinct ks
    → contains ctx.mouth.spend_vault.key ks ≡ true
    → contains ctx.recipient ks ≡ true
    → ctx.mouth.spend_vault.key ≢ ctx.recipient
    → ForSponsor ctx.mouth (λ pm fp. (contains pm ks ≡ true) × (contains fp ks ≡ true) × (pm ≢ fp))
    → pay rt ctx args w ≡ ok (tt, w')
    → sum_of ks w'.lamports ≡ sum_of ks w.lamports
pay_conserves rt ctx args ks w w' core small d v r ne apart h =
    let (_, _, _, s) = pay-Spends rt ctx args w w' core small h in
    Spends-total rt ctx.mouth ctx.recipient _ _ _ w w' s ks d v r ne apart

-- `pay` completes: on accounts that pass Anchor's checks, with CORE's program named, a positive
-- amount, no sponsor's part, a recipient that is not the vault, CORE's consent, a vault that covers
-- the amount above its rent and a recipient whose balance does not overflow, it succeeds: on the
-- world that CORE leaves, the vault has exactly the amount less, the recipient exactly the amount
-- more, and all else is as it was but for the event.
pub pay_completes :
    (rt : Runtime) (ctx : Pay) (args : PayArgs) (w granted : World)
    → check_mouth rt ctx.mouth ≡ ok tt
    → ctx.mouth.grok_chain_core_program ≡ rt.core_id
    → 0 < args.amount_lamports
    → args.sponsor_lamports ≡ 0
    → ctx.mouth.spend_vault.key ≢ ctx.recipient
    → rt.invoke
        (check_grant_ix rt ctx.mouth.grok_account.key ctx.mouth.grant.key ctx.mouth.agent.key
          ctx.mouth.intents_program args.amount_lamports)
        []
        w
      ≡ ok granted
    → args.amount_lamports + rt.minimum_balance spend_vault_space
      ≤ granted.lamports ctx.mouth.spend_vault.key
    → granted.lamports ctx.recipient + args.amount_lamports < u64_size
    → (w' : World) × (pay rt ctx args w ≡ ok (tt, w'))
      × (w'.lamports ctx.mouth.spend_vault.key + args.amount_lamports
          ≡ granted.lamports ctx.mouth.spend_vault.key)
      × (w'.lamports ctx.recipient ≡ granted.lamports ctx.recipient + args.amount_lamports)
      × (w' ≡ record granted {
        lamports = w'.lamports;
        log =
            Event.paid ctx.mouth.spend_vault.key ctx.recipient args.amount_lamports
              ctx.mouth.agent.key ctx.mouth.grant.key ctx.mouth.grant.value.generation
            ∷ granted.log;
      })
      × ((k : Pubkey)
          → k ≢ ctx.mouth.spend_vault.key
          → k ≢ ctx.recipient
          → w'.lamports k ≡ granted.lamports k)
unfolding pay require_pay_amount precheck_sponsor require_sponsor_accounts require_sponsor_cap
    check_grant debit_spend_vault try_debit_program_owned reimburse_sponsor
pay_completes rt ctx args w granted mouth core positive free apart consent covered fits = (
  record (debited ctx.mouth.spend_vault.key ctx.recipient args.amount_lamports granted) {
    log =
        Event.paid ctx.mouth.spend_vault.key ctx.recipient args.amount_lamports ctx.mouth.agent.key
          ctx.mouth.grant.key ctx.mouth.grant.value.generation
        ∷ granted.log;
  },
  ground arith,
  ground arith,
  ground arith,
  refl,
  λ k other other'. ground (arith, other, other'),
)
