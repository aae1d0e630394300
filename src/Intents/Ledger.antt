-- ===== src/Intents/Ledger.antt =====
-- The abstract view of spending: a ledger of the vault's balance and the grant's budget, which any
-- run of `pay` and `swap` keeps exactly.
use grokchain_programs.Base.{
  ℕ, ◌+◌, ◌-◌, ◌≤◌, ◌<◌, ◌≡◌, ◌≢◌, ◌&&◌, refl, Option, none, some, List, [], ◌∷◌, leb, arith,
  u64_size, if◌then◌else◌, ap, ◌∙◌, Option-cases, inl, inr,
}
use grokchain_programs.Common.Mouth.{Mouth}
use grokchain_programs.CoreCpi.Metering.{MetersGrants}
use grokchain_programs.Events.{Event}
use grokchain_programs.Intents.Balances.{ForSponsor, Spends-metered, Spends-cap, Spends-vault}
use grokchain_programs.Intents.Effects.{Spends, pay-Spends, swap-Spends}
use grokchain_programs.Intents.Pay.{Pay, pay}
use grokchain_programs.Intents.Swap.{Swap, swap}
use grokchain_programs.State.{PayArgs, SwapArgs, spend_vault_space}
use grokchain_programs.Runtime.Address.{Pubkey}
use grokchain_programs.Runtime.World.{World, Runtime, ok}

pub record Ledger : Type 0 where
  pub balance : ℕ
  pub spent : ℕ
  pub cap : ℕ

-- One spend: it is refused beyond the cap, and where it would leave less than the floor.
unfoldable pub spend_from : ℕ → ℕ → Ledger → Option Ledger
spend_from floor amount l =
    if leb (l.spent + amount) l.cap && leb (amount + floor) l.balance
    then some (record l { balance = l.balance - amount; spent = l.spent + amount })
    else none

unfoldable pub spend_all : ℕ → List ℕ → Ledger → Option Ledger
spend_all floor [] l = some l
spend_all floor (amount ∷ rest) l = elim (spend_from floor amount l) [
  | none ↦ none
  | some l' ↦ spend_all floor rest l'
]

-- The ledger of a grant and a vault in a world.
abbrev pub ledger_of : Pubkey → Pubkey → World → Ledger
ledger_of grant vault w = record {
  balance = w.lamports vault;
  spent = (w.grants grant).spent_lamports;
  cap = (w.grants grant).spend_cap_lamports;
}

-- The vault is neither the destination nor the sponsor's accounts.
abbrev pub VaultApart : Mouth → Pubkey → Type 0
VaultApart m dest =
    (m.spend_vault.key ≢ dest)
    × ForSponsor m (λ pm fp. (m.spend_vault.key ≢ pm) × (m.spend_vault.key ≢ fp))

-- A run of successful `pay`s and `swap`s on one grant and one vault, with the amounts that they
-- spend, in their order.
pub data Spending (rt : Runtime) : Pubkey → Pubkey → List ℕ → World → World → Type 0 where
  rested : {grant vault : Pubkey} {w : World} → Spending rt grant vault [] w w
  paying :
      {rest : List ℕ} {w' w'' : World} (ctx : Pay) (args : PayArgs) (w : World)
      → args.amount_lamports < u64_size
      → VaultApart ctx.mouth ctx.recipient
      → pay rt ctx args w ≡ ok (tt, w')
      → Spending rt ctx.mouth.grant.key ctx.mouth.spend_vault.key rest w' w''
      → Spending rt ctx.mouth.grant.key ctx.mouth.spend_vault.key
          (args.amount_lamports ∷ rest)
          w
          w''
  swapping :
      {rest : List ℕ} {w' w'' : World} (ctx : Swap) (args : SwapArgs) (w : World)
      → args.amount_in_lamports < u64_size
      → VaultApart ctx.mouth ctx.out_destination
      → swap rt ctx args w ≡ ok (tt, w')
      → Spending rt ctx.mouth.grant.key ctx.mouth.spend_vault.key rest w' w''
      → Spending rt ctx.mouth.grant.key ctx.mouth.spend_vault.key
          (args.amount_in_lamports ∷ rest)
          w
          w''

spent_so :
    (floor amount : ℕ) (l l' : Ledger)
    → l.spent + amount ≤ l.cap
    → l'.balance + amount ≡ l.balance
    → floor ≤ l'.balance
    → l'.spent ≡ l.spent + amount
    → l'.cap ≡ l.cap
    → spend_from floor amount l ≡ some l'
unfolding spend_from
spent_so floor amount l l' within balance above spent cap = ground arith

Spends-spend_from :
    (rt : Runtime) (m : Mouth) (dest : Pubkey) (amount sponsor : ℕ) (event : Event) (w w' : World)
    → VaultApart m dest
    → Spends rt m dest amount sponsor event w w'
    → spend_from
        (rt.minimum_balance spend_vault_space)
        amount
        (ledger_of m.grant.key m.spend_vault.key w)
      ≡ some (ledger_of m.grant.key m.spend_vault.key w')
Spends-spend_from rt m dest amount sponsor event w w' (v, apart) s =
    let (spent, _) = Spends-metered rt m dest amount sponsor event w w' s in
    let (paid, floor) = Spends-vault rt m dest amount sponsor event w w' s v apart in
    spent_so (rt.minimum_balance spend_vault_space) amount _ _ s.within_cap paid floor spent
      (Spends-cap rt m dest amount sponsor event w w' s)

spend_then :
    (floor amount : ℕ) (rest : List ℕ) (l l' : Ledger) {r : Option Ledger}
    → spend_from floor amount l ≡ some l'
    → spend_all floor rest l' ≡ r
    → spend_all floor (amount ∷ rest) l ≡ r
unfolding spend_all
spend_then floor amount rest l l' e h =
    ap {A = Option Ledger} (λ o. elim o [ none ↦ none | some l' ↦ spend_all floor rest l' ]) e ∙ h

-- Any run of successful `pay`s and `swap`s on one grant and one vault, on a CORE that keeps its
-- contract, refines the ledger: spending the same amounts in the same order from the ledger of the
-- first world, with the vault's rent as the floor, is never refused and gives the ledger of the last.
pub Spending-spend_all :
    (rt : Runtime) {grant vault : Pubkey} {amounts : List ℕ} {w w' : World}
    → MetersGrants rt
    → Spending rt grant vault amounts w w'
    → spend_all (rt.minimum_balance spend_vault_space) amounts (ledger_of grant vault w)
      ≡ some (ledger_of grant vault w')
unfolding spend_all
Spending-spend_all rt core rested = refl
Spending-spend_all rt core (paying {rest = rest} {w' = v} ctx args w small apart h run) =
    let (_, _, _, s) = pay-Spends rt ctx args w v core small h in
    spend_then (rt.minimum_balance spend_vault_space) args.amount_lamports rest _ _
      (Spends-spend_from rt ctx.mouth ctx.recipient _ _ _ w v apart s)
      (Spending-spend_all rt core run)
Spending-spend_all rt core (swapping {rest = rest} {w' = v} ctx args w small apart h run) =
    let (_, _, _, s) = swap-Spends rt ctx args w v core small h in
    spend_then (rt.minimum_balance spend_vault_space) args.amount_in_lamports rest _ _
      (Spends-spend_from rt ctx.mouth ctx.out_destination _ _ _ w v apart s)
      (Spending-spend_all rt core run)

abbrev pub total : List ℕ → ℕ
total [] = 0
total (amount ∷ rest) = amount + total rest

spend_from_inv :
    (floor amount : ℕ) (l l' : Ledger)
    → spend_from floor amount l ≡ some l'
    → (l'.balance + amount ≡ l.balance)
      × (l'.spent ≡ l.spent + amount)
      × (l'.cap ≡ l.cap)
      × (l'.spent ≤ l'.cap)
unfolding spend_from
spend_from_inv floor amount l l' h = ground arith

-- What a ledger says of a run of spends: all of it is out of the balance, and within the cap.
spend_all-total :
    (floor : ℕ) (amounts : List ℕ) (l l' : Ledger)
    → l.spent ≤ l.cap
    → spend_all floor amounts l ≡ some l'
    → (l'.balance + total amounts ≡ l.balance)
      × (l'.spent ≡ l.spent + total amounts)
      × (l.spent + total amounts ≤ l.cap)
unfolding spend_all
spend_all-total floor [] l l' small h = ground (arith, small, h)
spend_all-total floor (amount ∷ rest) l l' small h =
    elim (Option-cases (spend_from floor amount l)) [
      | inl e ↦ ground (arith, e, h)
      | inr (m, e) ↦
          let (b, s, c, le) = spend_from_inv floor amount l m e in
          let (b', s', le') = spend_all-total floor rest m l' le (ground (arith, e, h)) in
          (omega (arith, b, b'), omega (arith, s, s'), omega (arith, s, c, le'))
    ]

-- Over any run of successful `pay`s and `swap`s on one grant and one vault, on a CORE that keeps its
-- contract and whose grant begins within its cap, the vault loses exactly the total of the amounts,
-- which is at most what the grant had left.
pub Spending-total :
    (rt : Runtime) (grant vault : Pubkey) (amounts : List ℕ) (w w' : World)
    → MetersGrants rt
    → (w.grants grant).spent_lamports ≤ (w.grants grant).spend_cap_lamports
    → Spending rt grant vault amounts w w'
    → (w'.lamports vault + total amounts ≡ w.lamports vault)
      × ((w.grants grant).spent_lamports + total amounts ≤ (w.grants grant).spend_cap_lamports)
Spending-total rt grant vault amounts w w' core small run =
    let (balance, _, within) =
      spend_all-total (rt.minimum_balance spend_vault_space) amounts (ledger_of grant vault w)
        (ledger_of grant vault w') small (Spending-spend_all rt core run) in
    (balance, within)
