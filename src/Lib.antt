-- ===== src/Lib.antt =====
-- The intents program of Grok Chain (programs/grok_chain_intents): an agent spends the SOL and the
-- tokens of a human's account under a grant that CORE, another program, keeps and meters. The human
-- (the root) holds a spend vault, a paymaster that reimburses relayers, a registry of merchants,
-- subscriptions, and sub-grants that an agent issues to other agents.
--
-- Every instruction is an action on a world of balances, owners, raw bytes, CORE's grants and the
-- event log. It fails with an error and no world, since the runtime reverts a failed transaction;
-- an instruction that writes one account of the program's own returns that account. An instruction
-- first makes the checks that Anchor generates from its account struct, then runs its handler.
--
-- The parts, with paths under programs/grok_chain_intents/src:
--   Base            numbers, lists, words and the library names that all modules share
--   Runtime         addresses, the world, the record of what lies outside the repository (rent,
--                   clock, derivation of addresses, invocation of other programs), the two monads
--   Errors          errors.rs          Events     events.rs
--   Constants       constants.rs       State      state.rs
--   Policy          policy.rs; Policy/Jupiter is require_jupiter_in_amount
--   CoreCpi         core_cpi.rs; CoreCpi/Metering states what is relied on of CORE
--   Custody         try_debit_program_owned of instructions/mod.rs, and what it does to balances
--   Common          instructions/common.rs and the account checks that the instructions share
--   Intents         pay, swap, deploy and call, in instructions/pay.rs, swap.rs, deploy.rs, call.rs;
--                   Ledger is the abstract view of what pay and swap spend
--   SubGrants       instructions/sub_grant.rs: Issue, Manage (revise, revoke), Chain (the walk),
--                   Tree (all sub-grants, and the steps that change them)
--   Merchants       instructions/merchants.rs
--   Subscription    instructions/subscription.rs: Manage, Period, TokenAccount, Pay
--   PayToken        instructions/pay_token.rs
--   Token           instructions/token.rs: Route (the Jupiter instruction), Accounts, Trade
--   Trader          instructions/pump_trader.rs: Manage (init, fund), Sweep (withdraw)
--   SponsorFee      instructions/sponsor_fee.rs: Config, Burn
--   Pump            instructions/pump.rs: Accounts, Trade; the encoders of constants.rs (Encoding)
--                   and the checks of policy.rs (Checks) that it uses
--   Program         lib.rs: the instructions (Request), their dispatch (Dispatch) and who may send
--                   them (Senders)
--   Custodians      instructions/spend_vault.rs (Vault) and instructions/paymaster.rs (Sponsor)
--   Examples        runs on a small concrete chain
--
-- The intents call Custody through Common, and CORE through CoreCpi; Subscription reads the registry
-- of Merchants. An Option of an account is an optional account of a struct; Account pairs an address
-- with the value that was deserialised when the instruction began.
--
-- Addresses are natural numbers, the big-endian value of their 32 bytes. A u64 is a natural number
-- whose additions are checked against 2 ^ 64 where the source checks them; an i64 is an integer, and
-- the one subtraction that can overflow aborts. All loops are structural recursion on the list of
-- accounts, merchants or nodes: there is no fuel.
--
-- Not under the repository's root, and so parameters: CORE (the crate grok_chain_core), the token
-- programs, the system program, the derivation of addresses and the sysvars. What the
-- theorems rely on of them is MetersGrants: when check_grant succeeds it has added the amount to the grant's counter,
-- within the cap, and changed nothing else. It holds of the CORE of Examples/Chain. A theorem that an
-- instruction completes also assumes that the calls it makes of CORE or of the system program succeed.
--
-- Not modelled: instructions/pump_amm.rs, which instructions/mod.rs does not name, with the encoders,
-- fee recipients and checks that only it uses; the test module capability_audit.rs and the tests of
-- lib.rs; of Anchor's checks, those of an account's owner and discriminator, the `mut` constraints
-- (that an account which is written is writable in the transaction), the allocation of a new account
-- by `init`, and the account of the system program; of the runtime, its rule that an instruction
-- leaves the sum of all lamports as it was. So a debit of an account for itself, which this rule
-- makes fail, succeeds in Custody and leaves the account with more; where a theorem needs that the
-- two differ, it says so. The node that commit_meter serialises into its account is the node that it
-- returns. Anchor deserialises the named accounts before its constraints are checked; only the
-- signer and program checks among these are modelled.
pub mod Base
pub mod Errors
pub mod Runtime
pub mod Constants
pub mod State
pub mod Events
pub mod Custody
pub mod Policy
pub mod CoreCpi
pub mod Common
pub mod Intents
pub mod SubGrants
pub mod Merchants
pub mod Subscription
pub mod Token
pub mod Trader
pub mod SponsorFee
pub mod Pump
pub mod Program
pub mod PayToken
pub mod Custodians
pub mod Examples
