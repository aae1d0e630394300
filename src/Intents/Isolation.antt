-- ===== src/Intents/Isolation.antt =====
-- What `call` sends to the program that it calls (programs/grok_chain_intents/src/instructions/call.rs).
use grokchain_programs.Base.{
  ℕ, ◌+◌, ◌≤◌, ◌<◌, u64_size, ltb, subst, contains, map, length, ◌≡◌, ◌≢◌, refl, true, ◌==◌, Option,
  none, some, List, [], ◌∷◌, All, All-weaken, arith, inl, inr, Bool-cases, ◌⊎◌,
}
use grokchain_programs.Common.Checks.{precheck_sponsor, reject_protected_remaining}
use grokchain_programs.Common.{debit_spend_vault, reimburse_sponsor}
use grokchain_programs.Common.Mouth.{check_mouth, check_mouth_inv, IsAuthorised}
use grokchain_programs.Common.Sponsor.{debit_spend_vault_inv, reimburse_sponsor_inv, Reimburses}
use grokchain_programs.CoreCpi.{check_grant}
use grokchain_programs.CoreCpi.Metering.{MetersGrants, metered, check_grant_inv}
use grokchain_programs.Custody.Laws.{debited}
use grokchain_programs.Events.{Event}
use grokchain_programs.Errors.{call_target_mismatch, target_not_executable}
use grokchain_programs.Intents.Call.{Call, call, inner_metas, paymaster_key, invoke_target}
use grokchain_programs.State.{CallArgs, spend_vault_space}
use grokchain_programs.Runtime.Address.{Pubkey}
use grokchain_programs.Runtime.World.{World, Runtime, AccountInfo, AccountMeta, Instruction, ok}
use grokchain_programs.Runtime.Check
use grokchain_programs.Runtime.Monad.{when, invoke_signed_inv, written, >>-eq-ok, lift-eq-ok}

-- An account that may be handed on.
abbrev pub IsUnprotected : Pubkey → Option Pubkey → Pubkey → Type 0
IsUnprotected vault none k = k ≢ vault
IsUnprotected vault (some pm) k = (k ≢ vault) × (k ≢ pm)

-- A flag of the instruction is one that the transaction's accounts have.
abbrev pub Signed : List AccountInfo → AccountMeta → Type 0
Signed [] meta = ⊥
Signed (a ∷ rest) meta =
    ((meta.pubkey ≡ a.key) × (meta.is_signer ≡ a.is_signer) × (meta.is_writable ≡ a.is_writable))
    ⊎ Signed rest meta

-- What `call` may hand to its target: an account that is neither the vault, the paymaster that
-- `call` was given nor the target, with the flags that it has in the transaction.
abbrev pub IsHandedOn : Call → Pubkey → AccountMeta → Type 0
IsHandedOn ctx target meta =
    IsUnprotected ctx.mouth.spend_vault.key (paymaster_key ctx.mouth.paymaster) meta.pubkey
    × (meta.pubkey ≢ target)
    × Signed ctx.remaining_accounts meta

-- The same for any list of accounts.
abbrev Passes : Pubkey → Option Pubkey → Pubkey → List AccountInfo → AccountMeta → Type 0
Passes vault pm target accounts meta =
    IsUnprotected vault pm meta.pubkey × (meta.pubkey ≢ target) × Signed accounts meta

pub reject-head :
    (a : AccountInfo) (rest : List AccountInfo) (vault : Pubkey) (pm : Option Pubkey)
    → reject_protected_remaining (a ∷ rest) vault pm ≡ ok tt
    → IsUnprotected vault pm a.key × (reject_protected_remaining rest vault pm ≡ ok tt)
unfolding reject_protected_remaining
reject-head a rest vault none h = ground arith
reject-head a rest vault (some pm) h = ground arith

inner_metas-Passes :
    (vault : Pubkey) (pm : Option Pubkey) (target : Pubkey) (accounts : List AccountInfo)
    → reject_protected_remaining accounts vault pm ≡ ok tt
    → All (Passes vault pm target accounts) (inner_metas accounts target)
inner_metas-Passes vault pm target [] h = tt
inner_metas-Passes vault pm target (a ∷ rest) h =
    let (here, there) = reject-head a rest vault pm h in
    let later =
      All-weaken {Q = Passes vault pm target (a ∷ rest)} (inner_metas rest target)
        (λ meta (u, t, s). (u, t, inr s)) (inner_metas-Passes vault pm target rest there) in
    elim (Bool-cases (a.key == target)) [
      | inl e ↦ rw e later
      | inr e ↦ elim (Bool-cases a.is_writable) [
        | inl f ↦ rw (e, f) ((here, ground (arith, e), inl (refl, refl, refl)), later)
        | inr f ↦ rw (e, f) ((here, ground (arith, e), inl (refl, refl, refl)), later)
      ]
    ]

-- The instruction that `call` sends to its target.
abbrev pub target_ix : List AccountInfo → Pubkey → Instruction
target_ix accounts target = record {
  program_id = target;
  accounts = inner_metas accounts target;
  payload = [];
}

-- What the call of the target does: nothing when no account is handed on, and else the target's
-- effect with no signature added.
abbrev pub Invokes : Runtime → List AccountInfo → Pubkey → World → World → Type 0
Invokes rt [] target w w' = w' ≡ w
Invokes rt (a ∷ rest) target w w' = rt.invoke (target_ix (a ∷ rest) target) [] w ≡ ok w'

invoke_target-Invokes :
    (rt : Runtime) (accounts : List AccountInfo) (target : Pubkey) (w w' : World)
    → invoke_target rt accounts target w ≡ ok (tt, w')
    → Invokes rt accounts target w w'
invoke_target-Invokes rt [] target w w' h = ground arith
invoke_target-Invokes rt (a ∷ rest) target w w' h =
    let (_, h1) =
      lift-eq-ok
        (Check.require (contains target (map (λ b. b.key) (a ∷ rest))) call_target_mismatch) _ h in
    invoke_signed_inv rt (target_ix (a ∷ rest) target) [] w w' h1

-- What `call` takes out of the vault before it calls its target.
abbrev pub PaysOut : Runtime → Call → ℕ → World → World → Type 0
PaysOut rt ctx amount w w' =
    ((amount ≡ 0) × (w' ≡ w))
    ⊎ ((0 < amount)
        × (amount + rt.minimum_balance spend_vault_space ≤ w.lamports ctx.spend_vault.key)
        × (w' ≡ debited ctx.spend_vault.key ctx.recipient amount w))

when-PaysOut :
    (rt : Runtime) (ctx : Call) (amount : ℕ) (w w' : World)
    → when (ltb 0 amount) (debit_spend_vault rt ctx.spend_vault ctx.recipient amount) w
      ≡ ok (tt, w')
    → PaysOut rt ctx amount w w'
when-PaysOut rt ctx amount w w' h = elim (Bool-cases (ltb 0 amount)) [
  | inl e ↦
      let (made, covered, _) =
        debit_spend_vault_inv rt ctx.spend_vault ctx.recipient amount w w' (ground (arith, e, h)) in
      inr (ground (arith, e), covered, made)
  | inr e ↦ inl (ground (arith, e), ground (arith, e, h))
]

-- A call that has been carried out: the agent signed, the program is the one that was named and
-- can run, the grant has metered the amount within its cap, the vault has paid the recipient above
-- its rent, the target was invoked once at most, with no signature added, and what it was handed is
-- as `IsHandedOn` says; the relayer is reimbursed or nothing is, and the event is logged.
pub record IsCalled (rt : Runtime) (ctx : Call) (args : CallArgs) (w w' : World) : Type 0 where
  pub authorised : IsAuthorised ctx.mouth
  pub named : ctx.call_target.key ≡ args.target_program
  pub runs : ctx.call_target.executable ≡ true
  pub within_cap :
      (w.grants ctx.grant.key).spent_lamports + args.amount_lamports
      ≤ (w.grants ctx.grant.key).spend_cap_lamports
  pub before : World
  pub paid :
      PaysOut rt ctx args.amount_lamports (metered ctx.grant.key args.amount_lamports w) before
  pub after : World
  pub invokes : Invokes rt ctx.remaining_accounts args.target_program before after
  pub hands :
      All
        (IsHandedOn ctx args.target_program)
        (inner_metas ctx.remaining_accounts args.target_program)
  pub reimbursed : World
  pub reimburses :
      Reimburses rt ctx.grant ctx.paymaster ctx.fee_payer args.sponsor_lamports after reimbursed
  pub logged : w' ≡ record reimbursed {
    log =
        Event.called args.target_program ctx.recipient args.amount_lamports
          (length ctx.remaining_accounts)
          ctx.agent.key
          ctx.grant.key
          ctx.grant.value.generation
        ∷ reimbursed.log;
  }

-- Whenever `call` succeeds, on a CORE that keeps its contract and for an amount that is a u64, the
-- call is carried out in the sense of `IsCalled`: the agent signed, the grant has metered the amount
-- within its cap and the vault has paid it above its rent; then the executable program that the
-- agent named was sent, when there are remaining accounts, one instruction with empty data and no
-- added signature, whose accounts are neither the vault, the paymaster that `call` was given nor
-- that program, and sign or are writable only as the transaction says.
pub call-IsCalled :
    (rt : Runtime) (ctx : Call) (args : CallArgs) (w w' : World)
    → MetersGrants rt
    → args.amount_lamports < u64_size
    → call rt ctx args w ≡ ok (tt, w')
    → IsCalled rt ctx args w w'
unfolding call
call-IsCalled rt ctx args w w' core small h =
    let (mouth, h0) = lift-eq-ok (check_mouth rt ctx.mouth) _ h in
    let (named, h1) =
      lift-eq-ok (Check.require (ctx.call_target.key == args.target_program) call_target_mismatch) _
        h0 in
    let (runs, h2) =
      lift-eq-ok (Check.require ctx.call_target.executable target_not_executable) _ h1 in
    let (_, h3) =
      lift-eq-ok (precheck_sponsor args.sponsor_lamports ctx.paymaster ctx.fee_payer) _ h2 in
    let (apart, h4) =
      lift-eq-ok
        (reject_protected_remaining ctx.remaining_accounts ctx.spend_vault.key
          (paymaster_key ctx.paymaster))
        _ h3 in
    let (w1, e1, h5) = >>-eq-ok (check_grant rt _ _ _ _ _ args.amount_lamports) _ h4 in
    let (r1, within) = check_grant_inv rt _ _ _ _ _ args.amount_lamports w w1 core small e1 in
    let (w2, e2, h6) = >>-eq-ok (when (ltb 0 args.amount_lamports) _) _ h5 in
    let paid = when-PaysOut rt ctx args.amount_lamports w1 w2 e2 in
    let (w3, e3, h7) =
      >>-eq-ok (invoke_target rt ctx.remaining_accounts args.target_program) _ h6 in
    let (w4, e4, h8) =
      >>-eq-ok (reimburse_sponsor rt ctx.grant ctx.paymaster ctx.fee_payer args.sponsor_lamports) _
        h7 in
    record {
      authorised = check_mouth_inv rt ctx.mouth mouth;
      named = ground (arith, named);
      runs = ground (arith, runs);
      within_cap = within;
      before = w2;
      paid = subst (λ v. PaysOut rt ctx args.amount_lamports v w2) r1 paid;
      after = w3;
      invokes = invoke_target-Invokes rt ctx.remaining_accounts args.target_program w2 w3 e3;
      hands =
          inner_metas-Passes ctx.spend_vault.key (paymaster_key ctx.paymaster) args.target_program
            ctx.remaining_accounts apart;
      reimbursed = w4;
      reimburses =
          reimburse_sponsor_inv rt ctx.grant ctx.paymaster ctx.fee_payer args.sponsor_lamports w3 w4
            e4;
      logged = written _ w4 w' h8;
    }
