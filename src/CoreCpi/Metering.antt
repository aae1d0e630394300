-- ===== src/CoreCpi/Metering.antt =====
-- What the program relies on of CORE's `check_grant`: on success it has metered the amount on the
-- grant, within the cap, and changed nothing else.
use grokchain_programs.Base.{ℕ, ◌+◌, ◌≤◌, ◌<◌, ◌≡◌, arith, [], u64_size}
use grokchain_programs.Runtime.Address.{Pubkey}
use grokchain_programs.Runtime.World.{World, Runtime, ok}
use grokchain_programs.Runtime.Monad.{update}
use grokchain_programs.CoreCpi.{check_grant_ix, check_grant}

abbrev pub metered : Pubkey → ℕ → World → World
metered grant amount w = record w {
  grants =
      update w.grants grant
        (record (w.grants grant) { spent_lamports = (w.grants grant).spent_lamports + amount });
}

-- CORE's contract, as SPEC.md §9 and §13 state it.
pub record MetersGrants (rt : Runtime) : Type 0 where
  pub on_success :
      (grok grant agent target : Pubkey) (amount : ℕ) (w w' : World)
      → amount < u64_size
      → rt.invoke (check_grant_ix rt grok grant agent target amount) [] w ≡ ok w'
      → (w' ≡ metered grant amount w)
        × ((w.grants grant).spent_lamports + amount ≤ (w.grants grant).spend_cap_lamports)

-- A successful `check_grant` has the effect of CORE's contract.
pub check_grant_inv :
    (rt : Runtime) (core grok grant agent target : Pubkey) (amount : ℕ) (w w' : World)
    → MetersGrants rt
    → amount < u64_size
    → check_grant rt core grok grant agent target amount w ≡ ok (tt, w')
    → (w' ≡ metered grant amount w)
      × ((w.grants grant).spent_lamports + amount ≤ (w.grants grant).spend_cap_lamports)
unfolding check_grant
check_grant_inv rt core grok grant agent target amount w w' c small h =
    c.on_success grok grant agent target amount w w' small (unfold check_grant_ix in (ground arith))
