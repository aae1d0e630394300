-- ===== src/SubGrants/Narrowing.antt =====
-- Revising and revoking: who may, and that they only narrow.
use grokchain_programs.Base.{ℕ, ◌≤◌, ◌≡◌, ℤ, ◌≤ℤ◌, true, false, arith, ◌⊎◌, [], ◌∷◌}
use grokchain_programs.Constants.{intents_id, seed_sub_grant}
use grokchain_programs.State.{SubGrant}
use grokchain_programs.SubGrants.Manage.{ManageSubGrant, revise, revoke, check_manage}
use grokchain_programs.Runtime.Address.{text, address}
use grokchain_programs.Runtime.World.{World, Runtime, ok}

-- A later form of a sub-grant that has been narrowed: less cap, an earlier end, the same place in
-- the tree, and a revocation that stays.
pub record Narrows (before after : SubGrant) : Type 0 where
  pub cap : after.cap ≤ before.cap
  pub expiry : after.expires_at ≤ℤ before.expires_at
  pub spent : after.spent ≡ before.spent
  pub parent : after.parent ≡ before.parent
  pub depth : after.depth ≡ before.depth
  pub agent : after.agent ≡ before.agent
  pub issuer : after.issuer ≡ before.issuer
  pub revoked : (before.revoked ≡ false) ⊎ (after.revoked ≡ true)

-- The key that signed is the sub-grant's issuer or the account's root, and the sub-grant is of that
-- account: it records the account, and it stands at the address that the account and the sub-grant's
-- agent derive.
abbrev pub IsManager : Runtime → ManageSubGrant → Type 0
IsManager rt ctx =
    (ctx.authority.is_signer ≡ true)
    × (ctx.sub_grant.value.grok_account ≡ ctx.grok_account.key)
    × (ctx.sub_grant.key
        ≡ rt.create_program_address
            (text seed_sub_grant
              ∷ address ctx.grok_account.key
              ∷ address ctx.sub_grant.value.agent
              ∷ [])
            ctx.sub_grant.value.bump intents_id)
    × ((ctx.authority.key ≡ ctx.sub_grant.value.issuer)
        ⊎ (ctx.authority.key ≡ ctx.grok_account.value.root))

pub check_manage-IsManager :
    (rt : Runtime) (ctx : ManageSubGrant) (w w' : World)
    → check_manage rt ctx w ≡ ok (tt, w')
    → IsManager rt ctx × (w' ≡ w)
unfolding check_manage
check_manage-IsManager rt ctx w w' h = ground arith

-- `revise` succeeds only for the issuer or the root of the sub-grant's account, who signed, and it
-- only narrows: the new cap
-- is no more than the old, no less than what is spent, and the new expiry is no later.
pub revise-Narrows :
    (rt : Runtime) (ctx : ManageSubGrant) (cap : ℕ) (expires_at : ℤ) (w w' : World) (sg : SubGrant)
    → revise rt ctx cap expires_at w ≡ ok (sg, w')
    → IsManager rt ctx × Narrows ctx.sub_grant.value sg × (sg.spent ≤ sg.cap)
unfolding revise check_manage
revise-Narrows rt ctx cap expires_at w w' sg h = (
  ground arith,
  record {
    cap = ground arith;
    expiry = ground arith;
    spent = ground arith;
    parent = ground arith;
    depth = ground arith;
    agent = ground arith;
    issuer = ground arith;
    revoked = ground arith;
  },
  ground arith,
)

-- `revoke` succeeds only for the issuer or the root of the sub-grant's account, who signed, on a sub-grant that is not
-- revoked; it is revoked then, with the cap, the expiry, the counter and the place in the tree that
-- it had.
pub revoke-Narrows :
    (rt : Runtime) (ctx : ManageSubGrant) (w w' : World) (sg : SubGrant)
    → revoke rt ctx w ≡ ok (sg, w')
    → IsManager rt ctx
      × (ctx.sub_grant.value.revoked ≡ false)
      × (sg.revoked ≡ true)
      × (sg.cap ≡ ctx.sub_grant.value.cap)
      × (sg.expires_at ≡ ctx.sub_grant.value.expires_at)
      × Narrows ctx.sub_grant.value sg
unfolding revoke check_manage
revoke-Narrows rt ctx w w' sg h = (
  ground arith,
  ground arith,
  ground arith,
  ground arith,
  ground arith,
  record {
    cap = ground arith;
    expiry = ground arith;
    spent = ground arith;
    parent = ground arith;
    depth = ground arith;
    agent = ground arith;
    issuer = ground arith;
    revoked = ground arith;
  },
)
