-- ===== src/SubGrants/Attenuation.antt =====
-- Authority only narrows on the way down: what a sub-grant that was issued, revised or revoked has.
use grokchain_programs.Base.{
  ℕ, ◌+◌, ◌-◌, ◌≤◌, ◌<◌, ◌≡◌, ◌≢◌, refl, sym, subst, ℤ, ◌<ℤ◌, ◌≤ℤ◌, true, false, Option, none, some,
  arith,
}
use grokchain_programs.State.{SubGrant}
use grokchain_programs.SubGrants.Issue.{
  IssueSubGrant, issue, new_sub_grant, check_issue, authority, Authority, max_sub_depth,
}
use grokchain_programs.Runtime.Address.{Pubkey, default_pubkey}
use grokchain_programs.Runtime.World.{World, Runtime, Account, Grant, Result, ok, err}

-- What holds of the authority above a new sub-grant: a live sub-grant of the issuer's with room, or
-- CORE's grant to the issuer.
abbrev pub Backs : Option (Account SubGrant) → Grant → ℤ → SubGrant → Type 0
Backs (some p) core now sg =
    (p.value.agent ≡ sg.issuer)
    × (p.value.revoked ≡ false)
    × (now <ℤ p.value.expires_at)
    × (sg.parent ≡ p.key)
    × (sg.depth ≡ p.value.depth + 1)
    × (sg.depth ≤ max_sub_depth)
    × (sg.cap ≤ p.value.cap - p.value.spent)
    × (sg.expires_at ≤ℤ p.value.expires_at)
Backs none core now sg =
    (core.agent ≡ sg.issuer)
    × (sg.parent ≡ default_pubkey)
    × (sg.depth ≡ 1)
    × (sg.cap ≤ core.spend_cap_lamports - core.spent_lamports)
    × (sg.expires_at ≤ℤ core.expires_at_unix)

-- A sub-grant as it is issued.
pub record IsIssued (rt : Runtime) (ctx : IssueSubGrant) (agent : Pubkey) (cap : ℕ) (expires_at : ℤ)
    (sg : SubGrant) : Type 0 where
  pub backed : Backs ctx.parent ctx.grant.value rt.unix_timestamp sg
  pub core_live : ctx.grant.value.revoked ≡ false
  pub core_unexpired : rt.unix_timestamp <ℤ ctx.grant.value.expires_at_unix
  pub by_issuer : sg.issuer ≡ ctx.issuer.key
  pub signed : ctx.issuer.is_signer ≡ true
  pub to_agent : sg.agent ≡ agent
  pub not_self : agent ≢ sg.issuer
  pub positive : 0 < cap
  pub capped : sg.cap ≡ cap
  pub unspent : sg.spent ≡ 0
  pub expires : sg.expires_at ≡ expires_at
  pub unexpired : rt.unix_timestamp <ℤ expires_at
  pub live : sg.revoked ≡ false

pub issue_inv :
    (rt : Runtime) (ctx : IssueSubGrant) (agent : Pubkey) (cap : ℕ) (expires_at : ℤ) (w w' : World)
    (sg : SubGrant)
    → issue rt ctx agent cap expires_at w ≡ ok (sg, w')
    → (check_issue rt ctx agent ≡ ok tt) × (new_sub_grant rt ctx agent cap expires_at ≡ ok sg)
unfolding issue
issue_inv rt ctx agent cap expires_at w w' sg h = ground arith

pub check_issue_signed :
    (rt : Runtime) (ctx : IssueSubGrant) (agent : Pubkey)
    → check_issue rt ctx agent ≡ ok tt
    → ctx.issuer.is_signer ≡ true
unfolding check_issue
check_issue_signed rt ctx agent h = ground arith

authority-Backs :
    (parent : Option (Account SubGrant)) (core : Grant) (issuer : Pubkey) (now : ℤ) (a : Authority)
    (sg : SubGrant)
    → authority parent core issuer now ≡ ok a
    → sg.issuer ≡ issuer
    → sg.parent ≡ a.parent_key
    → sg.depth ≡ a.depth
    → sg.cap ≤ a.headroom
    → sg.expires_at ≤ℤ a.parent_expiry
    → Backs parent core now sg
unfolding authority
authority-Backs none core issuer now a sg h i p d c e = ground arith
authority-Backs (some p) core issuer now a sg h i k d c e = ground arith

-- What the other checks of `issue` have established of the account it writes.
record Checked (rt : Runtime) (ctx : IssueSubGrant) (agent : Pubkey) (cap : ℕ) (expires_at : ℤ)
    (sg : SubGrant) : Type 0 where
  pub from : Authority
  pub from_eq : authority ctx.parent ctx.grant.value ctx.issuer.key rt.unix_timestamp ≡ ok from
  pub core_live : ctx.grant.value.revoked ≡ false
  pub core_unexpired : rt.unix_timestamp <ℤ ctx.grant.value.expires_at_unix
  pub parent_key : sg.parent ≡ from.parent_key
  pub depth : sg.depth ≡ from.depth
  pub room : cap ≤ from.headroom
  pub within : expires_at ≤ℤ from.parent_expiry
  pub by_issuer : sg.issuer ≡ ctx.issuer.key
  pub to_agent : sg.agent ≡ agent
  pub not_self : agent ≢ ctx.issuer.key
  pub positive : 0 < cap
  pub capped : sg.cap ≡ cap
  pub unspent : sg.spent ≡ 0
  pub expires : sg.expires_at ≡ expires_at
  pub unexpired : rt.unix_timestamp <ℤ expires_at
  pub live : sg.revoked ≡ false

new_sub_grant-Checked :
    (rt : Runtime) (ctx : IssueSubGrant) (agent : Pubkey) (cap : ℕ) (expires_at : ℤ) (sg : SubGrant)
    → new_sub_grant rt ctx agent cap expires_at ≡ ok sg
    → Checked rt ctx agent cap expires_at sg
unfolding new_sub_grant
new_sub_grant-Checked rt ctx agent cap expires_at sg h =
    split (authority ctx.parent ctx.grant.value ctx.issuer.key rt.unix_timestamp) refl h
  where
    split :
        (r : Result Authority)
        → authority ctx.parent ctx.grant.value ctx.issuer.key rt.unix_timestamp ≡ r
        → new_sub_grant rt ctx agent cap expires_at ≡ ok sg
        → Checked rt ctx agent cap expires_at sg
    split (ok a) e h = record {
      from = a;
      from_eq = e;
      core_live = ground (arith, e, h);
      core_unexpired = ground (arith, e, h);
      parent_key = ground (arith, e, h);
      depth = ground (arith, e, h);
      room = ground (arith, e, h);
      within = ground (arith, e, h);
      by_issuer = ground (arith, e, h);
      to_agent = ground (arith, e, h);
      not_self = ground (arith, e, h);
      positive = ground (arith, e, h);
      capped = ground (arith, e, h);
      unspent = ground (arith, e, h);
      expires = ground (arith, e, h);
      unexpired = ground (arith, e, h);
      live = ground (arith, e, h);
    }
    split (err x) e h = ground (arith, e, h)

-- Whenever `issue` succeeds, the sub-grant it writes is narrower than its authority: an issuer
-- who signed is the agent of a live parent below the depth limit, or of CORE's live grant; the
-- cap fits in what that authority has left and the expiry is no later; nothing is spent yet, and
-- nobody has issued to themselves.
pub issue-IsIssued :
    (rt : Runtime) (ctx : IssueSubGrant) (agent : Pubkey) (cap : ℕ) (expires_at : ℤ) (w w' : World)
    (sg : SubGrant)
    → issue rt ctx agent cap expires_at w ≡ ok (sg, w')
    → IsIssued rt ctx agent cap expires_at sg
issue-IsIssued rt ctx agent cap expires_at w w' sg h =
    let (checked, made) = issue_inv rt ctx agent cap expires_at w w' sg h in
    let c = new_sub_grant-Checked rt ctx agent cap expires_at sg made in
    record {
      backed =
          authority-Backs ctx.parent ctx.grant.value ctx.issuer.key rt.unix_timestamp c.from sg
            c.from_eq c.by_issuer c.parent_key c.depth
            (subst (λ k. k ≤ c.from.headroom) (sym c.capped) c.room)
            (subst (λ e. e ≤ℤ c.from.parent_expiry) (sym c.expires) c.within);
      core_live = c.core_live;
      core_unexpired = c.core_unexpired;
      by_issuer = c.by_issuer;
      signed = check_issue_signed rt ctx agent checked;
      to_agent = c.to_agent;
      not_self = subst (λ i. agent ≢ i) (sym c.by_issuer) c.not_self;
      positive = c.positive;
      capped = c.capped;
      unspent = c.unspent;
      expires = c.expires;
      unexpired = c.unexpired;
      live = c.live;
    }

-- A parent's own account is not compared with the account under which the sub-grant is issued:
-- `issue` gives the same result whichever account the parent belongs to.
pub issue_ignores_parents_account :
    (rt : Runtime) (ctx : IssueSubGrant) (parent : Account SubGrant) (other : Pubkey)
    (agent : Pubkey) (cap : ℕ) (expires_at : ℤ) (w : World)
    → issue rt (record ctx { parent = some parent }) agent cap expires_at w
      ≡ issue rt
          (record ctx {
            parent = some (record parent { value = record parent.value { grok_account = other } });
          })
          agent
          cap
          expires_at
          w
unfolding issue new_sub_grant authority check_issue
issue_ignores_parents_account rt ctx parent other agent cap expires_at w = refl
