-- ===== src/SubGrants/Steps.antt =====
-- What one instruction does at one address of the tree.
use grokchain_programs.Base.{
  ℕ, ◌≤◌, ◌≡◌, refl, sym, ap, subst, ◌∙◌, ℤ, ◌≤ℤ◌, true, false, none, some, List, [], ◌∷◌, map, All,
  arith, ◌⊎◌, inl, inr, ◌==◌, Bool-cases,
}
use grokchain_programs.State.{SubGrant}
use grokchain_programs.SubGrants.Attenuation.{issue-IsIssued}
use grokchain_programs.SubGrants.Narrowing.{Narrows, revise-Narrows, revoke-Narrows}
use grokchain_programs.SubGrants.Chain.{Node, meter_all}
use grokchain_programs.SubGrants.Walk.{IsLive, walk_iff, spent_node}
use grokchain_programs.Runtime.Address.{Pubkey}
use grokchain_programs.Runtime.World.{ok}
use grokchain_programs.Runtime.Check.{Result-cases}
use grokchain_programs.SubGrants.Tree.{
  Tree, Loaded, store, store_all, Step, issuing, revising, revoking, spending,
}

-- A sub-grant's later form: no wider, spent no less, and never unrevoked.
pub record Later (before after : SubGrant) : Type 0 where
  pub cap : after.cap ≤ before.cap
  pub expiry : after.expires_at ≤ℤ before.expires_at
  pub spent : before.spent ≤ after.spent
  pub parent : after.parent ≡ before.parent
  pub agent : after.agent ≡ before.agent
  pub revoked : (before.revoked ≡ false) ⊎ (after.revoked ≡ true)
  pub bounded :
      (after.spent ≤ after.cap) ⊎ ((after.spent ≡ before.spent) × (after.cap ≡ before.cap))

-- What a step does at one address.
abbrev pub Change : Tree → Tree → Pubkey → Type 0
Change t u k =
    (u k ≡ t k)
    ⊎ ((sg : SubGrant) × (sg' : SubGrant) × (t k ≡ some sg) × (u k ≡ some sg') × Later sg sg')
    ⊎ ((sg : SubGrant) × (t k ≡ none) × (u k ≡ some sg) × (sg.spent ≤ sg.cap))

meter_all_inv :
    (chain metered : List Node) (amount : ℕ)
    → meter_all chain amount ≡ ok metered
    → metered ≡ map (spent_node amount) chain
unfolding meter_all
meter_all_inv [] metered amount h = ground (arith, h)
meter_all_inv (node ∷ rest) metered amount h = elim (Result-cases (meter_all rest amount)) [
  | inl (m, e) ↦ let same = meter_all_inv rest m amount e in ground (arith, h, e, same)
  | inr (x, e) ↦ ground (arith, h, e)
]

Narrows-Later :
    (before after : SubGrant)
    → Narrows before after
    → (after.spent ≤ after.cap) ⊎ ((after.spent ≡ before.spent) × (after.cap ≡ before.cap))
    → Later before after
Narrows-Later before after n b = record {
  cap = n.cap;
  expiry = n.expiry;
  spent = omega (arith, n.spent);
  parent = n.parent;
  agent = n.agent;
  revoked = n.revoked;
  bounded = b;
}

spent-Later :
    (amount : ℕ) (now : ℤ) (node : Node)
    → IsLive amount now node
    → Later node.value (spent_node amount node).value
spent-Later amount now node l = record {
  cap = omega arith;
  expiry = omega arith;
  spent = omega arith;
  parent = refl;
  agent = refl;
  revoked = inl l.not_revoked;
  bounded = elim (Bool-cases (amount == 0)) [
    | inl e ↦ inr (ground (arith, e), refl)
    | inr e ↦ inl (ground (arith, e, l.headroom))
  ];
}

Change-store_all :
    (t : Tree) (chain : List Node) (amount : ℕ) (now : ℤ) (k : Pubkey)
    → All (Loaded t) chain
    → All (IsLive amount now) chain
    → Change t (store_all t (map (spent_node amount) chain)) k
Change-store_all t [] amount now k l v = inl refl
Change-store_all t (node ∷ rest) amount now k l v = elim (Bool-cases (k == node.key)) [
  | inl e ↦
      let same : k ≡ node.key = ground (arith, e) in
      inr (
        inl (
          node.value,
          (spent_node amount node).value,
          ap t same ∙ l.0,
          ground (arith, e),
          spent-Later amount now node v.0,
        ))
  | inr e ↦ rw e (Change-store_all t rest amount now k l.1 v.1)
]

Change-store :
    (t : Tree) (at : Pubkey) (before after : SubGrant) (k : Pubkey)
    → t at ≡ some before
    → Later before after
    → Change t (store t at after) k
Change-store t at before after k loaded l = elim (Bool-cases (k == at)) [
  | inl e ↦
      let same : k ≡ at = ground (arith, e) in
      inr (inl (before, after, ap t same ∙ loaded, ground (arith, e), l))
  | inr e ↦ inl (ground (arith, e))
]

-- A step changes an address not at all, to a later form of what stands there, or from nothing to a
-- sub-grant within its cap.
pub Step-Change : (t u : Tree) (k : Pubkey) → Step t u → Change t u k
Step-Change t u k (issuing s rt ctx agent cap expires_at w w' sg above free h) =
    let i = issue-IsIssued rt ctx agent cap expires_at w w' sg h in
    elim (Bool-cases (k == ctx.sub_grant)) [
      | inl e ↦
          let same : k ≡ ctx.sub_grant = ground (arith, e) in
          inr (inr (sg, ap s same ∙ free, ground (arith, e), omega (arith, i.unspent)))
      | inr e ↦ inl (ground (arith, e))
    ]
Step-Change t u k (revising s rt ctx cap expires_at w w' sg loaded h) =
    let (_, n, b) = revise-Narrows rt ctx cap expires_at w w' sg h in
    Change-store s ctx.sub_grant.key ctx.sub_grant.value sg k loaded
      (Narrows-Later ctx.sub_grant.value sg n (inl b))
Step-Change t u k (revoking s rt ctx w w' sg loaded h) =
    let (_, _, _, cap, _, n) = revoke-Narrows rt ctx w w' sg h in
    Change-store s ctx.sub_grant.key ctx.sub_grant.value sg k loaded
      (Narrows-Later ctx.sub_grant.value sg n (inr (n.spent, cap)))
Step-Change t u k (spending s chain metered spender amount now loaded walked h) =
    let c = (walk_iff chain spender amount now).0 walked in
    subst (λ m. Change s (store_all s m) k) (sym (meter_all_inv chain metered amount h))
      (Change-store_all s chain amount now k loaded c.live)
