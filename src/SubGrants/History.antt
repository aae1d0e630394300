-- ===== src/SubGrants/History.antt =====
-- What holds of a sub-grant after any instructions, in any order.
use grokchain_programs.Base.{
  ℕ, ◌≤◌, ◌≡◌, ◌≢◌, refl, sym, ap, subst, ◌∙◌, ℤ, true, some, List, [], ◌∷◌, All, arith, inl, inr,
  Bool-cases,
}
use grokchain_programs.State.{SubGrant}
use grokchain_programs.SubGrants.Chain.{Node, walk_and_meter}
use grokchain_programs.SubGrants.Walk.{IsLive, walk_iff}
use grokchain_programs.Runtime.Address.{Pubkey}
use grokchain_programs.Runtime.World.{ok}
use grokchain_programs.SubGrants.Tree.{Tree, Loaded, Reach, here, next}
use grokchain_programs.SubGrants.Steps.{Later, Step-Change}

Later-trans : (a b c : SubGrant) → Later a b → Later b c → Later a c
Later-trans a b c l m = record {
  cap = omega (arith, l.cap, m.cap);
  expiry = omega (arith, l.expiry, m.expiry);
  spent = omega (arith, l.spent, m.spent);
  parent = m.parent ∙ l.parent;
  agent = m.agent ∙ l.agent;
  revoked = ground (arith, l.revoked, m.revoked);
  bounded = ground (arith, l.bounded, m.bounded);
}

-- A sub-grant only narrows: once it stands at an address it stays there, in any order of later
-- instructions, with the same agent and parent, a cap and an expiry that are never raised, a
-- counter that never falls, and a revocation that is never undone.
pub Reach-Later :
    (t u : Tree) (k : Pubkey) (sg : SubGrant)
    → t k ≡ some sg
    → Reach t u
    → (sg' : SubGrant) × (u k ≡ some sg') × Later sg sg'
Reach-Later t u k sg at (here v) = (
  sg,
  at,
  record {
    cap = omega arith;
    expiry = omega arith;
    spent = omega arith;
    parent = refl;
    agent = refl;
    revoked = elim (Bool-cases sg.revoked) [ inl e ↦ inr e | inr e ↦ inl e ];
    bounded = inr (refl, refl);
  },
)
Reach-Later t u k sg at (next t' v u' r s) =
    let (mid, em, lm) = Reach-Later t' v k sg at r in
    elim (Step-Change v u' k s) [
      | inl same ↦ (mid, same ∙ em, lm)
      | inr (inl (b, a, eb, ea, l)) ↦
          let e : mid ≡ b = ground (arith, em, eb) in
          (a, ea, Later-trans sg mid a lm (subst (λ x. Later x a) (sym e) l))
      | inr (inr (_, empty, _, _)) ↦ ground (arith, em, empty)
    ]

-- No sub-grant is ever overspent: if all sub-grants of a tree are within their caps, then so is
-- every one after any instructions.
pub Reach-within_cap :
    (t u : Tree) (k : Pubkey) (sg : SubGrant)
    → ((j : Pubkey) (s : SubGrant) → t j ≡ some s → s.spent ≤ s.cap)
    → Reach t u
    → u k ≡ some sg
    → sg.spent ≤ sg.cap
Reach-within_cap t u k sg within (here v) at = within k sg at
Reach-within_cap t u k sg within (next t' v u' r s) at = elim (Step-Change v u' k s) [
  | inl same ↦ Reach-within_cap t' v k sg within r (sym same ∙ at)
  | inr (inl (b, a, eb, ea, l)) ↦
      let e : a ≡ sg = ground (arith, ea, at) in
      let before = Reach-within_cap t' v k b within r eb in
      subst (λ x. x.spent ≤ x.cap) e (ground (arith, before, l.bounded))
  | inr (inr (a, _, ea, fits)) ↦
      let e : a ≡ sg = ground (arith, ea, at) in subst (λ x. x.spent ≤ x.cap) e fits
]

All-apart :
    (u : Tree) (k : Pubkey) (sg : SubGrant) (amount : ℕ) (now : ℤ) (chain : List Node)
    → u k ≡ some sg
    → sg.revoked ≡ true
    → All (Loaded u) chain
    → All (IsLive amount now) chain
    → All (λ node. node.key ≢ k) chain
All-apart u k sg amount now [] at revoked l v = tt
All-apart u k sg amount now (node ∷ rest) at revoked l v = (
  λ e.
      let same : node.value ≡ sg = ground (arith, sym l.0 ∙ ap u e ∙ at) in
      ground (arith, v.0.not_revoked, ap (λ x. x.revoked) same, revoked),
  All-apart u k sg amount now rest at revoked l.1 v.1,
)

-- Revocation lasts: once a sub-grant is revoked, then after any later instructions a chain of
-- loaded nodes that passes the walk has no node at its address, so that no spend goes through it.
pub Reach-revoked :
    (t u : Tree) (k : Pubkey) (sg : SubGrant) (chain : List Node) (spender : Pubkey) (amount : ℕ)
    (now : ℤ)
    → t k ≡ some sg
    → sg.revoked ≡ true
    → Reach t u
    → All (Loaded u) chain
    → walk_and_meter chain spender amount now ≡ ok tt
    → All (λ node. node.key ≢ k) chain
Reach-revoked t u k sg chain spender amount now at revoked r loaded walked =
    let (later, el, l) = Reach-Later t u k sg at r in
    let c = (walk_iff chain spender amount now).0 walked in
    All-apart u k later amount now chain el (ground (arith, l.revoked, revoked)) loaded c.live
