-- ===== src/Examples/Delegation.antt =====
-- Sub-grants on the small chain.
use grokchain_programs.Base.{
  ◌≤◌, ◌≡◌, ◌↔◌, refl, true, false, List, [], ◌∷◌, some, arith, All, Bool-cases, inl, inr, none,
  ◌≢◌, if◌then◌else◌, ◌==◌, map, pos,
}
use grokchain_programs.Examples.Chain.{chain, world, world_after, grant, grok, signer, hash}
use grokchain_programs.State.{SubGrant}
use grokchain_programs.SubGrants.Attenuation.{
  issue-IsIssued, IsIssued, issue_ignores_parents_account,
}
use grokchain_programs.SubGrants.Narrowing.{revise-Narrows, revoke-Narrows, Narrows, IsManager}
use grokchain_programs.SubGrants.Chain.{Node, walk_and_meter, walk_from, meter_all}
use grokchain_programs.SubGrants.Issue.{IssueSubGrant, issue, check_issue, new_sub_grant, authority}
use grokchain_programs.SubGrants.Manage.{ManageSubGrant, check_manage, revise, revoke}
use grokchain_programs.SubGrants.Tree.{Tree, store, Reach, here, next, revoking}
use grokchain_programs.SubGrants.Steps.{Later}
use grokchain_programs.SubGrants.History.{Reach-Later, Reach-within_cap, Reach-revoked}
use grokchain_programs.SubGrants.Walk.{walk_iff, walk-meter, IsChain, IsBounded, spent_node}
use grokchain_programs.Runtime.Address.{Pubkey, text, address}
use grokchain_programs.Runtime.World.{ok}

-- Agent 20 has delegated to 21, and 21 delegates to 22.
abbrev parent : Node
parent = record {
  key = hash (text "sub-grant" ∷ address grok.key ∷ address 21 ∷ []);
  value = record {
    grok_account = grok.key;
    parent = 0;
    issuer = 20;
    agent = 21;
    cap = 1_000;
    spent = 100;
    expires_at = pos 1_750_000_000;
    revoked = false;
    depth = 1;
    generation = 1;
    bump = 255;
  };
}

abbrev child : SubGrant
child = record {
  grok_account = grok.key;
  parent = parent.key;
  issuer = 21;
  agent = 22;
  cap = 500;
  spent = 0;
  expires_at = pos 1_740_000_000;
  revoked = false;
  depth = 2;
  generation = 1;
  bump = 255;
}

abbrev child_node : Node
child_node = record {
  key = hash (text "sub-grant" ∷ address grok.key ∷ address 22 ∷ []);
  value = child;
}

abbrev issuing : IssueSubGrant
issuing = record {
  issuer = signer 21;
  payer = signer 30;
  grok_account = grok;
  grant = grant;
  parent = some parent;
  sub_grant = child_node.key;
  bump = 255;
}

issue_succeeds :
    issue chain issuing 22 500 (pos 1_740_000_000) world
    ≡ ok (child, world_after (issue chain issuing 22 500 (pos 1_740_000_000) world))
unfolding issue check_issue new_sub_grant authority
issue_succeeds = refl

issue-IsIssued_example : IsIssued chain issuing 22 500 (pos 1_740_000_000) child
issue-IsIssued_example =
    issue-IsIssued chain issuing 22 500 (pos 1_740_000_000) world
      (world_after (issue chain issuing 22 500 (pos 1_740_000_000) world)) child issue_succeeds

-- The parent may as well belong to account 12345.
issue_ignores_parents_account_example :
    issue chain (record issuing { parent = some parent }) 22 500 (pos 1_740_000_000) world
    ≡ issue chain
        (record issuing {
          parent = some (record parent { value = record parent.value { grok_account = 12_345 } });
        })
        22
        500
        (pos 1_740_000_000)
        world
issue_ignores_parents_account_example =
    issue_ignores_parents_account chain issuing parent 12_345 22 500 (pos 1_740_000_000) world

abbrev managing : ManageSubGrant
managing = record { authority = signer 10; grok_account = grok; sub_grant = parent }

abbrev revised : SubGrant
revised = record parent.value { cap = 400; expires_at = pos 1_745_000_000 }

revise_succeeds :
    revise chain managing 400 (pos 1_745_000_000) world
    ≡ ok (revised, world_after (revise chain managing 400 (pos 1_745_000_000) world))
unfolding revise check_manage
revise_succeeds = refl

revise-Narrows_example : IsManager chain managing × Narrows parent.value revised × (100 ≤ 400)
revise-Narrows_example =
    revise-Narrows chain managing 400 (pos 1_745_000_000) world
      (world_after (revise chain managing 400 (pos 1_745_000_000) world)) revised revise_succeeds

abbrev revoked : SubGrant
revoked = record parent.value { revoked = true; generation = 2 }

revoke_succeeds :
    revoke chain managing world ≡ ok (revoked, world_after (revoke chain managing world))
unfolding revoke check_manage
revoke_succeeds = refl

revoke-Narrows_example :
    IsManager chain managing
    × (false ≡ false)
    × (true ≡ true)
    × (revoked.cap ≡ parent.value.cap)
    × (revoked.expires_at ≡ parent.value.expires_at)
    × Narrows parent.value revoked
revoke-Narrows_example =
    revoke-Narrows chain managing world (world_after (revoke chain managing world)) revoked
      revoke_succeeds

abbrev path : List Node
path = child_node ∷ parent ∷ []

walk_succeeds : walk_and_meter path 22 300 (pos 1_700_000_000) ≡ ok tt
unfolding walk_and_meter walk_from
walk_succeeds = refl

walk_iff_example :
    (walk_and_meter path 22 300 (pos 1_700_000_000) ≡ ok tt)
    ↔ IsChain 22 300 (pos 1_700_000_000) path
walk_iff_example = walk_iff path 22 300 (pos 1_700_000_000)

walk-meter_example :
    (meter_all path 300 ≡ ok (map (spent_node 300) path))
    × All IsBounded (map (spent_node 300) path)
walk-meter_example =
    walk-meter path 22 300 (pos 1_700_000_000)
      ((omega arith, omega arith), ((omega arith, omega arith), tt)) walk_succeeds

-- The account of agent 21 is revoked by the root, in a tree that holds it and its child.
abbrev before : Tree
before = λ k.
    if k == parent.key then some parent.value else if k == child_node.key then some child else none

abbrev after : Tree
after = store before parent.key revoked

history : Reach before after
history = next before before after (here before) (
    revoking before chain managing world (world_after (revoke chain managing world)) revoked refl
      revoke_succeeds)

Reach-Later_example : (sg' : SubGrant) × (after parent.key ≡ some sg') × Later parent.value sg'
Reach-Later_example = Reach-Later before after parent.key parent.value refl history

within : (j : Pubkey) (s : SubGrant) → before j ≡ some s → s.spent ≤ s.cap
within j s e = elim (Bool-cases (j == parent.key)) [
  | inl p ↦ ground (arith, e, p)
  | inr p ↦ elim (Bool-cases (j == child_node.key)) [
    | inl c ↦ ground (arith, e, p, c)
    | inr c ↦ ground (arith, e, p, c)
  ]
]

Reach-within_cap_example : revoked.spent ≤ revoked.cap
Reach-within_cap_example = Reach-within_cap before after parent.key revoked within history refl

-- Agent 23 is independent of the revoked one.
abbrev other : Node
other = record {
  key = hash (text "sub-grant" ∷ address grok.key ∷ address 23 ∷ []);
  value = record parent.value { agent = 23 };
}

abbrev wider : Tree
wider = store after other.key other.value

other_walks : walk_and_meter (other ∷ []) 23 300 (pos 1_700_000_000) ≡ ok tt
unfolding walk_and_meter walk_from
other_walks = refl

Reach-revoked_example : All (λ node. node.key ≢ parent.key) (other ∷ [])
Reach-revoked_example =
    Reach-revoked wider wider parent.key revoked (other ∷ []) 23 300 (pos 1_700_000_000) refl refl
      (here wider) (refl, tt) other_walks
