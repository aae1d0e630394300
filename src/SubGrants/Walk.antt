-- ===== src/SubGrants/Walk.antt =====
-- The walk accepts exactly the chains that the documentation describes.
use grokchain_programs.Base.{
  ℕ, ◌+◌, ◌-◌, ◌≤◌, ◌<◌, ◌≡◌, ◌↔◌, refl, ℤ, ◌<ℤ◌, false, Option, none, some, List, [], ◌∷◌, length,
  arith, All, map, u64_size,
}
use grokchain_programs.SubGrants.Issue.{max_sub_depth}
use grokchain_programs.SubGrants.Chain.{Node, walk_from, walk_and_meter, meter_all}
use grokchain_programs.Runtime.Address.{Pubkey, default_pubkey}
use grokchain_programs.Runtime.World.{ok}

-- A node that lets an amount pass at a time.
pub record IsLive (amount : ℕ) (now : ℤ) (node : Node) : Type 0 where
  pub not_revoked : node.value.revoked ≡ false
  pub not_expired : now <ℤ node.value.expires_at
  pub headroom : amount ≤ node.value.cap - node.value.spent

-- Each node's parent is the next, and the last has no parent but CORE's grant.
abbrev pub Links : List Node → Type 0
Links [] = Unit {0}
Links (node ∷ []) = node.value.parent ≡ default_pubkey
Links (node ∷ above ∷ rest) = (node.value.parent ≡ above.key) × Links (above ∷ rest)

-- The first node is the spender's own.
abbrev pub HeldBy : Pubkey → List Node → Type 0
HeldBy spender [] = ⊥
HeldBy spender (leaf ∷ rest) = leaf.value.agent ≡ spender

-- How a node is reached: it is the spender's own, or the parent of the node below.
abbrev Linked : Pubkey → Option Node → Node → Type 0
Linked spender none node = node.value.agent ≡ spender
Linked spender (some below) node = below.value.parent ≡ node.key

module _ (spender : Pubkey) (amount : ℕ) (now : ℤ) where
  walk_from_sound :
      (below : Option Node) (node : Node) (rest : List Node)
      → walk_from spender amount now below (node ∷ rest) ≡ ok tt
      → Linked spender below node × All (IsLive amount now) (node ∷ rest) × Links (node ∷ rest)
  unfolding walk_from
  walk_from_sound none node [] h = ground arith
  walk_from_sound (some below) node [] h = ground arith
  walk_from_sound none node (above ∷ rest) h =
      ground (arith, walk_from_sound (some node) above rest)
  walk_from_sound (some below) node (above ∷ rest) h =
      ground (arith, walk_from_sound (some node) above rest)

  walk_from_complete :
      (below : Option Node) (node : Node) (rest : List Node)
      → Linked spender below node
      → All (IsLive amount now) (node ∷ rest)
      → Links (node ∷ rest)
      → walk_from spender amount now below (node ∷ rest) ≡ ok tt
  unfolding walk_from
  walk_from_complete none node [] l a k = ground arith
  walk_from_complete (some below) node [] l a k = ground arith
  walk_from_complete none node (above ∷ rest) l a k =
      ground (arith, walk_from_complete (some node) above rest k.0 a.1 k.1)
  walk_from_complete (some below) node (above ∷ rest) l a k =
      ground (arith, walk_from_complete (some node) above rest k.0 a.1 k.1)

-- The chains that a spend may use: the spender's own sub-grant first, each node live and followed by
-- its parent, up to one that hangs off CORE's grant, at most three in all.
pub record IsChain (spender : Pubkey) (amount : ℕ) (now : ℤ) (chain : List Node) : Type 0 where
  pub held : HeldBy spender chain
  pub live : All (IsLive amount now) chain
  pub links : Links chain
  pub short : length chain ≤ max_sub_depth

-- `walk_and_meter` succeeds exactly on the chains of `IsChain`: the spender's own sub-grant first,
-- each node live with room for the amount and followed by its parent, up to one that hangs off
-- CORE's grant, at most three in all.
pub walk_iff :
    (chain : List Node) (spender : Pubkey) (amount : ℕ) (now : ℤ)
    → (walk_and_meter chain spender amount now ≡ ok tt) ↔ IsChain spender amount now chain
unfolding walk_and_meter
walk_iff [] spender amount now = (λ h. cc, λ c. absurd c.held)
walk_iff (leaf ∷ rest) spender amount now = (
  λ h.
      let (l, a, k) = walk_from_sound spender amount now none leaf rest (ground arith) in
      record { held = l; live = a; links = k; short = ground arith },
  λ c.
      let e = walk_from_complete spender amount now none leaf rest c.held c.live c.links in
      let s = c.short in ground arith,
)

-- A node after a spend.
abbrev pub spent_node : ℕ → Node → Node
spent_node amount node = record node {
  value = record node.value { spent = node.value.spent + amount };
}

-- Metering adds the amount to every node of the chain, unless a counter would overflow.
pub meter_all-map :
    (amount : ℕ) (chain : List Node)
    → All (λ node. node.value.spent + amount < u64_size) chain
    → meter_all chain amount ≡ ok (map (spent_node amount) chain)
unfolding meter_all
meter_all-map amount [] h = refl
meter_all-map amount (node ∷ rest) h = ground (arith, meter_all-map amount rest h.1)

-- The accounts' own bounds: the cap is a u64, and no more than the cap is spent.
abbrev pub IsBounded : Node → Type 0
IsBounded node = (node.value.cap < u64_size) × (node.value.spent ≤ node.value.cap)

All-fits :
    (amount : ℕ) (now : ℤ) (chain : List Node)
    → All (IsLive amount now) chain
    → All IsBounded chain
    → All (λ node. node.value.spent + amount < u64_size) chain
All-fits amount now [] l b = tt
All-fits amount now (node ∷ rest) l b =
    (omega (arith, l.0.headroom, b.0), All-fits amount now rest l.1 b.1)

All-IsBounded_spent :
    (amount : ℕ) (now : ℤ) (chain : List Node)
    → All (IsLive amount now) chain
    → All IsBounded chain
    → All IsBounded (map (spent_node amount) chain)
All-IsBounded_spent amount now [] l b = tt
All-IsBounded_spent amount now (node ∷ rest) l b =
    (omega (arith, l.0.headroom, b.0), All-IsBounded_spent amount now rest l.1 b.1)

-- Once the walk has passed, on nodes whose cap is a u64 and that are within their caps, metering
-- cannot fail halfway: every node of the chain is charged the amount, and every one is still within
-- its cap.
pub walk-meter :
    (chain : List Node) (spender : Pubkey) (amount : ℕ) (now : ℤ)
    → All IsBounded chain
    → walk_and_meter chain spender amount now ≡ ok tt
    → (meter_all chain amount ≡ ok (map (spent_node amount) chain))
      × All IsBounded (map (spent_node amount) chain)
walk-meter chain spender amount now b h =
    let c = (walk_iff chain spender amount now).0 h in
    (
      meter_all-map amount chain (All-fits amount now chain c.live b),
      All-IsBounded_spent amount now chain c.live b,
    )
