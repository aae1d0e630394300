-- ===== src/Common/Ownership.antt =====
-- The accounts of the program that belong to one grok account: derived from its address, and
-- recording it.
use grokchain_programs.Base.{ℕ, ◌≡◌, String, [], ◌∷◌}
use grokchain_programs.Constants.{intents_id}
use grokchain_programs.Common.Mouth.{seed_grok_account}
use grokchain_programs.Runtime.Address.{Pubkey, text, address}
use grokchain_programs.Runtime.World.{Runtime, Account, GrokAccount}

-- The grok account is the one that CORE derives for its root.
abbrev pub IsAccountOfRoot : Runtime → Account GrokAccount → Type 0
IsAccountOfRoot rt grok =
    grok.key
    ≡ rt.create_program_address (text seed_grok_account ∷ address grok.value.root ∷ [])
        grok.value.bump rt.core_id

-- The account at `k` is the one that the seed and the grok account derive with its bump, and the
-- grok account that it records is that one.
abbrev pub Belongs : Runtime → String → Account GrokAccount → Pubkey → ℕ → Pubkey → Type 0
Belongs rt seed grok k bump recorded =
    (k ≡ rt.create_program_address (text seed ∷ address grok.key ∷ []) bump intents_id)
    × (recorded ≡ grok.key)
