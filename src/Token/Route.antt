-- ===== src/Token/Route.antt =====
-- The instruction that is sent to Jupiter (`build_jupiter_ix` of token.rs).
use grokchain_programs.Base.{ℕ, true, not, ◌==◌, List, [], ◌∷◌, map, contains, if◌then◌else◌}
use grokchain_programs.Errors.{jupiter_empty_data_forbidden, pump_user_must_be_trader}
use grokchain_programs.Constants.{jupiter_v6_program_id}
use grokchain_programs.CoreCpi.{writable, readonly}
use grokchain_programs.Policy.Jupiter.{is_empty, require_nonempty_jupiter_data}
use grokchain_programs.Runtime.Address.{Pubkey}
use grokchain_programs.Runtime.World.{AccountInfo, AccountMeta, Instruction, Result, ok}
use grokchain_programs.Runtime.Check.{◌>>◌, require}

-- An account handed on with the flags that it has in the transaction.
abbrev pub meta_of : AccountInfo → AccountMeta
meta_of a = if a.is_writable then writable a.key a.is_signer else readonly a.key a.is_signer

-- The accounts handed on: the trader signs, the others keep their flags.
abbrev pub jupiter_metas : List AccountInfo → Pubkey → List AccountMeta
jupiter_metas [] trader = []
jupiter_metas (a ∷ rest) trader =
    (if a.key == trader then writable trader true else meta_of a) ∷ jupiter_metas rest trader

abbrev pub route_ix : List AccountInfo → Pubkey → List ℕ → Instruction
route_ix remaining trader payload = record {
  program_id = jupiter_v6_program_id;
  accounts = jupiter_metas remaining trader;
  payload = payload;
}

unfoldable pub build_jupiter_ix : List AccountInfo → Pubkey → List ℕ → Result Instruction
build_jupiter_ix remaining trader payload = do
  require (not (is_empty payload)) jupiter_empty_data_forbidden
  require_nonempty_jupiter_data payload
  require (contains trader (map (λ a. a.key) remaining)) pump_user_must_be_trader
  ok (route_ix remaining trader payload)
