-- ===== src/Examples/Tokens.antt =====
-- A token payment on the small chain.
use grokchain_programs.Base.{some}
use grokchain_programs.Constants.{token_program_id, intents_id}
use grokchain_programs.Examples.Billing.{trader, registry}
use grokchain_programs.Examples.Chain.{core, grok, grant, signer, vault, paymaster}
use grokchain_programs.PayToken.{PayToken}
use grokchain_programs.State.{PayTokenArgs}

abbrev payment : PayToken
payment = record {
  agent = signer 20;
  grok_account = grok;
  grant = grant;
  grok_chain_core_program = core;
  intents_program = intents_id;
  spend_vault = vault;
  merchant_registry = registry;
  pump_trader = trader;
  source = 90;
  destination = 91;
  mint = 80;
  token_program = token_program_id;
  reference = some 99;
  paymaster = some paymaster;
  fee_payer = some (signer 30);
}

abbrev amounts : PayTokenArgs
amounts = record { amount = 2_500; decimals = 6; sponsor_lamports = 5_000 }
