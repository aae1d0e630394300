-- ===== src/Program/Authority.antt =====
-- Every instruction of lib.rs with who may send it (programs/grok_chain_intents/src/lib.rs).
use grokchain_programs.Program.Request.{Request}
use grokchain_programs.Subscription.Pay
use grokchain_programs.Subscription.Pay.{PaySubscription, check_pay}
use grokchain_programs.Runtime.World.{World, Runtime}
