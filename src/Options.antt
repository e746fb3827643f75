-- ===== src/Options.antt =====
-- options/spreads.py, options/exit_policy.py: quotes, credit spreads, their economics and exits.
pub mod Quotes
pub mod Spread
pub mod Exit
pub mod Events
