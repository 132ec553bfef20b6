-- ===== src/Cli.antt =====
-- src/cli: the command line. `Config` has the typed configuration, `Raw` the accumulator and the two
-- option handlers, `Tokens` the tokenizer, `Build` the checks that make a configuration.
pub mod Config
pub mod Raw
pub mod Tokens
pub mod Build
pub mod Refusal
