-- ===== src/Config/Refusals.antt =====
-- Command lines that config.ts refuses.
use zendesk_mcp_server.Base.{
  ℕ, ◌≤◌, ◌≡◌, inl, inr, false, Option, List, [], ◌∷◌, arith, ltb, Bool-cases, length, number_key,
  text_key, All, ok,
}
use zendesk_mcp_server.Config.{Flag}
use zendesk_mcp_server.Config.Lists.{Gives, and_then-Gives}
use zendesk_mcp_server.Config.Settings.{CliResult}
use zendesk_mcp_server.Config.Flags.{
  FlagValue, is_blank, with_flag, with_flags, start_result, first_positional, cli_of,
  parse_cli_args,
}

abbrev pub NoneBlank : List (Flag × FlagValue) → Type 0
NoneBlank values = All (λ (v : Flag × FlagValue). is_blank v.1 ≡ false) values

with_flags-NoneBlank :
    (values : List (Flag × FlagValue)) (r done : CliResult)
    → with_flags r values ≡ ok done
    → NoneBlank values
unfolding with_flags
with_flags-NoneBlank [] r done h = tt
with_flags-NoneBlank ((flag, value) ∷ values) r done h = elim (Bool-cases (is_blank value)) [
  | inl blank ↦ absurd (ground arith)
  | inr filled ↦ (filled, with_flags-NoneBlank values (with_flag r flag value) done (ground arith))
]

cli_of-NoneBlank :
    (values : List (Flag × FlagValue)) (subdomain : Option (List ℕ))
    → Gives (λ r. NoneBlank values) (cli_of values subdomain)
unfolding cli_of
cli_of-NoneBlank values subdomain =
    and_then-Gives (λ r. NoneBlank values) _ _
      (λ done flags r rest. with_flags-NoneBlank values (start_result subdomain) done flags)

-- A command line with a second positional argument, or with a blank value for a flag (an unset shell
-- variable), is refused, whatever else it holds.
pub parse_cli_args-NoneBlank :
    (values : List (Flag × FlagValue)) (positionals : List (List ℕ)) (r : CliResult)
    → parse_cli_args values positionals ≡ ok r
    → (length positionals ≤ 1) × NoneBlank values
unfolding parse_cli_args
parse_cli_args-NoneBlank values positionals r h = elim (Bool-cases (ltb 1 (length positionals))) [
  | inl several ↦ absurd (ground arith)
  | inr one ↦
      let made : cli_of values (first_positional positionals) ≡ ok r = ground arith in
      (ground arith, cli_of-NoneBlank values (first_positional positionals) r made)
]
