-- ===== src/Admin.antt =====
-- src/http_admin.rs: the change of the configuration by the web page, and what src/main.rs does with
-- the token at the start. The TOML writer, the
-- environment and the file system are the program's surroundings, so the text of a configuration, the
-- value of SUPERVISOR_TOKEN and whether each file operation succeeds are parameters.
pub mod Saves
use shelly_multiplexer.Prelude.{
  Bool, true, false, not, ◌&&◌, Option, none, some, String, if◌then◌else◌, string_key, ◌==◌,
}
use shelly_multiplexer.Prelude.Text.{is_blank, is_empty}
use shelly_multiplexer.Double.{Double}
use shelly_multiplexer.Config.Types.{Config}
use shelly_multiplexer.Config.Validate.{ConfigError, validate}
use shelly_multiplexer.State.{AppState}
use shelly_multiplexer.State.Activity.{refresh_activity}

-- What the surroundings do: the environment's token, the TOML writer, and the two file operations.
pub record Surroundings (W : Type 0) : Type 0 where
  pub env_token : Option String
  pub to_toml : Config W → Option String
  pub writes : Bool
  pub renames : Bool

-- The context of a request: the shared state, the live configuration and the file of it. The
-- temporary file beside that one is not looked at.
pub record AdminCtx (W : Type 0) : Type 0 where
  pub state : AppState W
  pub config : Config W
  pub file : String

-- The responses of `apply_new_config`.
pub data Reply : Type 0 where
  ok : Reply
  invalid : ConfigError → Reply
  not_serialised not_written not_renamed : Reply

module _ {W : Type 0} where
  abbrev pub with_token : String → Config W → Config W
  with_token token cfg = record cfg { home_assistant = record cfg.home_assistant { token = token } }

  -- A configuration without a token takes the environment's.
  unfoldable pub inject_token : Option String → Config W → Config W
  inject_token none cfg = cfg
  inject_token (some env) cfg =
      if is_blank cfg.home_assistant.token && not (is_empty env) then with_token env cfg else cfg

  -- The environment's token is taken out again.
  unfoldable pub drop_token : Option String → Config W → Config W
  drop_token none cfg = cfg
  drop_token (some env) cfg =
      if not (is_empty env) && (cfg.home_assistant.token == env) then with_token "" cfg else cfg

  -- The same at the start of the program, in `main`.
  unfoldable pub start_token : Option String → Config W → Config W
  start_token none cfg = cfg
  start_token (some env) cfg =
      if not (is_empty env) && is_empty cfg.home_assistant.token then with_token env cfg else cfg

  -- The configuration that `api_get_config` shows.
  unfoldable pub get_config : Surroundings W → AdminCtx W → Config W
  unfolding drop_token
  get_config around ctx = drop_token around.env_token ctx.config

module _ {W : Type 0} ⦃d : Double W⦄ where
  unfoldable pub apply_new_config :
      (String → Bool) → Surroundings W → Config W → AdminCtx W → Reply × AdminCtx W
  unfolding inject_token drop_token
  apply_new_config is_socket_addr around new_cfg ctx =
      let injected = inject_token around.env_token new_cfg in
      elim (validate is_socket_addr new_cfg) [
        | some e ↦ (invalid e, ctx)
        | none ↦ elim (around.to_toml (drop_token around.env_token injected)) [
          | none ↦ (not_serialised, ctx)
          | some text ↦
              if not around.writes
              then (not_written, ctx)
              else if not around.renames
              then (not_renamed, ctx)
              else (
                ok,
                record {
                  state = refresh_activity ctx.state injected;
                  config = injected;
                  file = text;
                },
              )
        ]
      ]
