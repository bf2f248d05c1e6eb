-- ===== src/Admin/Saves.antt =====
-- What a change of the configuration in src/http_admin.rs does to the running program and to its file.
use mathlib.Core.Bool.{false≢true}
use shelly_multiplexer.Prelude.{
  ◌≡◌, ◌≢◌, ◌⊎◌, ◌&&◌, refl, sym, ◌∙◌, ap, Bool, true, false, not, Option, none, some, String,
  arith, string_key, ◌==◌, inl, inr, Bool-cases, on_each,
}
use shelly_multiplexer.Prelude.Text.{is_blank, is_empty}
use shelly_multiplexer.Double.{Double}
use shelly_multiplexer.Config.Types.{Config}
use shelly_multiplexer.Config.Validate.{validate}
use shelly_multiplexer.State.Activity.{refresh_activity}
use shelly_multiplexer.Admin.{
  Surroundings, AdminCtx, Reply, ok, inject_token, drop_token, start_token, with_token,
  apply_new_config,
}

is_empty-is_blank : (s : String) → is_empty s ≡ true → is_blank s ≡ true
unfolding is_blank
is_empty-is_blank String.[] e = refl
is_empty-is_blank (String.◌∷◌ c s) e = ground (arith, e)

on_eq :
    {A B : Type 0} (P : B → Type 0) (o : Option A) {x : B} {f : A → B}
    → (o ≡ none → P x)
    → ((a : A) → o ≡ some a → P (f a))
    → P (elim o [ none ↦ x | some a ↦ f a ])
on_eq P none n s = n refl
on_eq P (some a) n s = s a refl

and_false : (a b : Bool) → (a && not b) ≡ false → b ≡ false → a ≡ false
and_false a b e no_b = ground (arith, e, no_b)

module _ {W : Type 0} where
  no_token :
      (env : String) (c : Config W)
      → is_empty env ≡ true
      → start_token (some env) (drop_token (some env) c) ≡ c
  unfolding drop_token start_token
  no_token env c e = rw e refl

  token_back :
      (env : String) (c : Config W)
      → is_empty env ≡ false
      → (is_blank c.home_assistant.token ≡ false) ⊎ (c.home_assistant.token ≡ env)
      → start_token (some env) (drop_token (some env) c) ≡ c
  unfolding drop_token start_token
  token_back env c some_env (inr same) =
      let found : (c.home_assistant.token == env) ≡ true = (string_key.beq_iff _ _).1 same in
      rw (some_env, found) (ap (λ t. with_token t c) (sym same))
  token_back env c some_env (inl filled) = elim (Bool-cases (c.home_assistant.token == env)) [
    | inl found ↦
        rw (some_env, found) (ap (λ t. with_token t c) (sym ((string_key.beq_iff _ _).0 found)))
    | inr other ↦
        let not_empty : is_empty c.home_assistant.token ≡ false =
          ground (arith, filled, is_empty-is_blank c.home_assistant.token) in
        rw (some_env, other, not_empty) refl
  ]

  no_env : (c : Config W) → start_token none (drop_token none c) ≡ c
  unfolding drop_token start_token
  no_env c = refl

  -- A start that takes the token from the environment again gets the live configuration back.
  start_token-drop_token :
      (env : Option String) (cfg : Config W)
      → start_token env (drop_token env (inject_token env cfg)) ≡ inject_token env cfg
  unfolding inject_token
  start_token-drop_token none cfg = no_env cfg
  start_token-drop_token (some env) cfg = elim (Bool-cases (is_empty env)) [
    | inl e ↦ no_token env _ e
    | inr some_env ↦
        on_each (λ (c : Config W). start_token (some env) (drop_token (some env) c) ≡ c)
          (is_blank cfg.home_assistant.token && not (is_empty env))
          (λ blank. token_back env (with_token env cfg) some_env (inr refl))
          (λ filled. token_back env cfg some_env (inl (and_false _ _ filled some_env)))
  ]

  drop_token_hides :
      (env : String) (cfg : Config W)
      → is_empty env ≡ false
      → (drop_token (some env) cfg).home_assistant.token ≢ env
  unfolding drop_token
  drop_token_hides env cfg some_env =
      on_each (λ (c : Config W). c.home_assistant.token ≢ env)
        (not (is_empty env) && (cfg.home_assistant.token == env))
        (λ here e. absurd (false≢true (sym some_env ∙ ap is_empty (sym e))))
        (λ other e.
          let found : (cfg.home_assistant.token == env) ≡ true = (string_key.beq_iff _ _).1 e in
          absurd (false≢true (sym other ∙ rw (some_env, found) refl)))

module _ {W : Type 0} ⦃d : Double W⦄ where
  -- The program after a change: the new configuration is valid and live, with the environment's token
  -- where it has none; the file holds the text of a configuration that does not have that token, and
  -- from which a start gets the live configuration back; and the batteries are active as it says.
  pub record IsSaved (is_socket_addr : String → Bool) (around : Surroundings W) (new_cfg : Config W)
      (before after : AdminCtx W) : Type 0 where
    pub valid : validate is_socket_addr new_cfg ≡ none
    pub live : after.config ≡ inject_token around.env_token new_cfg
    pub active : after.state ≡ refresh_activity before.state after.config
    pub disk : Config W
    pub file : around.to_toml disk ≡ some after.file
    pub restarts : start_token around.env_token disk ≡ after.config
    pub hidden :
        (env : String)
        → around.env_token ≡ some env
        → is_empty env ≡ false
        → disk.home_assistant.token ≢ env

  abbrev Outcome :
      (String → Bool) → Surroundings W → Config W → AdminCtx W → Reply × AdminCtx W → Type 0
  Outcome is_socket_addr around new_cfg ctx r =
      ((r.0 ≡ ok) × IsSaved is_socket_addr around new_cfg ctx r.1) ⊎ ((r.0 ≢ ok) × (r.1 ≡ ctx))

  saved :
      (is_socket_addr : String → Bool) (around : Surroundings W) (new_cfg : Config W)
      (ctx : AdminCtx W) (text : String)
      → validate is_socket_addr new_cfg ≡ none
      → let injected = inject_token around.env_token new_cfg in
        around.to_toml (drop_token around.env_token injected) ≡ some text
        → IsSaved is_socket_addr around new_cfg ctx
            (record { state = refresh_activity ctx.state injected; config = injected; file = text })
  saved is_socket_addr around new_cfg ctx text valid written =
      let injected = inject_token around.env_token new_cfg in
      record {
        valid = valid;
        live = refl;
        active = refl;
        disk = drop_token around.env_token injected;
        file = written;
        restarts = start_token-drop_token around.env_token new_cfg;
        hidden = λ env here some_env. rw here (drop_token_hides env _ some_env);
      }

  -- Every change of the configuration either is done completely or changes nothing: it is done exactly
  -- where the response is `ok`.
  pub apply_new_config-IsSaved :
      (is_socket_addr : String → Bool) (around : Surroundings W) (new_cfg : Config W)
      (ctx : AdminCtx W)
      → let r = apply_new_config is_socket_addr around new_cfg ctx in
        ((r.0 ≡ ok) × IsSaved is_socket_addr around new_cfg ctx r.1) ⊎ ((r.0 ≢ ok) × (r.1 ≡ ctx))
  unfolding apply_new_config
  apply_new_config-IsSaved is_socket_addr around new_cfg ctx =
      let Good : Reply × AdminCtx W → Type 0 = Outcome is_socket_addr around new_cfg ctx in
      let injected = inject_token around.env_token new_cfg in
      let for_disk = drop_token around.env_token injected in
      on_eq Good (validate is_socket_addr new_cfg)
        (λ valid.
          on_eq Good (around.to_toml for_disk) (λ none_e. inr (ground arith, refl))
            (λ text written.
              on_each Good (not around.writes) (λ unwritten. inr (ground arith, refl))
                (λ on_tmp.
                  on_each Good (not around.renames) (λ unrenamed. inr (ground arith, refl))
                    (λ renamed.
                      inl (refl, saved is_socket_addr around new_cfg ctx text valid written)))))
        (λ e bad. inr (ground arith, refl))
