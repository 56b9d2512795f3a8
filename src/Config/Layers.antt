-- ===== src/Config/Layers.antt =====
-- `Load` and `applyEnv` of config/config.go: how the environment lies over the file.
use mathlib.Core.Path.{subst}
use zeus_dns_cli.Base.{
  ◌≡◌, ◌≢◌, ◌↔◌, ◌⊎◌, refl, Bool, some, List, [], arith, Text, codes, List-cases, Option-cases, ok,
  >>=-eq-ok, ok_inj,
}
use zeus_dns_cli.Base.Int.{ℤ}
use zeus_dns_cli.Config.{
  Config, ConfigError, bad_port_env, bad_cache_env, atoi, split_csv, parse_bool, env_text, env_list,
  env_bool, env_int, apply_env,
}

module _ (env : Text → Text) where
  -- A setting under its variable: the old value where the variable is empty or unset, otherwise
  -- what `reads` makes of its text.
  abbrev pub Over : {A : Type 0} → (Text → A → Type 0) → Text → A → A → Type 0
  Over reads name old new =
      ((env name ≡ []) × (new ≡ old)) ⊎ ((env name ≢ []) × reads (env name) new)

  abbrev pub ReadsText : Text → Text → Type 0
  ReadsText v new = new ≡ v

  abbrev pub ReadsList : Text → List Text → Type 0
  ReadsList v new = new ≡ split_csv v

  abbrev pub ReadsBool : Text → Bool → Type 0
  ReadsBool v new = new ≡ parse_bool v

  abbrev pub ReadsInt : Text → ℤ → Type 0
  ReadsInt v new = atoi v ≡ some new

  -- The configuration `d` is `c` under the environment.
  pub record IsOverlaid (c d : Config) : Type 0 where
    pub upstreams : Over ReadsList (codes "ZEUSDNS_UPSTREAMS") c.upstreams d.upstreams
    pub ip : Over ReadsText (codes "ZEUSDNS_LISTENER_IP") c.listener.ip d.listener.ip
    pub port : Over ReadsInt (codes "ZEUSDNS_LISTENER_PORT") c.listener.port d.listener.port
    pub cache_size : Over ReadsInt (codes "ZEUSDNS_CACHE_SIZE") c.cache_size d.cache_size
    pub level : Over ReadsText (codes "ZEUSDNS_LOG_LEVEL") c.log.level d.log.level
    pub path : Over ReadsText (codes "ZEUSDNS_LOG_PATH") c.log.path d.log.path
    pub set_system_dns :
        Over ReadsBool
          (codes "ZEUSDNS_WINDOWS_SET_SYSTEM_DNS")
          c.windows.set_system_dns
          d.windows.set_system_dns
    pub wfp_loopback_protect :
        Over ReadsBool
          (codes "ZEUSDNS_WINDOWS_WFP_LOOPBACK_PROTECT")
          c.windows.wfp_loopback_protect
          d.windows.wfp_loopback_protect

  env_text-Over :
      (name old new : Text) → (env_text env name old ≡ new) ↔ Over ReadsText name old new
  unfolding env_text
  env_text-Over name old new = ground (arith, List-cases (env name))

  env_list-Over :
      (name : Text) (old new : List Text)
      → (env_list env name old ≡ new) ↔ Over ReadsList name old new
  unfolding env_list
  env_list-Over name old new = ground (arith, List-cases (env name))

  env_bool-Over :
      (name : Text) (old new : Bool) → (env_bool env name old ≡ new) ↔ Over ReadsBool name old new
  unfolding env_bool
  env_bool-Over name old new = ground (arith, List-cases (env name))

  env_int-Over :
      (name : Text) (e : ConfigError) (old new : ℤ)
      → (env_int env name e old ≡ ok new) ↔ Over ReadsInt name old new
  unfolding env_int
  env_int-Over name e old new =
      ground (arith, List-cases (env name), Option-cases (atoi (env name)))

  -- `applyEnv` gives exactly the configuration in which each of the eight settings is the one of
  -- its variable where that is not empty, and as before where it is; it fails where there is no
  -- such configuration, that is where a number's variable holds none.
  pub apply_env-IsOverlaid : (c d : Config) → (apply_env env c ≡ ok d) ↔ IsOverlaid c d
  unfolding apply_env
  apply_env-IsOverlaid c d = (
    λ h.
        let (port, made_port, h1) = >>=-eq-ok _ _ h in
        let (size, made_size, h2) = >>=-eq-ok _ _ h1 in
        subst (λ x. IsOverlaid c x) (ok_inj h2)
          (record {
            upstreams = (env_list-Over _ _ _).0 refl;
            ip = (env_text-Over _ _ _).0 refl;
            port = (env_int-Over _ _ _ port).0 made_port;
            cache_size = (env_int-Over _ _ _ size).0 made_size;
            level = (env_text-Over _ _ _).0 refl;
            path = (env_text-Over _ _ _).0 refl;
            set_system_dns = (env_bool-Over _ _ _).0 refl;
            wfp_loopback_protect = (env_bool-Over _ _ _).0 refl;
          }),
    λ o.
        simp
          (
            (env_int-Over _ (bad_port_env (env (codes "ZEUSDNS_LISTENER_PORT"))) _ _).1 o.port,
            (env_int-Over _ (bad_cache_env (env (codes "ZEUSDNS_CACHE_SIZE"))) _ _).1 o.cache_size,
            (env_list-Over _ _ _).1 o.upstreams,
            (env_text-Over _ _ _).1 o.ip,
            (env_text-Over _ _ _).1 o.level,
            (env_text-Over _ _ _).1 o.path,
            (env_bool-Over _ _ _).1 o.set_system_dns,
            (env_bool-Over _ _ _).1 o.wfp_loopback_protect,
          )
          refl,
  )
