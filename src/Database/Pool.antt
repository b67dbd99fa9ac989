-- ===== src/Database/Pool.antt =====
-- The pool that a connection gets.
use ginblade.Prelude.{◌≡◌, true, arith}
use ginblade.Prelude.Int.{is_positive}
use ginblade.Database.{Config, PoolSettings, normalize_pool_settings}

-- Every limit of the pool is positive.
pub record IsPositive (p : PoolSettings) : Type 0 where
  pub idle : is_positive p.max_idle_conns ≡ true
  pub opens : is_positive p.max_open_conns ≡ true
  pub lifetime : is_positive p.conn_max_lifetime ≡ true
  pub idle_time : is_positive p.conn_max_idle_time ≡ true

-- The same limits, in a configuration.
abbrev pub with_pool : PoolSettings → Config → Config
with_pool p cfg = record cfg {
  max_idle_conns = p.max_idle_conns;
  max_open_conns = p.max_open_conns;
  conn_max_lifetime = p.conn_max_lifetime;
  conn_max_idle_time = p.conn_max_idle_time;
}

normalize_pool_settings-IsPositive : (cfg : Config) → IsPositive (normalize_pool_settings cfg)
unfolding normalize_pool_settings
normalize_pool_settings-IsPositive cfg = ground arith

normalize_pool_settings_of_IsPositive :
    (p : PoolSettings) (cfg : Config) → IsPositive p → normalize_pool_settings (with_pool p cfg) ≡ p
unfolding normalize_pool_settings
normalize_pool_settings_of_IsPositive p cfg h = rw (h.idle, h.opens, h.lifetime, h.idle_time)

-- normalizePoolSettings makes every limit positive, and leaves limits alone that are.
pub normalize_pool_settings_lem :
    (p : PoolSettings) (cfg : Config)
    → IsPositive p
    → IsPositive (normalize_pool_settings cfg) × (normalize_pool_settings (with_pool p cfg) ≡ p)
normalize_pool_settings_lem p cfg h =
    (normalize_pool_settings-IsPositive cfg, normalize_pool_settings_of_IsPositive p cfg h)
