-- ===== src/Store/Redis/Options.antt =====
-- store/redis.go: the options that `NewRedisStore` gives the client. `redis.ParseURL` and
-- `redis.NewUniversalClient` are parameters; a TLS configuration is a number.
use onionguard.Base.{
  ℕ, ◌*◌, Bool, true, false, ◌||◌, ◌&&◌, not, Option, none, List, [], ◌∷◌, ℤ, pos, is_pos, leb_ℤ,
  Bytes, codes, ◌≡◌, ◌⊎◌, inl, inr, Bool-cases, arith, if◌then◌else◌,
}
use onionguard.Base.Strings.{starts_with}
use onionguard.Base.Time.{Duration, second}
use onionguard.Errors.{Err, Result, ok, err, foreign, Result-cases}
use onionguard.Store.Redis.{RedisStore}

pub record RedisConfig : Type 0 where
  pub addr : Bytes
  pub password : Bytes
  pub db : ℤ
  pub prefix : Bytes
  pub dial_timeout : Duration
  pub fail_closed : Bool
  pub max_key_bytes : ℤ
  pub max_value_bytes : ℤ
  pub pool_size : ℤ
  pub min_idle_conns : ℤ
  pub max_retries : ℤ
  pub read_timeout : Duration
  pub write_timeout : Duration
  pub pool_timeout : Duration
  pub sentinel_addrs : List Bytes
  pub sentinel_master : Bytes
  pub sentinel_password : Bytes
  pub cluster_addrs : List Bytes

-- The fields of `redis.Options`, as of a URL, and of `redis.UniversalOptions` that the code sets.
pub record UniversalOptions : Type 0 where
  pub addrs : List Bytes
  pub username : Bytes
  pub password : Bytes
  pub master_name : Bytes
  pub sentinel_password : Bytes
  pub db : ℤ
  pub tls_config : Option ℕ
  pub dial_timeout : Duration
  pub read_timeout : Duration
  pub write_timeout : Duration
  pub pool_size : ℤ
  pub min_idle_conns : ℤ
  pub max_retries : ℤ
  pub pool_timeout : Duration

abbrev pub is_empty : {A : Type 0} → List A → Bool
is_empty [] = true
is_empty (x ∷ xs) = false

abbrev or_default : ℤ → ℤ → ℤ
or_default n default = if is_pos n then n else default

unfoldable pub with_defaults : RedisConfig → RedisConfig
with_defaults cfg = record cfg {
  prefix = if is_empty cfg.prefix then codes "onionguard:" else cfg.prefix;
  dial_timeout = or_default cfg.dial_timeout (pos (2 * second));
  max_key_bytes = or_default cfg.max_key_bytes (pos 256);
  max_value_bytes = or_default cfg.max_value_bytes (pos 65536);
}

unfoldable pub is_url : Bytes → Bool
is_url addr =
    starts_with (codes "redis://") addr
    || (starts_with (codes "rediss://") addr || starts_with (codes "unix://") addr)

-- The options of the configuration, for the addresses of a single server.
unfoldable pub plain_options : RedisConfig → List Bytes → UniversalOptions
plain_options cfg addrs = record {
  addrs = addrs;
  username = [];
  password = cfg.password;
  master_name = [];
  sentinel_password = [];
  db = cfg.db;
  tls_config = none;
  dial_timeout = cfg.dial_timeout;
  read_timeout = cfg.read_timeout;
  write_timeout = cfg.write_timeout;
  pool_size = cfg.pool_size;
  min_idle_conns = cfg.min_idle_conns;
  max_retries = cfg.max_retries;
  pool_timeout = cfg.pool_timeout;
}

-- The options without a URL: for a cluster, for sentinels, or for a single server.
unfoldable pub base_options : RedisConfig → UniversalOptions
base_options cfg =
    if not (is_empty cfg.cluster_addrs)
    then record (plain_options cfg cfg.cluster_addrs) { db = pos 0 }
    else if not (is_empty cfg.sentinel_addrs) || not (is_empty cfg.sentinel_master)
    then (let addrs =
          if is_empty cfg.sentinel_addrs && not (is_empty cfg.addr)
          then cfg.addr ∷ []
          else cfg.sentinel_addrs in
        record (plain_options cfg addrs) {
          master_name = cfg.sentinel_master;
          sentinel_password = cfg.sentinel_password;
        })
    else plain_options cfg (cfg.addr ∷ [])

-- A time-out that the configuration sets, else the one of the options, else that of dialling.
unfoldable pub timeout_of : Duration → Duration → Duration → Duration
timeout_of set given dial =
    if is_pos set then set else if not (is_pos given) && is_pos dial then dial else given

-- What the configuration sets stands above what the URL says.
unfoldable pub overridden : RedisConfig → UniversalOptions → UniversalOptions
overridden cfg o =
    let dial = if is_pos cfg.dial_timeout then cfg.dial_timeout else o.dial_timeout in
    record o {
      dial_timeout = dial;
      read_timeout = timeout_of cfg.read_timeout o.read_timeout dial;
      write_timeout = timeout_of cfg.write_timeout o.write_timeout dial;
      pool_size = if is_pos cfg.pool_size then cfg.pool_size else o.pool_size;
      min_idle_conns = if is_pos cfg.min_idle_conns then cfg.min_idle_conns else o.min_idle_conns;
      max_retries = if leb_ℤ (pos 0) cfg.max_retries then cfg.max_retries else o.max_retries;
      pool_timeout = if is_pos cfg.pool_timeout then cfg.pool_timeout else o.pool_timeout;
    }

module _ (parse_url : Bytes → Result UniversalOptions) where
  -- The fields of `redis.Options`, with its one address; those of sentinels are left empty.
  unfoldable pub options_of : RedisConfig → Result UniversalOptions
  options_of cfg =
      if is_url cfg.addr
      then (elim (parse_url cfg.addr) [
        | err e ↦ err e
        | ok o ↦ ok (record o { master_name = []; sentinel_password = [] })
      ])
      else ok (base_options cfg)

  -- The store with the options of its client. The first error is one that `fmt.Errorf` makes.
  unfoldable pub new_redis_store : RedisConfig → Result (RedisStore × UniversalOptions)
  new_redis_store cfg =
      if is_empty cfg.addr && (is_empty cfg.sentinel_addrs && is_empty cfg.cluster_addrs)
      then err (foreign 0)
      else (let cfg = with_defaults cfg in
          elim (options_of cfg) [
            | err e ↦ err e
            | ok o ↦ ok (
              record {
                prefix = cfg.prefix;
                max_key_bytes = cfg.max_key_bytes;
                max_value_bytes = cfg.max_value_bytes;
                closed = false;
              },
              overridden cfg o,
            )
          ])

  -- What NewRedisStore promises of a store and its client.
  pub record IsUsable (cfg : RedisConfig) (r : RedisStore) (o : UniversalOptions) : Type 0 where
    pub open_ : r.closed ≡ false
    pub prefix : is_empty r.prefix ≡ false
    pub keys : is_pos r.max_key_bytes ≡ true
    pub values : is_pos r.max_value_bytes ≡ true
    pub dial : is_pos o.dial_timeout ≡ true
    pub read : is_pos o.read_timeout ≡ true
    pub write : is_pos o.write_timeout ≡ true

  new_redis_store-IsUsable :
      (cfg : RedisConfig) (r : RedisStore) (o : UniversalOptions)
      → new_redis_store cfg ≡ ok (r, o)
      → IsUsable cfg r o
  unfolding new_redis_store overridden timeout_of with_defaults
  new_redis_store-IsUsable cfg r o h = ground arith

  options_of-cases :
      (cfg : RedisConfig)
      → ((o : UniversalOptions) × (options_of cfg ≡ ok o))
        ⊎ ((e : Err) × (is_url cfg.addr ≡ true)
            × (parse_url cfg.addr ≡ err e)
            × (options_of cfg ≡ err e))
  unfolding options_of
  options_of-cases cfg = elim (Bool-cases (is_url cfg.addr)) [
    | inr plain ↦ inl (base_options cfg, rw plain)
    | inl url ↦ elim (Result-cases (parse_url cfg.addr)) [
      | inl (o, e) ↦ inl (record o { master_name = []; sentinel_password = [] }, rw (url, e))
      | inr (x, e) ↦ inr (x, url, e, rw (url, e))
    ]
  ]

  -- With an address of any kind, NewRedisStore either fails with the error of ParseURL for an
  -- address that is a URL, or makes an open store, with a prefix that is not empty and positive
  -- limits of keys and values, whose client has positive time-outs for dialling, reading and
  -- writing.
  pub new_redis_store-total :
      (cfg : RedisConfig)
      → (is_empty cfg.addr && (is_empty cfg.sentinel_addrs && is_empty cfg.cluster_addrs)) ≡ false
      → ((r : RedisStore) × (o : UniversalOptions) × (new_redis_store cfg ≡ ok (r, o))
          × IsUsable cfg r o)
        ⊎ ((e : Err) × (is_url cfg.addr ≡ true)
            × (parse_url cfg.addr ≡ err e)
            × (new_redis_store cfg ≡ err e))
  unfolding new_redis_store with_defaults
  new_redis_store-total cfg h = elim (options_of-cases (with_defaults cfg)) [
    | inl (o, e) ↦
        let r : RedisStore = record {
          prefix = (with_defaults cfg).prefix;
          max_key_bytes = (with_defaults cfg).max_key_bytes;
          max_value_bytes = (with_defaults cfg).max_value_bytes;
          closed = false;
        } in
        let made : new_redis_store cfg ≡ ok (r, overridden (with_defaults cfg) o) = rw (h, e) in
        inl (r, overridden (with_defaults cfg) o, made, new_redis_store-IsUsable cfg _ _ made)
    | inr (x, url, e, f) ↦ inr (x, url, e, rw (h, f))
  ]
