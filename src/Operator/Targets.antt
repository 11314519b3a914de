-- ===== src/Operator/Targets.antt =====
-- The warehouses and the streams that the operator hands to the target's adapter, and the adapter's
-- creation in crates/incidentbench-common/src/adapters.
pub mod Warehouses
use incident_bench.Base.{
  ℕ, ◌%◌, ◌^◌, String, ◌<>◌, Option, none, some, List, [], ◌∷◌, map, unwrap_or, lookup, str_eq,
  is_some, u32_mod, if◌then◌else◌,
}
use incident_bench.Crd.{IncidentBenchRunSpec, QueryGroupSpec}
use incident_bench.Cluster.{
  Prog, ret, ◌>>=◌, ask, Result, ok, err, Adapter, PgConfig, WarehouseConfig, DataStreamConfig,
  build_http_client,
}
use incident_bench.Cluster.Objects.{Platform}
use incident_bench.Scenario.{Scenario, DataStream, streams_of}

unfoldable pub stream_config : DataStream → DataStreamConfig
stream_config s = record { name = s.name; schema = s.schema; kafka_topic = s.schema.index_name }

unfoldable pub stream_configs : {F : Type 0} → Scenario F → List DataStreamConfig
unfolding stream_config
stream_configs scenario = map stream_config (streams_of scenario)

-- `seen.entry(name).or_insert(value)`: an entry that is there is kept.
unfoldable pub or_insert {ℓ} : {V : Type ℓ} → String → V → List (String × V) → List (String × V)
or_insert k v [] = (k, v) ∷ []
or_insert k v ((j, w) ∷ m) = if str_eq j k then (j, w) ∷ m else (j, w) ∷ or_insert k v m

abbrev pub warehouse_of : QueryGroupSpec → WarehouseConfig
warehouse_of g = record {
  name = g.warehouse.name;
  num_mediators = g.warehouse.num_mediators;
  num_os = g.warehouse.num_os;
}

unfoldable pub seen_warehouses :
    List (String × WarehouseConfig) → List QueryGroupSpec → List (String × WarehouseConfig)
unfolding or_insert
seen_warehouses seen [] = seen
seen_warehouses seen (g ∷ groups) =
    seen_warehouses (or_insert g.warehouse.name (warehouse_of g) seen) groups

unfoldable pub with_client : Adapter → Result String (Unit {0}) → Result String Adapter
with_client adapter (err e) = err e
with_client adapter (ok _) = ok adapter

module _ {J : Type 0} ⦃pf : Platform J⦄ where
  abbrev get : Option J → String → Option J
  get none key = none
  get (some v) key = pf.get v key

  abbrev pub text : Option J → Option String
  text none = none
  text (some v) = pf.as_str v

  abbrev number : Option J → Option ℕ
  number none = none
  number (some v) = pf.as_u64 v

  unfoldable pub default_warehouse : List (String × J) → WarehouseConfig
  default_warehouse config =
      let wh_config = lookup "warehouse" config in
      record {
        name = unwrap_or (text (get wh_config "name")) "incidentbench-wh";
        num_mediators = unwrap_or (number (get wh_config "numMediators")) 1 % u32_mod;
        num_os = unwrap_or (number (get wh_config "numOs")) 2 % u32_mod;
      }

  unfoldable pub warehouses_of :
      List (String × J) → Option (List QueryGroupSpec) → List WarehouseConfig
  warehouses_of config none = default_warehouse config ∷ []
  warehouses_of config (some groups) =
      map (λ (e : String × WarehouseConfig). e.1) (seen_warehouses [] groups)

  unfoldable pub build_warehouse_configs :
      {F : Type 0} → IncidentBenchRunSpec F J → List WarehouseConfig
  unfolding warehouses_of
  build_warehouse_configs spec = warehouses_of spec.target.config spec.workers.query_groups

  unfoldable pub pg_config_of :
      List (String × J)
      → Option String
      → Option String
      → Option String
      → Option String
      → Option PgConfig
  pg_config_of config (some host) (some user) (some password) (some dbname) = some record {
    host = host;
    port = unwrap_or (number (lookup "pg_port" config)) 5432 % 2 ^ 16;
    user = user;
    password = password;
    dbname = dbname;
    warehouse = unwrap_or (text (get (lookup "warehouse" config) "name")) "";
  }
  pg_config_of config _ _ _ _ = none

  unfoldable pub new_adapter :
      {F : Type 0}
      → List (String × J)
      → Option String
      → Option String
      → Prog F J (Result String Adapter)
  unfolding pg_config_of with_client
  new_adapter config none _ = ret (err "Mach5 adapter requires 'endpoint' in config")
  new_adapter config (some _) none = ret (
      err
        "Mach5 adapter requires 'namespace' in config (the adapter creates and deletes this namespace)")
  new_adapter config (some endpoint) (some namespace) = do
    let adapter : Adapter = record {
      endpoint = pf.trim_slashes endpoint;
      namespace = namespace;
      connection_name = "incidentbench-kafka-conn";
      pg_config =
          pg_config_of config (text (lookup "pg_host" config)) (text (lookup "pg_user" config))
            (text (lookup "pg_password" config)) (text (lookup "pg_dbname" config));
    }
    client ← ask build_http_client
    ret (with_client adapter client)

  -- `adapters::create_adapter`.
  unfoldable pub create_adapter :
      {F : Type 0} → String → List (String × J) → Prog F J (Result String Adapter)
  unfolding new_adapter
  create_adapter adapter_name config =
      if str_eq adapter_name "mach5"
      then new_adapter config (text (lookup "endpoint" config)) (text (lookup "namespace" config))
      else ret (err ("Unknown adapter: " <> adapter_name))
