-- ===== src/Main.antt =====
-- cmd/main.go: the flags, the options made from them, and the calls of the libraries in order.
-- A call of controller-runtime is a value here; whether it succeeds is up to the environment.
pub mod Startup
pub mod Shutdown
use wish_operator.Common.{
  ℕ, Bool, true, false, not, List, [], ◌∷◌, ◌++◌, ℤ, pos, Str, str, is_empty, if◌then◌else◌,
}

-- `tls.Config`, for its `NextProtos`.
pub record TlsConfig : Type 0 where
  pub next_protos : List Str

-- `disableHTTP2`
unfoldable pub disable_http2 : TlsConfig → TlsConfig
disable_http2 c = record { next_protos = str "http/1.1" ∷ [] }

pub record WebhookOptions : Type 0 where
  pub tls_opts : List (TlsConfig → TlsConfig)
  pub cert_dir : Str
  pub cert_name : Str
  pub key_name : Str

-- `authorized` says whether the filter with authentication and authorization is set.
pub record MetricsOptions : Type 0 where
  pub bind_address : Str
  pub secure_serving : Bool
  pub tls_opts : List (TlsConfig → TlsConfig)
  pub authorized : Bool
  pub cert_dir : Str
  pub cert_name : Str
  pub key_name : Str

pub record ManagerOptions : Type 0 where
  pub metrics : MetricsOptions
  pub webhook_server : WebhookOptions
  pub health_probe_bind_address : Str
  pub leader_election : Bool
  pub leader_election_id : Str

-- `Float` is float64.
module _ (Float : Type 0) where
  pub record Flags : Type 0 where
    pub metrics_addr : Str
    pub metrics_cert_path : Str
    pub metrics_cert_name : Str
    pub metrics_cert_key : Str
    pub webhook_cert_path : Str
    pub webhook_cert_name : Str
    pub webhook_cert_key : Str
    pub enable_leader_election : Bool
    pub probe_addr : Str
    pub web_addr : Str
    pub web_namespace : Str
    pub rate_limit : Float
    pub rate_burst : ℤ
    pub secure_metrics : Bool
    pub enable_http2 : Bool

  -- The flags without arguments; the argument is 30 as a float64.
  unfoldable pub default_flags : Float → Flags
  default_flags thirty = record {
    metrics_addr = str "0";
    metrics_cert_path = [];
    metrics_cert_name = str "tls.crt";
    metrics_cert_key = str "tls.key";
    webhook_cert_path = [];
    webhook_cert_name = str "tls.crt";
    webhook_cert_key = str "tls.key";
    enable_leader_election = false;
    probe_addr = str ":8081";
    web_addr = str ":8080";
    web_namespace = str "default";
    rate_limit = thirty;
    rate_burst = pos 10;
    secure_metrics = true;
    enable_http2 = false;
  }

  tls_options : Flags → List (TlsConfig → TlsConfig)
  unfolding disable_http2
  tls_options f = if not f.enable_http2 then disable_http2 ∷ [] else []

  unfoldable pub webhook_options : Flags → WebhookOptions
  unfolding tls_options
  webhook_options f =
      let given = not (is_empty f.webhook_cert_path) in
      record {
        tls_opts = tls_options f;
        cert_dir = if given then f.webhook_cert_path else [];
        cert_name = if given then f.webhook_cert_name else [];
        key_name = if given then f.webhook_cert_key else [];
      }

  unfoldable pub metrics_options : Flags → MetricsOptions
  unfolding tls_options
  metrics_options f =
      let given = not (is_empty f.metrics_cert_path) in
      record {
        bind_address = f.metrics_addr;
        secure_serving = f.secure_metrics;
        tls_opts = tls_options f;
        authorized = f.secure_metrics;
        cert_dir = if given then f.metrics_cert_path else [];
        cert_name = if given then f.metrics_cert_name else [];
        key_name = if given then f.metrics_cert_key else [];
      }

  unfoldable pub manager_options : Flags → ManagerOptions
  unfolding webhook_options metrics_options
  manager_options f = record {
    metrics = metrics_options f;
    webhook_server = webhook_options f;
    health_probe_bind_address = f.probe_addr;
    leader_election = f.enable_leader_election;
    leader_election_id = str "b1249f94.k8s.lex.la";
  }

  -- The arguments of `web.NewServer`, and the address of its runnable.
  pub record WebServer : Type 0 where
    pub addr : Str
    pub namespace : Str
    pub rate_limit : Float
    pub rate_burst : ℤ

  -- The calls that can fail. `get_config` is `GetConfigOrDie`, which exits itself.
  pub data Call : Type 0 where
    get_config : Call
    new_manager : ManagerOptions → Call
    setup_reconciler : Call
    add_healthz_check : Str → Call
    add_readyz_check : Str → Call
    add_web_server : WebServer → Call
    start : Call

  -- The arguments for the web server.
  unfoldable pub web_server : Flags → WebServer
  web_server f = record {
    addr = f.web_addr;
    namespace = f.web_namespace;
    rate_limit = f.rate_limit;
    rate_burst = f.rate_burst;
  }

  -- Whether a call succeeds after the calls before it.
  abbrev pub Environment : Type 0
  Environment = List Call → Call → Bool

  -- The function, with the calls that were made and the exit status as its result; `os.Exit(1)` ends it
  -- with the calls up to the one that failed.
  unfoldable pub main : Environment → Flags → List Call × ℕ
  unfolding manager_options web_server
  main succeeds f =
      let m₁ = get_config ∷ [] in
      let m₂ = m₁ ++ new_manager (manager_options f) ∷ [] in
      let m₃ = m₂ ++ setup_reconciler ∷ [] in
      let m₄ = m₃ ++ add_healthz_check (str "healthz") ∷ [] in
      let m₅ = m₄ ++ add_readyz_check (str "readyz") ∷ [] in
      let m₆ = m₅ ++ add_web_server (web_server f) ∷ [] in
      let m₇ = m₆ ++ start ∷ [] in
      if not (succeeds [] get_config)
      then (m₁, 1)
      else if not (succeeds m₁ (new_manager (manager_options f)))
      then (m₂, 1)
      else if not (succeeds m₂ setup_reconciler)
      then (m₃, 1)
      else if not (succeeds m₃ (add_healthz_check (str "healthz")))
      then (m₄, 1)
      else if not (succeeds m₄ (add_readyz_check (str "readyz")))
      then (m₅, 1)
      else if not (succeeds m₅ (add_web_server (web_server f)))
      then (m₆, 1)
      else if not (succeeds m₆ start)
      then (m₇, 1)
      else (m₇, 0)
