-- ===== src/Main/Startup.antt =====
-- What the program has done when it starts the manager, and when it ends.
use wish_operator.Common.{
  ℕ, ◌≡◌, refl, Bool, true, false, not, if◌then◌else◌, List, [], ◌∷◌, ◌++◌, str,
}
use wish_operator.Main.{
  TlsConfig, disable_http2, Flags, webhook_options, metrics_options, manager_options, Call,
  Environment, get_config, setup_reconciler, add_healthz_check, add_readyz_check, add_web_server,
  new_manager,
}

-- What a server makes of its options: it applies them in order.
unfoldable pub apply_all : List (TlsConfig → TlsConfig) → TlsConfig → TlsConfig
apply_all [] c = c
apply_all (f ∷ fs) c = apply_all fs (f c)

module _ (Float : Type 0) where
  -- The calls before the start of the manager, in order.
  abbrev pub setup : Flags Float → List (Call Float)
  setup f =
      get_config
      ∷ new_manager (manager_options Float f)
      ∷ setup_reconciler
      ∷ add_healthz_check (str "healthz")
      ∷ add_readyz_check (str "readyz")
      ∷ add_web_server (record {
        addr = f.web_addr;
        namespace = f.web_namespace;
        rate_limit = f.rate_limit;
        rate_burst = f.rate_burst;
      })
      ∷ []

  -- What comes of making the calls of a list one by one until one fails.
  attempt : Environment Float → List (Call Float) → List (Call Float) → List (Call Float) × ℕ
  attempt succeeds made [] = (made, 0)
  attempt succeeds made (c ∷ cs) =
      let made' = made ++ c ∷ [] in
      let rest = attempt succeeds made' cs in if succeeds made c then rest else (made', 1)

  -- Every call of a list succeeds, after those already made and those of the list before it.
  unfoldable pub AllSucceed : Environment Float → List (Call Float) → List (Call Float) → Type 0
  AllSucceed succeeds made [] = Unit
  AllSucceed succeeds made (c ∷ cs) =
      (succeeds made c ≡ true) × AllSucceed succeeds (made ++ c ∷ []) cs

  -- Without the flag for HTTP/2, the webhook server and the metrics server offer HTTP/1.1 only,
  -- whatever they offered before.
  servers-http1 :
      (f : Flags Float) (initial : TlsConfig)
      → f.enable_http2 ≡ false
      → let m = manager_options Float f in
        ((apply_all m.webhook_server.tls_opts initial).next_protos ≡ str "http/1.1" ∷ [])
        × ((apply_all m.metrics.tls_opts initial).next_protos ≡ str "http/1.1" ∷ [])
  unfolding manager_options webhook_options metrics_options apply_all disable_http2
  servers-http1 f initial off = rw off (refl, refl)

  if_not : {A : Type 0} (b : Bool) (x y : A) → (if not b then x else y) ≡ (if b then y else x)
  if_not true x y = refl
  if_not false x y = refl
