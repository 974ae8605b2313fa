-- ===== src/Main/Shutdown.antt =====
-- `webRunnable.Start` of cmd/main.go: the web server under the manager, and its end.
-- The connections, `ListenAndServe` and `Shutdown` belong to net/http: `HttpServer` is what the code
-- relies on of them. A run is a sequence of steps of the two goroutines of Start and of net/http.
pub mod Early
use wish_operator.Common.{ℕ, ◌≡◌, ◌≢◌, ◌⊎◌, Bool, true, false, Option, none, some, Str}

-- What `ListenAndServe` returns: `http.ErrServerClosed`, or another error.
pub data ServeError : Type 0 where
  server_closed : ServeError
  failed : Str → ServeError

-- The result of Start; `none` is nil.
unfoldable pub start_result : Option ServeError → Option ServeError
start_result none = none
start_result (some server_closed) = none
start_result (some (failed e)) = some (failed e)

-- `cancelled` is `ctx.Done()`. `served` and `result` are what `ListenAndServe` and Start have
-- returned, if they have. `in_flight` counts the requests whose handlers run.
pub record Run : Type 0 where
  pub cancelled : Bool
  pub shutdown_called : Bool
  pub shutdown_returned : Bool
  pub in_flight : ℕ
  pub served : Option (Option ServeError)
  pub result : Option (Option ServeError)

abbrev pub started : Run
started = record {
  cancelled = false;
  shutdown_called = false;
  shutdown_returned = false;
  in_flight = 0;
  served = none;
  result = none;
}

-- The steps of net/http leave the variables of Start alone. `ListenAndServe` returns no nil error, and
-- `ErrServerClosed` only after `Shutdown` has been called; then it can return at once.
pub record HttpServer : Type 1 where
  pub Serves : Run → Run → Type 0
  pub serves_only :
      (s t : Run)
      → Serves s t
      → (t.cancelled ≡ s.cancelled)
        × (t.shutdown_called ≡ s.shutdown_called)
        × (t.result ≡ s.result)
  pub never_nil : (s t : Run) → Serves s t → t.served ≡ some none → s.served ≡ some none
  pub closed_by_shutdown :
      (s t : Run)
      → Serves s t
      → t.served ≡ some (some server_closed)
      → (s.served ≡ some (some server_closed)) ⊎ (s.shutdown_called ≡ true)
  pub returns_at_once :
      (s : Run)
      → s.shutdown_called ≡ true
      → s.served ≡ none
      → Serves s (record s { served = some (some server_closed) })

module _ (h : HttpServer) where
  open h use {Serves}

  -- `shut_down` is the goroutine of Start after `<-ctx.Done()`, `return_result` the rest of Start.
  pub data Step : Run → Run → Type 0 where
    cancel : {s : Run} → Step s (record s { cancelled = true })
    shut_down : {s : Run} → s.cancelled ≡ true → Step s (record s { shutdown_called = true })
    serve : {s t : Run} → Serves s t → Step s t
    return_result :
        {s : Run} (e : Option ServeError)
        → s.served ≡ some e
        → s.result ≡ none
        → Step s (record s { result = some (start_result e) })

  pub data Reaches (s : Run) : Run → Type 0 where
    here : Reaches s s
    onward : {t u : Run} → Reaches s t → Step t u → Reaches s u
