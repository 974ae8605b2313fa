-- ===== src/Tests/OfMain.antt =====
-- Tests of the program's start and of the end of its web server.
use wish_operator.Common.{ℕ, suc, ◌≡◌, ◌⊎◌, inl, inr, refl, true, false, none, some, Str}
use wish_operator.Main.{default_flags, add_readyz_check, Environment, main}
use wish_operator.Main.Shutdown.{server_closed, failed, Run, started, HttpServer, Reaches}
use wish_operator.Main.Shutdown.Early.{start-nil, start-early}

-- Nothing but the call to add the ready check fails.
not_ready : Environment ℕ
not_ready made (add_readyz_check name) = false
not_ready made c = true

failed_status : (main ℕ not_ready (default_flags ℕ 30)).1 ≡ 1
unfolding main not_ready
failed_status = refl

-- A server that takes requests until `Shutdown`, may fail, and whose `Shutdown` waits.
data Serving : Run → Run → Type 0 where
  accept :
      {s : Run}
      → s.shutdown_called ≡ false
      → s.served ≡ none
      → Serving s (record s { in_flight = suc s.in_flight })
  finish : {s : Run} (n : ℕ) → s.in_flight ≡ suc n → Serving s (record s { in_flight = n })
  close :
      {s : Run}
      → s.shutdown_called ≡ true
      → s.served ≡ none
      → Serving s (record s { served = some (some server_closed) })
  fail :
      {s : Run} (e : Str)
      → s.served ≡ none
      → Serving s (record s { served = some (some (failed e)) })
  drained :
      {s : Run}
      → s.shutdown_called ≡ true
      → s.in_flight ≡ 0
      → Serving s (record s { shutdown_returned = true })

only :
    (s t : Run)
    → Serving s t
    → (t.cancelled ≡ s.cancelled) × (t.shutdown_called ≡ s.shutdown_called) × (t.result ≡ s.result)
only _ _ (accept a b) = (refl, refl, refl)
only _ _ (finish n a) = (refl, refl, refl)
only _ _ (close a b) = (refl, refl, refl)
only _ _ (fail e a) = (refl, refl, refl)
only _ _ (drained a b) = (refl, refl, refl)

not_nil : (s t : Run) → Serving s t → t.served ≡ some none → s.served ≡ some none
not_nil _ _ (accept a b) e = e
not_nil _ _ (finish n a) e = e
not_nil _ _ (close a b) e = cc
not_nil _ _ (fail x a) e = cc
not_nil _ _ (drained a b) e = e

closed_by :
    (s t : Run)
    → Serving s t
    → t.served ≡ some (some server_closed)
    → (s.served ≡ some (some server_closed)) ⊎ (s.shutdown_called ≡ true)
closed_by _ _ (accept a b) e = inl e
closed_by _ _ (finish n a) e = inl e
closed_by _ _ (close a b) e = inr a
closed_by _ _ (fail x a) e = cc
closed_by _ _ (drained a b) e = inr a

abbrev server : HttpServer
server = record {
  Serves = Serving;
  serves_only = only;
  never_nil = not_nil;
  closed_by_shutdown = closed_by;
  returns_at_once = λ s a b. close a b;
}

-- Two requests run.
abbrev busy : Run
busy = record (started) { in_flight = 2 }

start-early_example : Reaches server busy (record (busy) {
  cancelled = true;
  shutdown_called = true;
  served = some (some server_closed);
  result = some none;
})
start-early_example = start-early server busy refl refl

abbrev over : Run
over = record (started) {
  cancelled = true;
  shutdown_called = true;
  served = some (some server_closed);
  result = some none;
}

start-nil_example : (over.cancelled ≡ true) × (over.shutdown_called ≡ true)
start-nil_example = start-nil server over (start-early server started refl refl) refl
