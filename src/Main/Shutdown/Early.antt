-- ===== src/Main/Shutdown/Early.antt =====
-- When Start returns nil.
use wish_operator.Common.{◌≡◌, ◌≢◌, inl, inr, refl, sym, ◌∙◌, true, Option, none, some}
use wish_operator.Main.Shutdown.{
  ServeError, server_closed, failed, start_result, Run, started, HttpServer, Step, cancel,
  shut_down, serve, return_result, Reaches, here, onward,
}

-- The server closes and Start returns nil only after the context is done and `Shutdown` is called.
record IsOrderly (s : Run) : Type 0 where
  called_after : s.shutdown_called ≡ true → s.cancelled ≡ true
  no_nil : s.served ≢ some none
  closed_after : s.served ≡ some (some server_closed) → s.shutdown_called ≡ true
  nil_after : s.result ≡ some none → s.shutdown_called ≡ true

started-IsOrderly : IsOrderly started
started-IsOrderly = record {
  called_after = λ e. cc;
  no_nil = λ e. cc;
  closed_after = λ e. cc;
  nil_after = λ e. cc;
}

some_same : (o : Option ServeError) → some o ≡ some none → o ≡ none
some_same o e = cc

module _ (h : HttpServer) where
  result-IsOrderly :
      (s : Run) (e : Option ServeError)
      → s.served ≡ some e
      → IsOrderly s
      → start_result e ≡ none
      → s.shutdown_called ≡ true
  unfolding start_result
  result-IsOrderly s none k o r = absurd (o.no_nil k)
  result-IsOrderly s (some server_closed) k o r = o.closed_after k
  result-IsOrderly s (some (failed e)) k o r = cc

  Step-IsOrderly : {s t : Run} → Step h s t → IsOrderly s → IsOrderly t
  Step-IsOrderly cancel o = record {
    called_after = λ e. refl;
    no_nil = o.no_nil;
    closed_after = o.closed_after;
    nil_after = o.nil_after;
  }
  Step-IsOrderly (shut_down done) o = record {
    called_after = λ e. done;
    no_nil = o.no_nil;
    closed_after = λ e. refl;
    nil_after = λ e. refl;
  }
  Step-IsOrderly (serve {s} {t} k) o =
      let (a, b, c) = h.serves_only s t k in
      record {
        called_after = λ e. a ∙ o.called_after (sym b ∙ e);
        no_nil = λ e. o.no_nil (h.never_nil s t k e);
        closed_after = λ e. elim (h.closed_by_shutdown s t k e) [
          | inl old ↦ b ∙ o.closed_after old
          | inr called ↦ b ∙ called
        ];
        nil_after = λ e. b ∙ o.nil_after (sym c ∙ e);
      }
  Step-IsOrderly (return_result {s} e k none_yet) o = record {
    called_after = o.called_after;
    no_nil = o.no_nil;
    closed_after = o.closed_after;
    nil_after = λ r. result-IsOrderly s e k o (some_same (start_result e) r);
  }

  reached-IsOrderly : {s t : Run} → Reaches h s t → IsOrderly s → IsOrderly t
  reached-IsOrderly here o = o
  reached-IsOrderly (onward before step) o = Step-IsOrderly step (reached-IsOrderly before o)

  -- In every run from the beginning, when Start has returned nil, the context is done and `Shutdown`
  -- has been called.
  pub start-nil :
      (s : Run)
      → Reaches h started s
      → s.result ≡ some none
      → (s.cancelled ≡ true) × (s.shutdown_called ≡ true)
  start-nil s r e =
      let o = reached-IsOrderly r started-IsOrderly in
      (o.called_after (o.nil_after e), o.nil_after e)

  -- From every state in which the server serves and Start has not returned, a state can be reached
  -- in which Start has returned nil with the requests that were in flight still running, and with
  -- `Shutdown` not returned if it had not.
  pub start-early :
      (s : Run)
      → s.served ≡ none
      → s.result ≡ none
      → Reaches h s (record s {
        cancelled = true;
        shutdown_called = true;
        served = some (some server_closed);
        result = some none;
      })
  unfolding start_result
  start-early s serving running =
      onward
        (onward (onward (onward here cancel) (shut_down refl))
          (serve (h.returns_at_once _ refl serving)))
        (return_result (some server_closed) refl running)
