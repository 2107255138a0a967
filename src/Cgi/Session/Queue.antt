-- ===== src/Cgi/Session/Queue.antt =====
-- The texts go to the socket one at a time, in the order in which they were given.
use nycu_np.Cgi.Session.{
  Session, do_write, write, popped, Event, given, write_done, write_failed, report, run,
}
use nycu_np.Prelude.{
  ℕ, zero, suc, ◌≤◌, List, [], ◌∷◌, ◌++◌, append-nil, append_assoc, Bytes, ◌≡◌, refl, sym, ap,
  subst, ◌∙◌, arith,
}

-- The texts that the events give.
abbrev pub gifts : List Event → List Bytes
gifts [] = []
gifts (given text ∷ es) = text ∷ gifts es
gifts (_ ∷ es) = gifts es

-- One write at most is under way, and none where the queue is empty, so that no empty queue is
-- popped. The texts that have been handed over, the last of which is the front of the queue, and
-- those behind the front are all the texts given.
pub record IsOrdered (all : List Bytes) (s : Session) : Type 0 where
  pub one_write : s.pending ≤ 1
  pub none_left : s.html_content ≡ [] → s.pending ≡ 0
  pub in_order : s.handed ++ popped s.html_content ≡ all

report-IsOrdered :
    (e : Event) (queue : List Bytes) (pending : ℕ) (handed : List Bytes) (all : List Bytes)
    → IsOrdered all (record { html_content = queue; pending = pending; handed = handed })
    → IsOrdered
        (all ++ gifts (e ∷ []))
        (report e pending (record { html_content = queue; pending = pending; handed = handed }))
unfolding report write do_write
report-IsOrdered (given text) [] pending handed all v = record {
  one_write = omega (arith, v.none_left refl);
  none_left = λ e. absurd cc;
  in_order = append-nil _ ∙ ap (λ older. older ++ text ∷ []) (sym (append-nil handed) ∙ v.in_order);
}
report-IsOrdered (given text) (front ∷ rest) pending handed all v = record {
  one_write = v.one_write;
  none_left = λ e. absurd cc;
  in_order =
      sym (append_assoc handed rest (text ∷ [])) ∙ ap (λ older. older ++ text ∷ []) v.in_order;
}
report-IsOrdered write_done queue zero handed all v = record {
  one_write = v.one_write;
  none_left = λ e. refl;
  in_order = v.in_order ∙ sym (append-nil all);
}
report-IsOrdered write_done [] (suc pending) handed all v = absurd (omega (arith, v.none_left refl))
report-IsOrdered write_done (front ∷ []) (suc pending) handed all v = record {
  one_write = omega (arith, v.one_write);
  none_left = λ e. omega (arith, v.one_write);
  in_order = v.in_order ∙ sym (append-nil all);
}
report-IsOrdered write_done (front ∷ next ∷ rest) (suc pending) handed all v = record {
  one_write = v.one_write;
  none_left = λ e. absurd cc;
  in_order = append_assoc handed (next ∷ []) rest ∙ v.in_order ∙ sym (append-nil all);
}
report-IsOrdered write_failed queue zero handed all v = record {
  one_write = v.one_write;
  none_left = λ e. refl;
  in_order = v.in_order ∙ sym (append-nil all);
}
report-IsOrdered write_failed queue (suc pending) handed all v = record {
  one_write = omega (arith, v.one_write);
  none_left = λ e. omega (arith, v.one_write);
  in_order = v.in_order ∙ sym (append-nil all);
}

gifts_cons :
    (e : Event) (es : List Event) (all : List Bytes)
    → (all ++ gifts (e ∷ [])) ++ gifts es ≡ all ++ gifts (e ∷ es)
gifts_cons (given text) es all = append_assoc all (text ∷ []) (gifts es)
gifts_cons write_done es all = ap (λ older. older ++ gifts es) (append-nil all)
gifts_cons write_failed es all = ap (λ older. older ++ gifts es) (append-nil all)

-- Whatever is given and reported, in whatever order, a session that is in order stays in order: one
-- write at most is under way, none where the queue is empty, and the texts go to the socket in the
-- order in which they were given, each once and none passed over.
pub run-IsOrdered :
    (es : List Event) (s : Session) (all : List Bytes)
    → IsOrdered all s
    → IsOrdered (all ++ gifts es) (run es s)
unfolding run
run-IsOrdered [] s all v = record {
  one_write = v.one_write;
  none_left = v.none_left;
  in_order = v.in_order ∙ sym (append-nil all);
}
run-IsOrdered (e ∷ es) s all v =
    subst (λ texts. IsOrdered texts (run es (report e s.pending s))) (gifts_cons e es all)
      (run-IsOrdered es (report e s.pending s) (all ++ gifts (e ∷ []))
        (report-IsOrdered e s.html_content s.pending s.handed all v))

-- A write that fails is not tried again, and nothing behind it is: whatever is given or reported
-- after the failure of the only write under way, nothing more is handed to the socket.
run-failed :
    (es : List Event) (front : Bytes) (rest handed : List Bytes)
    → (run
        (write_failed ∷ es)
        (record { html_content = front ∷ rest; pending = 1; handed = handed })).handed
      ≡ handed
unfolding run report write
run-failed es front rest handed = stalled es rest
  where
    stalled :
        (es : List Event) (rest : List Bytes)
        → (run es (record { html_content = front ∷ rest; pending = 0; handed = handed })).handed
          ≡ handed
    stalled [] rest = refl
    stalled (given text ∷ es) rest = stalled es (rest ++ text ∷ [])
    stalled (write_done ∷ es) rest = stalled es rest
    stalled (write_failed ∷ es) rest = stalled es rest
