-- ===== src/Socks/Relay/Duplex.antt =====
-- The two directions of the relay do not disturb each other.
use nycu_np.Prelude.{
  Bool, true, false, List, [], ◌∷◌, ◌++◌, append-nil, append_assoc, Bytes, All, take, length, ◌≡◌,
  refl, sym, ap, ◌∙◌,
}
use nycu_np.Socks.Relay.{
  Side, incoming, outgoing, Direction, Relay, Report, relayed, write_thrown, read_failed,
  wait_failed, handle_wait, step, report_to, run, start_relay,
}

-- A report whose write, if there is one, takes all that was read.
abbrev pub IsWhole : Report → Type 0
IsWhole (relayed bytes n) = n ≡ length bytes
IsWhole (write_thrown bytes) = ⊥
IsWhole _ = Unit

abbrev pub on : Side → Relay → Direction
on incoming r = r.from_remote
on outgoing r = r.from_client

-- The reports of one side, in their order.
abbrev pub reports_of : Side → List (Side × Report) → List Report
reports_of side [] = []
reports_of incoming ((incoming, report) ∷ reports) = report ∷ reports_of incoming reports
reports_of outgoing ((outgoing, report) ∷ reports) = report ∷ reports_of outgoing reports
reports_of incoming ((outgoing, report) ∷ reports) = reports_of incoming reports
reports_of outgoing ((incoming, report) ∷ reports) = reports_of outgoing reports

-- What is read until a read or a wait fails.
abbrev pub read_until : List Report → Bytes
read_until [] = []
read_until (relayed bytes n ∷ reports) = bytes ++ read_until reports
read_until (_ ∷ reports) = []

-- One direction by itself.
abbrev alone : List Report → Direction → Direction
alone [] d = d
alone (report ∷ reports) d = alone reports (step report d)

abbrev read_while : Bool → List Report → Bytes
read_while true reports = read_until reports
read_while false reports = []

take-length : (bytes : Bytes) → take (length bytes) bytes ≡ bytes
take-length [] = refl
take-length (b ∷ bytes) = ap (◌∷◌ b) (take-length bytes)

taken-alone :
    (reports : List Report) (waits : Bool) (taken : Bytes) (shut : Bool)
    → All IsWhole reports
    → (alone reports (record { waits = waits; taken = taken; shut = shut })).taken
      ≡ taken ++ read_while waits reports
unfolding step handle_wait
taken-alone [] true taken shut w = sym (append-nil taken)
taken-alone [] false taken shut w = sym (append-nil taken)
taken-alone (report ∷ reports) false taken shut w = taken-alone reports false taken shut w.1
taken-alone (relayed bytes n ∷ reports) true taken shut w =
    taken-alone reports true _ shut w.1
    ∙ ap (λ some_bytes. (taken ++ some_bytes) ++ read_until reports)
        (ap (λ m. take m bytes) w.0 ∙ take-length bytes)
    ∙ append_assoc taken bytes (read_until reports)
taken-alone (write_thrown bytes ∷ reports) true taken shut w = absurd w.0
taken-alone (read_failed ∷ reports) true taken shut w = taken-alone reports false taken true w.1
taken-alone (wait_failed ∷ reports) true taken shut w = taken-alone reports false taken shut w.1

-- Without an exception, a side does in any interleaving what it does on its own reports.
on-run :
    (side : Side) (es : List (Side × Report)) (remote client : Direction)
    → All (λ e. IsWhole e.1) es
    → on side (run es (record { from_remote = remote; from_client = client; ended = false }))
      ≡ alone
          (reports_of side es)
          (on side (record { from_remote = remote; from_client = client; ended = false }))
unfolding run report_to
on-run incoming [] remote client w = refl
on-run outgoing [] remote client w = refl
on-run side ((source, write_thrown bytes) ∷ es) remote client w = absurd w.0
on-run incoming ((incoming, relayed bytes n) ∷ es) remote client w = on-run incoming es _ client w.1
on-run incoming ((incoming, read_failed) ∷ es) remote client w = on-run incoming es _ client w.1
on-run incoming ((incoming, wait_failed) ∷ es) remote client w = on-run incoming es _ client w.1
on-run incoming ((outgoing, relayed bytes n) ∷ es) remote client w = on-run incoming es remote _ w.1
on-run incoming ((outgoing, read_failed) ∷ es) remote client w = on-run incoming es remote _ w.1
on-run incoming ((outgoing, wait_failed) ∷ es) remote client w = on-run incoming es remote _ w.1
on-run outgoing ((incoming, relayed bytes n) ∷ es) remote client w = on-run outgoing es _ client w.1
on-run outgoing ((incoming, read_failed) ∷ es) remote client w = on-run outgoing es _ client w.1
on-run outgoing ((incoming, wait_failed) ∷ es) remote client w = on-run outgoing es _ client w.1
on-run outgoing ((outgoing, relayed bytes n) ∷ es) remote client w = on-run outgoing es remote _ w.1
on-run outgoing ((outgoing, read_failed) ∷ es) remote client w = on-run outgoing es remote _ w.1
on-run outgoing ((outgoing, wait_failed) ∷ es) remote client w = on-run outgoing es remote _ w.1

All-reports_of :
    (side : Side) (es : List (Side × Report))
    → All (λ e. IsWhole e.1) es
    → All IsWhole (reports_of side es)
All-reports_of side [] w = tt
All-reports_of incoming ((incoming, report) ∷ es) w = (w.0, All-reports_of incoming es w.1)
All-reports_of outgoing ((outgoing, report) ∷ es) w = (w.0, All-reports_of outgoing es w.1)
All-reports_of incoming ((outgoing, report) ∷ es) w = All-reports_of incoming es w.1
All-reports_of outgoing ((incoming, report) ∷ es) w = All-reports_of outgoing es w.1

-- Where every write takes all that was read, each end of the relay gets exactly the bytes that are
-- read from the other one, in their order, until a read or a wait there fails, however the reports
-- of the two directions are interleaved and whatever becomes of the other direction.
pub run-taken :
    (side : Side) (es : List (Side × Report))
    → All (λ e. IsWhole e.1) es
    → (on side (run es start_relay)).taken ≡ read_until (reports_of side es)
unfolding start_relay
run-taken incoming es w =
    ap (λ (d : Direction). d.taken) (on-run incoming es _ _ w)
    ∙ taken-alone (reports_of incoming es) true [] false (All-reports_of incoming es w)
run-taken outgoing es w =
    ap (λ (d : Direction). d.taken) (on-run outgoing es _ _ w)
    ∙ taken-alone (reports_of outgoing es) true [] false (All-reports_of outgoing es w)
