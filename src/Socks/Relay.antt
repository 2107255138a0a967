-- ===== src/Socks/Relay.antt =====
-- The relay of socks4_handler.cpp: `relayTraffic`, `readRemote`, `writeRemote` and `asyncReadWrite`,
-- as a state machine over what asio reports.
pub mod Duplex
use nycu_np.Prelude.{Bool, true, false, List, [], ◌∷◌, ◌++◌, Bytes, ℕ, take}

-- From the remote end to the client, and back.
pub data Side : Type 0 where
  incoming outgoing : Side

-- One direction: whether a wait for its source is under way, what its target has taken, and whether
-- the target has been told that no more comes.
pub record Direction : Type 0 where
  pub waits : Bool
  pub taken : Bytes
  pub shut : Bool

-- `ended` is an exception of a write, which leaves the event loop and ends the process.
pub record Relay : Type 0 where
  pub from_remote : Direction
  pub from_client : Direction
  pub ended : Bool

-- The report of a wait, with what the read and the write behind it do: the bytes read and how many
-- of them the write takes; a write that throws; a read that fails, as at the end of the input; and
-- a wait that fails.
pub data Report : Type 0 where
  relayed : Bytes → ℕ → Report
  write_thrown : Bytes → Report
  read_failed : Report
  wait_failed : Report

-- `asyncReadWrite` starts a wait.
abbrev pub start_wait : Direction → Direction
start_wait d = record d { waits = true }

-- The handler of the wait, for a report other than an exception: the rest of the bytes, where the
-- write takes a part, is dropped.
unfoldable pub handle_wait : Report → Direction → Direction
handle_wait (relayed bytes n) d =
    start_wait (record d { waits = false; taken = d.taken ++ take n bytes })
handle_wait (write_thrown bytes) d = record d { waits = false }
handle_wait read_failed d = record d { waits = false; shut = true }
handle_wait wait_failed d = record d { waits = false }

-- A report that no wait was started for does not come.
unfoldable pub step : Report → Direction → Direction
unfolding handle_wait
step report d = elim d.waits [ true ↦ handle_wait report d | false ↦ d ]

abbrev pub is_thrown : Report → Direction → Bool
is_thrown (write_thrown bytes) d = d.waits
is_thrown _ d = false

unfoldable pub report_to : Side → Report → Relay → Relay
unfolding step
report_to incoming report r = record r {
  from_remote = step report r.from_remote;
  ended = is_thrown report r.from_remote;
}
report_to outgoing report r = record r {
  from_client = step report r.from_client;
  ended = is_thrown report r.from_client;
}

-- The event loop, over the reports in the order in which they come.
unfoldable pub run : List (Side × Report) → Relay → Relay
unfolding report_to
run [] r = r
run ((side, report) ∷ reports) r = elim r.ended [
  | true ↦ r
  | false ↦ run reports (report_to side report r)
]

-- `relayTraffic` starts both directions.
unfoldable pub start_relay : Relay
start_relay = record {
  from_remote = start_wait (record { waits = false; taken = []; shut = false });
  from_client = start_wait (record { waits = false; taken = []; shut = false });
  ended = false;
}
