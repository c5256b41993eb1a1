-- ===== src/Tests/Mail.antt =====
-- One mail: refused once, sent again and delivered.
use markland.Prelude.{◌+◌, ◌≤◌, false, none, List, [], ◌∷◌, refl}
use markland.Mail.{Item, MailQueue, Sending, Event, default_retry_delays, run_events}
use markland.Mail.Retries.{allowance, run_events-sends}
use markland.Tests.Samples.{plain}

abbrev greeting : Item
greeting = record {
  to = "eve@example.com";
  subject = "Hello";
  html = "<p>Hello</p>";
  text = none;
  metadata = [];
  attempt = 0;
}

abbrev idle : MailQueue
idle = record {
  retry_delays = default_retry_delays;
  queue = [];
  waiting = [];
  stopped = false;
  sends = 0;
}

abbrev events : List Event
events =
    Event.enqueues greeting
    ∷ Event.processes (Sending.refused "503")
    ∷ Event.requeues 0
    ∷ Event.processes Sending.delivered
    ∷ []

run_events-sends_example : (run_events plain events idle).sends ≤ 0 + allowance 3 events
run_events-sends_example = run_events-sends plain 3 events idle refl refl refl
