-- ===== src/Tests/Submissions.antt =====
-- The theorems about submissions at concrete inputs: an id that is known, one that was admitted before a
-- restart, and a stop while Redis is out of reach.
use ld1_execution_gap_xair.Base.{◌≡◌, refl, true, false, none, some, [], ◌∷◌}
use ld1_execution_gap_xair.Base.Int.{pos}
use ld1_execution_gap_xair.Base.Text.{txt, same_text}
use ld1_execution_gap_xair.Base.Dict.{lookup, member}
use ld1_execution_gap_xair.Model.{
  ActionIntent, stop, IntentRecord, authorized, revoked, revoke, reported, new_record,
}
use ld1_execution_gap_xair.Lifecycle.{get, moved}
use ld1_execution_gap_xair.Predicate.Scan.{strip, upper, drop_spaces, is_space}
use ld1_execution_gap_xair.Runtime.Admission.{known, expire_seen, expire, action_class}
use ld1_execution_gap_xair.Server.Endpoints.{Link, reached, failed, Server}
use ld1_execution_gap_xair.Server.Submission.{
  Ingress, submit_intent, answered, rejected, claim_intent,
}
use ld1_execution_gap_xair.Server.Retained.{submit_intent-unclaimed, after_restart}
use ld1_execution_gap_xair.Server.Stops.{submit_intent-stop}
use ld1_execution_gap_xair.Tests.Fixtures.{resume}
use ld1_execution_gap_xair.Tests.Servers.{server}

abbrev over : Link → Ingress
over link = record {
  stop_fence = true;
  stop_key = λ t. txt "b7";
  retention = pos 3600000000;
  link = link;
  now = pos 1200000;
  ticks = 100;
  net = record { rivals = λ n. []; executes = λ n. true };
  clock = λ n. pos 1200000;
  late = λ n. false;
  latency = 0;
}

-- the server has admitted the intent `a`, and a process before it the intent `b`
abbrev running_server : Server
running_server = record server {
  runtime = record server.runtime {
    seen = (txt "a", 90) ∷ [];
    action_classes = (txt "HALT", stop) ∷ [];
  };
  claimed = txt "a" ∷ txt "b" ∷ [];
}

submit_intent-unclaimed_example :
    let (x, sv') = submit_intent (over reached) (resume (txt "b")) running_server in
    let s = expire_seen 100 running_server.runtime in
    (x ≡ rejected after_restart)
    × (get (txt "b") sv'.runtime.lifecycle
        ≡ some (
            moved
              (new_record (resume (txt "b")))
              revoked
              (some revoke)
              (reported after_restart)
              none))
    × (sv'.runtime.active_targets ≡ s.active_targets)
    × (sv'.runtime.actuated ≡ s.actuated)
    × (sv'.store ≡ running_server.store)
unfolding known expire_seen expire lookup same_text get action_class upper strip drop_spaces
    is_space claim_intent member
submit_intent-unclaimed_example =
    submit_intent-unclaimed (over reached) (resume (txt "b")) running_server refl refl refl

abbrev pub halt : ActionIntent
halt = record (resume (txt "h")) {
  payload = record (resume (txt "h")).payload { action_type = txt " halt" };
}

submit_intent-stop_example :
    (q : IntentRecord) × ((submit_intent (over failed) halt running_server).0 ≡ answered q false)
    × (q.state ≡ authorized)
unfolding known expire_seen expire lookup same_text get action_class upper strip drop_spaces
    is_space
submit_intent-stop_example = submit_intent-stop (over failed) halt running_server refl refl
