-- ===== src/Client/Machine/Invariant.antt =====
-- What holds of every client that a program can reach.
use copilot_sdk_swift.Client.State.{Client}
use copilot_sdk_swift.Client.Stop
use copilot_sdk_swift.Client.Stop.{Teardown, stop, force_stop, owns_process}
use copilot_sdk_swift.Client.Sessions.{create_session, resume_session}
use copilot_sdk_swift.Client.Machine.{
  ◌⟶◌, starts, stops, force_stops, creates, resumes, deletes, lists, hears, hears_lifecycle,
  listens, uses, closes, Reached, constructed, followed, close_connection,
}
use copilot_sdk_swift.Client.Machine.Kept.{Inv, construct-Inv, forced-Inv, start-Inv}
use copilot_sdk_swift.Client.Machine.Calls.{
  begin-Inv, released-Inv, delete_session-Inv, list_models-Inv, hears-Inv,
}
use copilot_sdk_swift.Client.Machine.Listening.{apply_lifecycle-Inv, hears_lifecycle-Inv, uses-Inv}

-- A step keeps the invariant.
step-Inv : (c d : Client) → c ⟶ d → Inv c → Inv d
unfolding stop force_stop create_session resume_session close_connection
step-Inv c d (starts w e) v = rw e (start-Inv w c v)
step-Inv c d (stops peer t sent e) v = rw e (released-Inv c v)
step-Inv c d (force_stops e) v = rw e (forced-Inv (Stop.released c) (released-Inv c v))
step-Inv c d (creates peer w trace random_id config sent e) v =
    rw e (begin-Inv peer w "creating" _ _ config c sent v)
step-Inv c d (resumes peer w trace id config sent e) v =
    rw e (begin-Inv peer w "resuming" id _ config c sent v)
step-Inv c d (deletes peer id sent e) v = rw e (delete_session-Inv peer c id sent v)
step-Inv c d (lists peer handler sent e) v = rw e (list_models-Inv peer handler c sent v)
step-Inv c d (hears as_event listeners fuel notification r h e) v =
    rw e (hears-Inv as_event listeners fuel notification c r h v)
step-Inv c d (hears_lifecycle listeners fuel notification r h e) v =
    rw e (hears_lifecycle-Inv listeners fuel notification c r h v)
step-Inv c d (listens ops e) v = rw e (apply_lifecycle-Inv ops c v)
step-Inv c d (uses id s t g step e) v = rw e (uses-Inv id s t c g step v)
step-Inv c d (closes e) v = rw e (record {
  ready = λ x. absurd (cc x);
  registry = v.registry;
  child = v.child;
  process = v.process;
})

-- Every client that a program can reach is connected only with a connection and a protocol version that
-- was agreed on, knows each session by the session's own id, and has no process if its server is an
-- external one; a client in a child process has an external server.
pub Reached-Inv : (c : Client) → Reached c → Inv c
Reached-Inv c (constructed o h) = construct-Inv o c h
Reached-Inv d (followed {c} r s) = step-Inv c d s (Reached-Inv c r)
