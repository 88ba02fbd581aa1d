-- ===== src/Client/Start/Unsupported.antt =====
-- A `start` of client.ts that reaches a server of an unsupported version.
use copilot_sdk_swift.Prelude.{
  ℕ, ◌<◌, ◌≡◌, refl, true, false, ◌||◌, some, arith, ◌∙◌, ap, if-true, if-false, ltb,
}
use copilot_sdk_swift.Js.Outcome.{ok, throw}
use copilot_sdk_swift.Client.State.{Client, disconnected, connecting, failed, rest_of, Exec}
use copilot_sdk_swift.Client.Start.{
  StartWorld, start, start_steps, connect_to_server, connect_via_tcp, verify_protocol_version,
  check_version, attach, version_mismatch, min_protocol_version, sdk_protocol_version, no_port,
  from_verification, from_provider, is_connected, settle_start,
}

module _ (w : StartWorld) (v : ℕ) (reached : w.socket ≡ ok tt) (newer : w.ping ≡ ok (some v))
    (too_new : sdk_protocol_version < v) where
  abbrev connected_client : Client → Client
  connected_client c = attach (record c { socket = true })

  connect_to_server_external :
      (c : Client)
      → c.is_child_process ≡ false
      → c.use_stdio ≡ false
      → no_port c.actual_port ≡ false
      → connect_to_server w.socket c ≡ (ok tt, connected_client c)
  unfolding connect_to_server connect_via_tcp
  connect_to_server_external c child stdio port =
      if-false c.is_child_process _ _ child
      ∙ if-false c.use_stdio _ _ stdio
      ∙ if-false (no_port c.actual_port) _ _ port
      ∙ rw reached refl

  check_version_too_new :
      (c : Client) → check_version (some v) c ≡ (throw (version_mismatch (some v)), c)
  unfolding check_version
  check_version_too_new c =
      ap (λ (f : Exec (Unit {0})). f c)
        (if-true (ltb v min_protocol_version || ltb sdk_protocol_version v) _ _
          (ground (arith, too_new)))

  verify_protocol_version_too_new :
      (c : Client)
      → c.connection ≡ true
      → verify_protocol_version w.ping c ≡ (throw (version_mismatch (some v)), c)
  unfolding verify_protocol_version
  verify_protocol_version_too_new c online =
      if-true c.connection _ _ online ∙ rw newer (check_version_too_new c)

  start_steps_too_new :
      (c : Client)
      → c.is_external_server ≡ true
      → c.is_child_process ≡ false
      → c.use_stdio ≡ false
      → no_port c.actual_port ≡ false
      → start_steps w c ≡ (throw (version_mismatch (some v)), connected_client c)
  unfolding start_steps
  start_steps_too_new c external child stdio port =
      if-true c.is_external_server _ _ external
      ∙ ap (rest_of (λ _. from_verification w)) (connect_to_server_external c child stdio port)
      ∙ ap (rest_of (λ _. from_provider w))
          (verify_protocol_version_too_new (connected_client c) refl)

  -- The connection is left open, and no version is agreed on.
  pub start_too_new :
      (c : Client)
      → c.state ≡ disconnected
      → c.is_external_server ≡ true
      → c.is_child_process ≡ false
      → c.use_stdio ≡ false
      → no_port c.actual_port ≡ false
      → start w c
        ≡ (throw (version_mismatch (some v)), record (connected_client c) { state = failed })
  unfolding start
  start_too_new c off external child stdio port =
      if-false (is_connected c.state) _ _ (rw (off, is_connected) refl)
      ∙ ap settle_start
          (start_steps_too_new (record c { state = connecting }) external child stdio port)
