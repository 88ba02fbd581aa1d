-- ===== src/Lib.antt =====
-- Verification of the Copilot SDK for Node.js (nodejs/src): a client that starts or finds a Copilot CLI
-- server, speaks JSON-RPC with it, and keeps sessions whose events, tools and permission requests it
-- serves.
--
-- A `CopilotClient` owns the process, the connection and a map from ids to `CopilotSession`s. The CLI
-- sends events and requests; the client finds the session they name; the session calls the user's
-- handlers and answers by requests of its own. The files follow that order:
--   Js.Value, Js.Object, Js.Stringify     values, objects, `JSON.stringify`
--   Js.Outcome                            how a call ends
--   Js.JsMap, Js.JsSet                    `Map` with text keys, and `Set` of callbacks with live loops
--   Rpc                                   computations that send requests to a peer
--   Session.State                         the fields of `CopilotSession` (session.ts) and its events
--   Session.Subscribe                     `on`, unsubscribing, `registerTools` and its like
--   Session.Broadcast, Session.Tasks      `_handleBroadcastEvent` and the methods that it starts
--   Session.Dispatch                      `_dispatchEvent`
--   Session.Ui                            `session.ui`: elicitation, confirm, select and input
--   Session.Callbacks                     `_handlePermissionRequestV2`, `_handleHooksInvoke`,
--                                         `_handleUserInputRequest`, `_handleSystemMessageTransform`
--   Session.Requests                      `send`, `getMessages`, `disconnect`, `abort`, `setModel`, `log`;
--                                         `getTraceContext` (telemetry.ts)
--   Session.Waiting                       `sendAndWait`
--   Client.State                          the fields of `CopilotClient` (client.ts)
--   Client.Start, Client.Stop             `start` with `connectToServer` and `verifyProtocolVersion`;
--                                         `stop` and `forceStop`
--   Client.Command, Client.Spawn          `startCLIServer`: the command line and the environment of the
--                                         process, and how the promise settles
--   Client.Incoming                       the notifications and requests of the CLI, and the adapters for
--                                         version 2 of the protocol
--   Client.SessionConfig, Client.Sessions `createSession` and `resumeSession`
--   Client.SystemMessage                  `extractTransformCallbacks`
--   Client.Queries                        `listModels`, `deleteSession`, and the methods that only ask
--   Client.Options                        the constructor, `parseCliUrl` and `validateSessionFsConfig`
--   Client.Lifecycle                      `on` and `handleSessionLifecycleNotification`
--   Client.Machine                        which clients a program can reach, call by call
--   Extension                             `joinSession` (extension.ts) and its permission handler
--   ToolResults                           `convertMcpCallToolResult` (types.ts)
--   Codegen                               the schema helpers of scripts/codegen/utils.ts: Titles (cloning and
--                                         stripping), Sorted (`stableStringify`), Refs (`resolveSchema`),
--                                         Objects (`resolveObjectSchema`), Definitions (shared definitions),
--                                         Methods (tests of nodes), Normalize (`normalizeApiSchema`),
--                                         Hoist (`hoistTitledSchemas`), PostProcess (`postProcessSchema`),
--                                         Names (`refTypeName`); TypeScript is of
--                                         scripts/codegen/typescript.ts (`normalizeSchemaForTypeScript`)
--   Tests                                 each theorem of the results at a concrete input
-- Theorems stand in child modules named for what they prove.
--
-- Conventions. A handler of the user is a function from its arguments to the way its promise settles.
-- An event listener is known by a number, since listeners are compared by identity, and may change the
-- subscriptions of its session. The CLI is a parameter (`Peer`) whose answer to a request may depend on
-- all requests before it, so that the order of requests is visible. Objects are lists of fields that
-- are read by name; an absent field reads as `undefined`. While a method waits for an answer, nothing
-- else happens to the session or the client, but for the events and the timer of `sendAndWait` and what
-- the other listeners make of the session meanwhile, which is a parameter of it.
--
-- Fuel. The loop over a `Set` sees what its body adds, so that it need not end; `dispatch_event` and the
-- notifications of Client.Lifecycle have fuel for each of their two loops and are `none` without enough of
-- it. More fuel than slots is enough where listeners only unsubscribe. The decimal text of a number has
-- fuel one above the number. The retries of `stop` count down from three. `resolve_schema` has fuel for two
-- more rounds than there are definitions, which is enough, and the search for a free name one more than
-- there are definitions. `resolve_object_schema` takes its depth as an argument, since it need not end.
-- Nothing else needs fuel.
--
-- Not modelled: the generated types and RPC wrappers (nodejs/src/generated), the socket and the child
-- process themselves and the JSON-RPC library, whose results are parameters, the session file system,
-- `defineTool` and the constants of types.ts, the printers of the code generators and the other scripts,
-- and the SDKs in other languages.

mod Prelude
pub mod Js
pub mod Rpc
pub mod Session
pub mod Client
pub mod ToolResults
pub mod Extension
pub mod Codegen
mod Tests
