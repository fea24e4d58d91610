-- ===== src/Lib.antt =====
-- Verification of the LinkLynx-AI web client, the TypeScript under typescript/src: what it keeps of
-- messages and channels, how it stays connected to the real-time service, and what it makes of the
-- answers of the backend. Other parts of the repository (the Rust backend, the databases, the
-- infrastructure) are not modelled.
--
-- The parts, and the files that model them; every path of a comment is below typescript/src:
--   * Common and its children: lists, options, text and association lists, which stand for
--     `Map` and `Record`. Numbers are natural; `BigInt` reads strict decimal strings.
--   * Timeline: shared/api/message-query.ts (`mergeMessages`, `flattenMessagePages`,
--     `appendMessageToPages`) over the types of shared/model/types (Timeline/Data) and the checked
--     items of shared/api/message-contract.ts (Timeline/Contract); Components has the rows of
--     bot-components.ts. `Date` is the parameter `get_time`, `none` for NaN. Decimal is about
--     the ids as numbers, Merge, Append, Order and Dedupe about the operations.
--   * Net: JSON payloads and the zod schemas on them (Json), URLs (Url), and
--     entities/auth/api/authenticated-fetch.ts (Fetch). The platform's `URL`, the signed-in user
--     and the network are parameters; a rejected promise is `none`.
--   * Auth: entities/auth/api/ws-ticket.ts (WsTicket) and principal-provisioning.ts (Principal).
--   * Realtime: app/providers/ws-auth-bridge.tsx. Connection and Target are its pure functions,
--     Bridge its state and refs in one record with the small operations on them, Frames the texts that
--     it sends, Handlers the
--     handlers of a socket, Connect the connection itself with the effects and timers, and Steps the
--     runs. An asynchronous function is cut at its `await`: `connect` and `resume_connect`,
--     `handle_socket_reauthenticate` and `resume_reauthenticate`. What is done outside (sent frames,
--     requests, closed sockets) is a list of effects. Sockets are numbers. Steps takes the events in
--     any order; a ticket may arrive for any attempt that was begun, however late. Steps/Prompt restricts
--     the runs to those in which no ticket of a given-up attempt comes late; Staleness has what such
--     a ticket does.
--   * Guilds: the channel cache of shared/api/guild-channel-api-client.ts. Cache has the private
--     operations, Client and Direct the methods, with the outcome of the request as an argument;
--     methods that read the cache before their request are cut there (`plan_deletion` and
--     `finish_deletion`). The loop of `collectDeletedChannelIds` runs on fuel, one round more than
--     there are channels: a round that is not the last adds the id of one of them. Search and Batches
--     are `getChannel`: the answer of each server is an argument, and so is the order in which the
--     answers of a batch arrive; nothing else changes the cache meanwhile. SearchLaws, SearchIds,
--     SearchEnds and SearchErrors are about what it finds.
--   * Requests: the same file's methods up to their request, as a plan: a request with its path in
--     segments, an error, or the empty answer. Calls has them as data. `Number.parseInt` and
--     `Number` are parameters. Answers is what `requestJson` makes of a response.
--   * Mutations: shared/api/mutations/message-cache.ts and the optimistic mutations that use it
--     (use-edit-message.ts, use-message-actions.ts). The query library is an interface with the laws
--     that its documentation gives (Queries); MapClient shows that they can hold. What is written to
--     the cache while a request is awaited is an argument.
--   * Routes: shared/config/routes.ts and features/route-guard/model/index.ts. Classify has the class
--     of a path, Selection the guild and the channel that it selects, ReturnTo the return path of
--     the login, Query the values of the query. Percent coding and `URL` are parameters.
--   * Markdown: shared/lib/parse-markdown.ts. Patterns has one function for each regular expression,
--     Inline and Blocks the two loops. They run on fuel, the length of the text and the number of
--     lines: each round takes a character or a line at least (Fuel, BlockFuel).
--   * Invites: features/invite-flow/api/join-invite.ts.
--   * Permissions: shared/api/queries/use-action-guard.ts, for any state of its query.
--   * Stores: the files of shared/model/stores, one module for each store (Voice, Guild,
--     Notification, Settings, Presence, Ui).
--
-- The parts meet as in the source: the bridge asks Auth for tickets (Realtime/Session), merges what
-- arrives with Timeline (Realtime/Delivery), and the endpoints of Auth and Invites go through
-- Net/Fetch. Mutations write their messages with Timeline, and Requests takes the guild of an edited
-- message from the channels of Guilds.
--
-- Not modelled: rendering, the firebase SDK, the query library beyond the cache entries that the
-- client writes and the messages that a mutation writes, how the API client maps its answers and
-- words its errors, and numbers beyond 2^53.
pub mod Common
pub mod Timeline
pub mod Markdown
pub mod Net
pub mod Auth
pub mod Realtime
pub mod Routes
pub mod Guilds
pub mod Mutations
pub mod Requests
pub mod Invites
pub mod Stores
pub mod Permissions
