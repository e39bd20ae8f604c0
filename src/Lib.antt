-- ===== src/Lib.antt =====
-- Together, the web client: the state that it keeps and the events and requests that change it.
--
-- The client (clients/web) shows servers, channels and messages. Its state stands in zustand stores
-- (clients/web/src/stores). A store changes when the user acts, through requests of the API client
-- (clients/web/src/api/client.ts), and when the gateway (clients/web/src/api/websocket.ts) brings an event, which
-- clients/web/src/hooks/useWebSocket.ts hands to the stores.
--
-- Each store is a record with the source's fields, and each action a function on it with the source's
-- name in snake case: addMessage of messageStore.ts is `add_message` of Messages. An action that awaits
-- the API takes the answer as an argument (a `Reply`), and, where it reads or writes the store before the
-- answer too, a function `meanwhile`, which is all that other actions do to the store while the answer is
-- awaited. A promise that is rejected is an `Outcome` that is `thrown`.
--
-- Base       tests, list methods, dictionaries (plain objects), replies and outcomes
-- Bits       `|`, `&`, `^` and `~` on 32-bit patterns, and their laws bit by bit
-- Types      clients/web/src/types/index.ts: the records, the permission table, hasPermission
-- Messages   stores/messageStore.ts: list, paging, sending; Messages/Replies: reply previews, threads
-- Dms        stores/dmStore.ts
-- ReadState  stores/readStateStore.ts
-- Typing     stores/typingStore.ts
-- Roles      stores/roleStore.ts; Roles/Overrides: overrides, computeChannelPermissions
-- Voice      stores/voiceStore.ts
-- Channels   stores/channelStore.ts
-- Servers    stores/serverStore.ts
-- Emojis     stores/customEmojiStore.ts
-- Admin      stores/adminStore.ts
-- AutoMod    stores/autoModStore.ts
-- IceCache   utils/iceCache.ts
-- Text       strings as UTF-16 code units, with the methods and the classes of letters that the client uses
-- SlashCommands  utils/slashCommands.ts
-- Emoji      utils/emoji.ts: names in a text, the search; Emoji/Table: the table
-- Markdown   utils/markdown.ts: parseMarkdown; Markdown/Patterns: its regular expressions
-- Composer   components/messages/MessageInput.tsx: the text field with its pickers; Composer/Keys: its keys
-- PermissionEditors  components/channels/ChannelPermissions.tsx, and the switches of components/servers/RoleEditor.tsx
-- VoiceSettings  stores/voiceSettingsStore.ts
-- Calls      hooks/useWebRTC.ts: the refs and connections of a call; Calls/Media: microphone, camera and screen;
--            Calls/Signals: offers, answers, candidates, the end of connections; Calls/Detector: who speaks
-- GoLive     hooks/useGoLive.ts; GoLive/Broadcast: signals, the start and the end of a broadcast
-- VoiceChannel  components/voice/VoiceChannel.tsx: the participants, and what the buttons do
-- Hooks      hooks/usePushToTalk.ts, hooks/useTypingIndicator.ts
-- Gateway    api/websocket.ts: a state machine with the browser's sockets and timers
-- Api        api/client.ts: `request` and the refresh of tokens
-- Endpoints  api/client.ts: the request of each method; Endpoints/Routes: the routes in server/src/main.rs;
--            Endpoints/Routing: how a route is found, and Endpoints/Delivery:
--            where each request arrives
-- Auth       stores/authStore.ts
-- Dispatch   hooks/useWebSocket.ts: the handlers over all stores; Dispatch/Community: moderation and roles
-- Examples   concrete data, and the theorems at it
--
-- Bounds and fuel: two definitions take fuel, both of Markdown: `parse_inner`, two for each unit of the text
-- and two more, which Markdown/Termination shows to be enough, and `decimal`, one more than its number, which
-- has no more digits than that. Every other recursion is on a list or a number. Numbers are natural, and a
-- text is the list of its UTF-16 code units where its letters matter. Permission masks are read as 32-bit
-- patterns, where JavaScript shows a pattern with the top bit set as a negative number. Times are
-- milliseconds; the clock and the parser of dates are arguments. A subtraction that stops at 0 stands only
-- where the source compares a difference with a positive number, where it keeps the result from falling
-- below 0, or where the result cannot fall below 0; the index -1 of a search that fails is `none`.
--
-- Not modelled: rendering, and the React components beyond those named; links and formats;
-- the download of an export (exportServer); the back end beyond its routes.
-- In Calls and GoLive the browser is what it answers, and a record of the connections, tracks and signals that
-- it was asked for; what it sends over a connection is left out.
-- Console output and alerts are left out. Keys of dictionaries are the server's identifiers, never
-- the names of members of Object.prototype. In Api and Auth a request and what follows it are one
-- step.
pub mod Base
pub mod Bits
pub mod Types
pub mod Messages
pub mod Dms
pub mod ReadState
pub mod Typing
pub mod Roles
pub mod Voice
pub mod Channels
pub mod Servers
pub mod Emojis
pub mod Admin
pub mod Text
pub mod PermissionEditors
pub mod Emoji
pub mod Markdown
pub mod Composer
pub mod VoiceSettings
pub mod Hooks
pub mod Calls
pub mod GoLive
pub mod Endpoints
pub mod VoiceChannel
pub mod SlashCommands
pub mod AutoMod
pub mod IceCache
pub mod Gateway
pub mod Api
pub mod Auth
pub mod Dispatch
mod Examples
