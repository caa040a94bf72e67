-- ===== src/Lib.antt =====
-- Cuckoo's server, in Go, under server/internal: people talk to agents, and an agent's backend hears
-- of it by webhook, by socket or by polling.
--
-- Parts and files:
--   Base: lists, predicates on them, texts as code points, sorting, keys. No code of its own.
--   Domain (domain/errors.go, domain/id.go): classified errors, and identifiers as text.
--   Agents (agents/, store/gen/agents.sql.go, store/gen/bindings.sql.go): Agents/Registry is whose an
--   agent is; Agents/Bindings the bindings of an agent to its backend, `set_binding` for SetBinding and
--   so on, and the health of a binding.
--   Users (users/service.go): the look-up of a person.
--   Delivery (delivery/, store/gen/deliveries.sql.go): Delivery/Outbox is the table of the events
--   owed, with one function per query, those of store/gen/retention.sql.go that delete its rows among
--   them, and its Writes has every order of the writes; Delivery/Schedule is the waits between attempts;
--   Delivery/Worker one pass of the webhook worker, from the claim to the outcomes; Delivery/Service the reads and
--   acknowledgements of the agent protocol. The worker reads the bindings of Agents and writes both
--   tables.
--   Signin (signin/, store/gen/signin.sql.go): Signin/Codes is `Start` and `Verify`, over the accounts
--   of other packages; Signin/Sessions the sessions of signed-in devices.
--   Conversations (conversations/, store/gen/messages.sql.go, store/gen/media.sql.go):
--   Conversations/Messages (validate.go) is what a message may hold, its words and, in
--   Messages/Buttons, its buttons; Conversations/Attachments (attachments.go) its files;
--   Conversations/Composing (messages.go) the checks before a send, among them the tap of a button, the
--   message that is replied to and the schedule that it is sent for (schedules_agent.go); and
--   Conversations/Sending (messages.go, deliveries.go) the send itself, from a person or an agent to the
--   rows of the outbox, over all the tables (`Desk`). Conversations/History (history.go, read.go,
--   hiding.go) is what a person or an agent sees of what was said, and what marking it read, clearing
--   and hiding change.
--   Conversations/Cadence (cadence.go) is when a schedule runs, Conversations/Agenda
--   (store/gen/schedules.sql.go) the table of schedules, and Conversations/Schedules (schedules.go) what a
--   person does to it; its Holding has the calls of agents (schedules_agent.go) and its Reading the lists,
--   the runs that are shown and the move to another zone. A send reads and marks the same table.
--   Conversations/Streams (streams.go) is the text of the messages that are being written, as Redis holds
--   it; its Writing and its Finishing (streaming.go) start, extend and finish such a message over the tables
--   and Redis (`Studio`), and its Stopping (stop.go, streaming.go) is a person's stop, the sweep and what
--   a reader sees of a message so far.
--   Conversations/Membership (conversations/membership.go, conversations/service.go,
--   store/gen/conversations.sql.go) is the chat of a person and an agent and the events about it, which
--   it writes into the outbox of Delivery.
--   Pairing (pairing/, store/gen/pairing.sql.go): Pairing/Tokens is the table of codes and the calls on
--   it, Pairing/Contacts the table of contacts and the calls of settings.go, Pairing/Service how a
--   person comes to an agent, blocks it and is back, over all the tables (`Hub`), and Pairing/Cards what
--   a person sees before adding an agent. Pairing/Service/Histories has every history of these calls.
--   Realtime (realtime/hub.go): Realtime/Hub is the hub that hands events to the connections of one
--   instance, one function per stretch of code under its lock.
-- Modules named Examples run them on small tables.
--
-- How the code is read: a table is the list of its rows, and a query is a function of it; a query
-- that fails only by the database's own fault is total. Identifiers and times are natural numbers
-- (times in nanoseconds), the clock is an argument, and rows that another transaction has locked
-- are an argument of a claim. A pass of the worker reads a clock of its own in each of its
-- statements, and what other transactions write between these (`Clocks`) and while it waits for its
-- calls are its arguments. A token's hash, the check of a URL, the answer of a backend, the
-- decoding of a payload, the reading of a URL and the look-up of messages and conversations are
-- arguments. Error messages, wrapped causes and logs are left out. What package time knows of the
-- zones of the world is an argument, `Clock`, and so is the encoding of a schedule for the outbox;
-- a buffer in Redis that has expired is one that is not read. All recursion is structural, so there
-- is no fuel; the searches for the next and the previous run count their nine days down.
--
-- Not modelled: HTTP and JSON, the sender's dialling, the errors of Redis and the ticker of the
-- sweep, the notices to devices, what decorates an answer, presence, reports, media, push, mail,
-- rate limits (a send takes the limiter's answer, and the signature of its message, as arguments),
-- and which rows and files retention picks to delete; nor the polling loop of the worker, which
-- only repeats passes, and the hub's loops over its bus and its clock. Two calls of Verify, or two
-- sends, at one time are not interleaved, nor is a stop with what agents begin to write between its
-- list of messages and their ends.
pub mod Base
pub mod Domain
pub mod Agents
pub mod Delivery
pub mod Signin
pub mod Conversations
pub mod Realtime
pub mod Users
pub mod Pairing
