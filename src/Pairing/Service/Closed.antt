-- ===== src/Pairing/Service/Closed.antt =====
-- What a block keeps from being started in the chat, by either side.
use cuckoo.Base.{ℕ, ◌≡◌, ap, ◌∙◌, Bool, true, not, Option, some, any, ◌==◌, List}
use cuckoo.Base.Text.{Text}
use cuckoo.Domain.Errors.{
  Error, Result, ok, err, forbidden_error, not_found_error, refuse_if, ◌>>◌, ◌>>=◌,
}
use cuckoo.Agents.Registry.{Agent}
use cuckoo.Conversations.Cadence.{Clock}
use cuckoo.Conversations.Membership.{user, agent, user_in, agent_in}
use cuckoo.Conversations.Messages.Buttons.{Url}
use cuckoo.Conversations.Desk.{Message, Schedule, SendInput, Desk}
use cuckoo.Conversations.Sending.{
  SendDraw, may_send, send_if, send_as_user, send_as_agent, not_sent,
}
use cuckoo.Conversations.Schedules.{ScheduleDraw, ScheduleRequest, in_chat, request_schedule}
use cuckoo.Conversations.Schedules.Holding.{AgentSchedule, create_as_agent}
use cuckoo.Conversations.Streams.{StreamStore}
use cuckoo.Conversations.Streams.Writing.{start_stream, stream_checks, begin_checked, not_started}
use cuckoo.Pairing.Contacts.{Contact, get_contact, ensure_open}
use cuckoo.Pairing.Service.{Hub, Draw, block}
use cuckoo.Pairing.Service.Blocks.{block-ensure_open}

-- A chat that is there, with its member inside, and that is blocked.
closed-may_send :
    (room : ℕ) (desk : Desk) (inside : Bool)
    → any (λ c. c.id == room) desk.rooms.conversations ≡ true
    → inside ≡ true
    → ensure_open room desk.rooms.participants desk.contacts ≡ err (forbidden_error "blocked")
    → may_send inside room desk ≡ err (forbidden_error "blocked")
unfolding may_send
closed-may_send room desk inside there here shut =
    ap
      (λ b.
        refuse_if (not b) (not_found_error "conversation_not_found")
        >> (refuse_if (not inside) (forbidden_error "not_participant")
            >> ensure_open room desk.rooms.participants desk.contacts))
      there
    ∙ ap
        (λ b.
          refuse_if (not b) (forbidden_error "not_participant")
          >> ensure_open room desk.rooms.participants desk.contacts)
        here
    ∙ shut

in_chat-member :
    (room : ℕ) (desk : Desk) (inside : Bool)
    → any (λ c. c.id == room) desk.rooms.conversations ≡ true
    → inside ≡ true
    → in_chat inside room desk ≡ ok tt
unfolding in_chat
in_chat-member room desk inside there here =
    ap
      (λ b.
        refuse_if (not b) (not_found_error "conversation_not_found")
        >> refuse_if (not inside) (forbidden_error "not_participant"))
      there
    ∙ ap (λ b. refuse_if (not b) (forbidden_error "not_participant")) here

-- A guard that is not passed ends what stands behind it.
refused_first {ι} :
    {V W : Type ι} (check : Result V) (rest : V → Result W) {e : Error}
    → check ≡ err e
    → (check >>= rest) ≡ err e
refused_first check rest shut = ap (λ r. r >>= rest) shut

refused_second :
    {W : Type 0} (check guard : Result (Unit {0})) (rest : Result W) {e : Error}
    → check ≡ ok tt
    → guard ≡ err e
    → (check >> (guard >> rest)) ≡ err e
refused_second check guard rest passed shut =
    ap (λ r. r >> (guard >> rest)) passed ∙ ap (λ r. r >> rest) shut

-- The chat of the person and the agent is there, with both in it, and blocked.
record IsClosed (person bot room : ℕ) (desk : Desk) : Type 0 where
  there : any (λ c. c.id == room) desk.rooms.conversations ≡ true
  user_inside : user_in person room desk.rooms.participants ≡ true
  agent_inside : agent_in bot room desk.rooms.participants ≡ true
  refuses : ensure_open room desk.rooms.participants desk.contacts ≡ err (forbidden_error "blocked")

abbrev blocked_error : Error
blocked_error = forbidden_error "blocked"

-- The sends, and what starts a stream or makes a schedule, are refused, and write nothing.
abbrev pub StartsNothing : ℕ → ℕ → ℕ → Desk → Type 0
StartsNothing person bot room desk =
    ((sign : Message → Text) (parse : Text → Option Url) (s : SendDraw) (wait : ℕ)
        (input : SendInput)
      → (send_as_user sign parse s wait person room input desk
          ≡ not_sent desk (forbidden_error "blocked"))
        × (send_as_agent sign parse s wait bot room input desk
            ≡ not_sent desk (forbidden_error "blocked")))
    × ((s : SendDraw) (wait : ℕ) (input : SendInput) (streams : StreamStore)
        → start_stream s wait bot room input (record { desk = desk; streams = streams })
          ≡ not_started (record { desk = desk; streams = streams }) (forbidden_error "blocked"))
    × ((encode : Schedule → Text) (clock : Clock) (s : ScheduleDraw) (wait : ℕ)
          (input : ScheduleRequest) (agents : List Agent)
        → request_schedule encode clock s wait person room input agents desk
          ≡ err (forbidden_error "blocked"))
    × ((encode : Schedule → Text) (clock : Clock) (s : ScheduleDraw) (input : AgentSchedule)
          (agents : List Agent)
        → create_as_agent clock encode s bot room input agents desk
          ≡ err (forbidden_error "blocked"))

IsClosed-sends :
    (person bot room : ℕ) (desk : Desk)
    → IsClosed person bot room desk
    → (sign : Message → Text) (parse : Text → Option Url) (s : SendDraw) (wait : ℕ)
      (input : SendInput)
    → (send_as_user sign parse s wait person room input desk ≡ not_sent desk blocked_error)
      × (send_as_agent sign parse s wait bot room input desk ≡ not_sent desk blocked_error)
unfolding send_as_user send_as_agent send_if
IsClosed-sends person bot room desk c sign parse s wait input = (
  ap (λ r. send_if sign r parse s wait (record { kind = user; id = person }) room input desk)
      (closed-may_send room desk _ c.there c.user_inside c.refuses),
  ap (λ r. send_if sign r parse s wait (record { kind = agent; id = bot }) room input desk)
      (closed-may_send room desk _ c.there c.agent_inside c.refuses),
)

IsClosed-start_stream :
    (person bot room : ℕ) (desk : Desk)
    → IsClosed person bot room desk
    → (s : SendDraw) (wait : ℕ) (input : SendInput) (streams : StreamStore)
    → start_stream s wait bot room input (record { desk = desk; streams = streams })
      ≡ not_started (record { desk = desk; streams = streams }) blocked_error
unfolding start_stream stream_checks begin_checked
IsClosed-start_stream person bot room desk c s wait input streams =
    ap
      (λ r.
        begin_checked s wait bot room input.schedule_id r
          (record { desk = desk; streams = streams }))
      (refused_first (may_send (agent_in bot room desk.rooms.participants) room desk) _
        (closed-may_send room desk _ c.there c.agent_inside c.refuses))

IsClosed-request_schedule :
    (person bot room : ℕ) (desk : Desk)
    → IsClosed person bot room desk
    → (encode : Schedule → Text) (clock : Clock) (s : ScheduleDraw) (wait : ℕ)
      (input : ScheduleRequest) (agents : List Agent)
    → request_schedule encode clock s wait person room input agents desk ≡ err blocked_error
unfolding request_schedule
IsClosed-request_schedule person bot room desk c encode clock s wait input agents =
    refused_second (in_chat (user_in person room desk.rooms.participants) room desk)
      (ensure_open room desk.rooms.participants desk.contacts) _
      (in_chat-member room desk _ c.there c.user_inside) c.refuses

IsClosed-create_as_agent :
    (person bot room : ℕ) (desk : Desk)
    → IsClosed person bot room desk
    → (encode : Schedule → Text) (clock : Clock) (s : ScheduleDraw) (input : AgentSchedule)
      (agents : List Agent)
    → create_as_agent clock encode s bot room input agents desk ≡ err blocked_error
unfolding create_as_agent
IsClosed-create_as_agent person bot room desk c encode clock s input agents =
    refused_second (in_chat (agent_in bot room desk.rooms.participants) room desk)
      (ensure_open room desk.rooms.participants desk.contacts) _
      (in_chat-member room desk _ c.there c.agent_inside) c.refuses

module _ (encode_joined : Option ℕ → Option Text → Text) (encode_left : Text → Text) where
  -- Once a person has blocked an agent that they have, and if their chat is there with both in it,
  -- a send by either side, the start of a stream by the agent, a schedule that the person asks for
  -- and one that the agent makes are all refused in that chat as blocked and write nothing,
  -- whatever else the tables hold. Of a stream that was started before, nothing is said.
  pub block-closes :
      (d : Draw) (caller bot : ℕ) (h : Hub) (c : Contact) (desk : Desk)
      → get_contact caller bot h.contacts ≡ some c
      → any (λ r. r.id == c.dm_conversation_id) desk.rooms.conversations ≡ true
      → user_in c.user_id c.dm_conversation_id desk.rooms.participants ≡ true
      → agent_in c.agent_id c.dm_conversation_id desk.rooms.participants ≡ true
      → StartsNothing c.user_id c.agent_id c.dm_conversation_id
          (record desk { contacts = (block encode_joined encode_left d caller bot h).hub.contacts })
  block-closes d caller bot h c desk found there user_there agent_there =
      let closed_desk = record desk {
        contacts = (block encode_joined encode_left d caller bot h).hub.contacts;
      } in
      let closed : IsClosed c.user_id c.agent_id c.dm_conversation_id closed_desk = record {
        there = there;
        user_inside = user_there;
        agent_inside = agent_there;
        refuses =
            block-ensure_open encode_joined encode_left d caller bot h c desk.rooms.participants
              found user_there agent_there;
      } in
      (
        IsClosed-sends c.user_id c.agent_id c.dm_conversation_id closed_desk closed,
        IsClosed-start_stream c.user_id c.agent_id c.dm_conversation_id closed_desk closed,
        IsClosed-request_schedule c.user_id c.agent_id c.dm_conversation_id closed_desk closed,
        IsClosed-create_as_agent c.user_id c.agent_id c.dm_conversation_id closed_desk closed,
      )
