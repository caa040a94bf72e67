-- ===== src/Conversations/Streams/Stopping.antt =====
-- conversations/stop.go, and the sweep and the reader of conversations/streaming.go: what ends the messages that are being
-- written, all of a conversation at once or those that went quiet. Notices to devices are left out.
use cuckoo.Base.{
  ℕ, Bool, true, false, ◌&&◌, Option, none, some, List, [], ◌∷◌, ◌++◌, ◌-◌, suc, map, ◌==◌, ltb,
  leb, take, if◌then◌else◌, find?, filter, is_some,
}
use cuckoo.Base.Sorting.{sort_by}
use cuckoo.Base.Text.{Text}
use cuckoo.Domain.Errors.{Result, ok, err, rate_limited_error, ◌>>◌, refuse_if}
use cuckoo.Agents.Bindings.{Binding}
use cuckoo.Delivery.Outbox.{Delivery, stop_requested}
use cuckoo.Conversations.Membership.{user_in, enqueue}
use cuckoo.Conversations.Desk.{Message, list_agent_participants}
use cuckoo.Conversations.Composing.{is_agent}
use cuckoo.Conversations.Sending.{SendDraw}
use cuckoo.Conversations.Schedules.{in_chat}
use cuckoo.Pairing.Contacts.{ensure_open}
use cuckoo.Conversations.Streams.{StreamRef, StreamStore, buffer_text, remove, idle, is_there}
use cuckoo.Conversations.Streams.Writing.{Studio, stream_stuck_for}
use cuckoo.Conversations.Streams.Finishing.{
  FinishInput, finish, ended_by_person, ended_by_hub, is_streaming,
}

-- ListStreamingInConversation: by id
abbrev pub is_open_in : ℕ → Message → Bool
is_open_in room m = m.conversation_id == room && (is_streaming m.status && is_agent m.sender.kind)

abbrev pub by_id : Message → Message → Bool
by_id m n = leb m.id n.id

abbrev pub ref_of : Message → StreamRef
ref_of m = record { agent_id = m.sender.id; message_id = m.id }

unfoldable pub list_streaming_in_conversation : ℕ → List Message → List StreamRef
list_streaming_in_conversation room rows =
    map ref_of (sort_by by_id (filter (is_open_in room) rows))

abbrev pub no_buttons : FinishInput
no_buttons = record { buttons = []; quick_replies = [] }

abbrev is_ok {ℓ} : {A : Type ℓ} → Result A → Bool
is_ok (ok a) = true
is_ok (err e) = false

abbrev began_before : Message → Message → Bool
began_before m n = leb m.created_at n.created_at

pub list_stale_streaming_messages : ℕ → List Message → List Message
list_stale_streaming_messages before rows =
    take 100
      (sort_by began_before (filter (λ m. is_streaming m.status && ltb m.created_at before) rows))

-- What the loop over the replies gathers.
pub record Ended : Type 0 where
  pub studio : Studio
  pub ended : List Message
  pub by_agent : List (ℕ × ℕ)
  pub nudged : List ℕ

module _ (sign : Message → Text) where
  unfoldable pub keep_stopped : StreamRef → Result Message → Ended → Ended
  keep_stopped ref (err e) r = r
  keep_stopped ref (ok msg) r =
      if msg.stopped
      then record r {
        ended = msg ∷ r.ended;
        by_agent = r.by_agent ++ ((ref.agent_id, ref.message_id) ∷ []);
      }
      else r

  -- One reply after the other. Each finish is a call of its own: `draws` gives its time and identifiers.
  unfoldable pub end_each : (ℕ → SendDraw) → List StreamRef → Studio → Ended
  unfolding finish keep_stopped
  end_each draws [] st = record { studio = st; ended = []; by_agent = []; nudged = [] }
  end_each draws (ref ∷ refs) st =
      let f =
        finish sign (draws ref.message_id) ref.agent_id ref.message_id no_buttons ended_by_person
          st in
      let rest = end_each draws refs f.studio in
      keep_stopped ref f.answer (record rest { nudged = f.nudged ++ rest.nudged })

  -- byAgent[agentID], if it is there: the one that was written last.
  abbrev reply_of : ℕ → List (ℕ × ℕ) → Option ℕ
  reply_of bot replies = elim (find? (λ p. p.0 == bot) replies) [ none ↦ none | some p ↦ some p.1 ]

  -- Each agent of the conversation is told, and which reply of its was ended.
  tell_stopped :
      (Option ℕ → Text)
      → SendDraw
      → ℕ
      → List (ℕ × ℕ)
      → List Binding
      → List ℕ
      → List Delivery
      → List Delivery × List ℕ
  unfolding enqueue
  tell_stopped encode d room replies bs [] rows = (rows, [])
  tell_stopped encode d room replies bs (a ∷ agents) rows =
      let one =
        enqueue d.now (d.event_id a) bs a room stop_requested (encode (reply_of a replies)) rows in
      let rest = tell_stopped encode d room replies bs agents one.0 in
      (rest.0, (if one.1 then a ∷ [] else []) ++ rest.1)

  unfoldable pub announce_stop : (Option ℕ → Text) → SendDraw → ℕ → Ended → Ended
  unfolding tell_stopped list_agent_participants
  announce_stop encode d room r =
      let told =
        tell_stopped encode d room r.by_agent r.studio.desk.bindings
          (list_agent_participants room r.studio.desk.rooms.participants)
          r.studio.desk.deliveries in
      record r {
        studio = record r.studio { desk = record r.studio.desk { deliveries = told.0 } };
        nudged = r.nudged ++ told.1;
      }

  -- `Stop`, of a person that the limiter asks to wait so long; `draws` is for the finishes, `d` for what the agents are told.
  unfoldable pub stop :
      (Option ℕ → Text) → (ℕ → SendDraw) → SendDraw → ℕ → ℕ → ℕ → Studio → Result Ended
  unfolding end_each list_streaming_in_conversation announce_stop in_chat ensure_open
  stop encode draws d wait who room st =
      in_chat (user_in who room st.desk.rooms.participants) room st.desk
      >> (ensure_open room st.desk.rooms.participants st.desk.contacts
          >> (refuse_if (ltb 0 wait) (rate_limited_error "rate_limited" wait)
              >> ok (
                  announce_stop encode d room
                    (end_each draws (list_streaming_in_conversation room st.desk.messages) st))))

  -- Finishes each and counts; what cannot be finished is forgotten.
  sweep_each : (ℕ → SendDraw) → List StreamRef → Studio → Studio × ℕ
  unfolding finish remove
  sweep_each draws [] st = (st, 0)
  sweep_each draws (ref ∷ refs) st =
      let f =
        finish sign (draws ref.message_id) ref.agent_id ref.message_id no_buttons ended_by_hub st in
      let forgotten = record f.studio { streams = remove ref f.studio.streams } in
      let rest = sweep_each draws refs (if is_ok f.answer then f.studio else forgotten) in
      (rest.0, if is_ok f.answer then suc rest.1 else rest.1)

  -- `SweepStreams`
  pub sweep_streams : (ℕ → SendDraw) → ℕ → ℕ → Studio → Studio × ℕ
  unfolding sweep_each idle list_stale_streaming_messages
  sweep_streams draws now idle_for st =
      sweep_each draws
        (idle now idle_for st.streams
          ++ map ref_of (
              filter (λ m. is_agent m.sender.kind)
                (list_stale_streaming_messages (now - stream_stuck_for) st.desk.messages)))
        st

-- The text so far of one message.
abbrev with_text : ℕ → StreamStore → Message → Message
with_text now s m =
    if is_streaming m.status
      && is_agent m.sender.kind
      && is_some (find? (is_there now (ref_of m)) s.buffers)
    then record m { body = record m.body { text = buffer_text now (ref_of m) s } }
    else m

-- `attachStreamText`
pub attach_stream_text : ℕ → StreamStore → List Message → List Message
unfolding buffer_text
attach_stream_text now s msgs = map (with_text now s) msgs
