-- ===== src/Tests/Loop.antt =====
-- Runs of the agent's loop, the control channel, the session's input, the credentials and the transfers.
use haiku_mgmt_agent.Prelude.{
  ℕ, suc, ◌+◌, ◌≤◌, ◌<◌, ◌≡◌, ◌≢◌, All, replicate, ◌==◌, refl, arith, Bool, true, false, Option,
  none, some, List, [], ◌∷◌, ◌++◌, length, map, if◌then◌else◌,
}
use haiku_mgmt_agent.Prelude.Int.{pos}
use haiku_mgmt_agent.Prelude.Text.{Bytes, codes, contains, find_byte, bytes_eq}
use haiku_mgmt_agent.Json.Value
use haiku_mgmt_agent.Json.Value.{Value, str, obj, end, field, str_at}
use haiku_mgmt_agent.Http.{succeeded}
use haiku_mgmt_agent.Json.Parser.{parse}
use haiku_mgmt_agent.Json.Errors.{error_of, value_of}
use haiku_mgmt_agent.Prelude.Text.{is_empty}
use haiku_mgmt_agent.Mgs.Message.{AgentMessage, serialize}
use haiku_mgmt_agent.Session.Control.{run_control}
use haiku_mgmt_agent.Session.Control.Safety.{AllMayStart, ids, run_control_safe}
use haiku_mgmt_agent.Session.Data.{Bridge}
use haiku_mgmt_agent.Session.Data.Ordered.{
  IsKeystroke, Typed, nothing_due, due, between, handle_all, handle_all-Typed,
}
use haiku_mgmt_agent.Runner.Document.{DocumentOutcome, success}
use haiku_mgmt_agent.Runner.Reply.{AgentInfo}
use haiku_mgmt_agent.Aws.Credentials.{Credentials, Usable, fetch, get, get-Usable}
use haiku_mgmt_agent.Aws.S3.{
  Remote, Transfers, transfer, transfer_once, transfer_retries, expired_token, answer_to, fetched,
}
use haiku_mgmt_agent.Aws.Signing.{Header}
use haiku_mgmt_agent.Agent.Seen
use haiku_mgmt_agent.Agent.Seen.{
  IsValid, Distinct, SeenCommands, none_seen, seen, add-IsValid, dedup_history,
}
use haiku_mgmt_agent.Agent.InFlight.{
  InFlight, idle, cancel, add_command, is_cancelled, Meanwhile, nothing, added, finished, cancelled,
  cancel_in_flight,
}
use haiku_mgmt_agent.Agent.InFlight
use haiku_mgmt_agent.Agent.Handle.{
  Agent, Call, Service, acknowledged, attempt, handle_send_command, command_id_from, poll_once,
}
use haiku_mgmt_agent.Agent.Once.{started_ids}
use haiku_mgmt_agent.Agent.Reached.{
  Reached, fresh, polled, fresh_agent, Reached-once, redelivery_acknowledged,
}
use haiku_mgmt_agent.Agent.Order.{Answers, Outcome, document_content, handle_send_command_calls}
use haiku_mgmt_agent.Tests.Data.{whole_numbers}

abbrev info : AgentInfo
info = record {
  name = codes "a";
  version = codes "1";
  lang = codes "en-US";
  os = codes "Haiku";
  os_ver = [];
}

-- One message with one command.
abbrev batch : Bytes
batch =
    codes
      "{\"Messages\":[{\"MessageId\":\"aws.ssm.c1.i1\",\"Topic\":\"aws.ssm.sendCommand.x\",\"Payload\":\"{\\\"DocumentContent\\\":{}}\"}]}"

abbrev answering : Service
answering = record {
  respond = λ n.
      some (record { status = pos 200; headers = []; body = batch; sink_bytes = 0; error = [] });
  date_time = λ n. [];
  run_id = λ n. [];
}

abbrev after_poll : Agent
after_poll = poll_once whole_numbers answering info (λ i. false) fresh_agent

after_poll-Reached : Reached whole_numbers answering info after_poll
after_poll-Reached = polled (λ i. false) fresh_agent fresh

after_poll_length : length after_poll.seen.order ≡ 1
unfolding poll_once attempt fresh_agent none_seen idle haiku_mgmt_agent.Agent.Handle.handle_response
    succeeded error_of parse haiku_mgmt_agent.Json.Parser.value haiku_mgmt_agent.Json.Parser.start
    haiku_mgmt_agent.Json.Parser.skip_ws haiku_mgmt_agent.Json.Parser.member_key
    haiku_mgmt_agent.Json.Strings.string_ haiku_mgmt_agent.Json.Strings.string_loop
    haiku_mgmt_agent.Json.Strings.string_round haiku_mgmt_agent.Json.Parser.scalar
    haiku_mgmt_agent.Json.Parser.separator haiku_mgmt_agent.Json.Strings.escape_round
    haiku_mgmt_agent.Json.Strings.plain_escape Value.find
    haiku_mgmt_agent.Agent.Handle.check_auth_failure haiku_mgmt_agent.Agent.Handle.checked
    command_id_from haiku_mgmt_agent.Agent.Handle.handle_message
    haiku_mgmt_agent.Agent.Handle.handle_messages haiku_mgmt_agent.Agent.Handle.handle_new_command
    handle_send_command haiku_mgmt_agent.Agent.Handle.last_but_one
    haiku_mgmt_agent.Agent.Handle.send_reply haiku_mgmt_agent.Agent.Handle.start_command add_command
    Seen.add Seen.evict seen value_of haiku_mgmt_agent.Json.Parser.at_byte Value.bytes_lt
    Value.insert Value.is_obj Value.lookup str_at Value.str_at_or Value.str_or bytes_eq contains
    find_byte haiku_mgmt_agent.Prelude.Text.starts_with haiku_mgmt_agent.Util.Text.split
    haiku_mgmt_agent.Util.Text.split_loop
after_poll_length = refl

after_poll_room : length after_poll.seen.order < dedup_history
after_poll_room = omega (arith, after_poll_length)

Reached-once_example : Distinct (started_ids after_poll.calls)
Reached-once_example =
    Reached-once whole_numbers answering info after_poll after_poll-Reached after_poll_room

abbrev message : Value
message = obj (
    field (codes "MessageId") (str (codes "aws.ssm.c1.i1"))
      (field (codes "Payload") (str (codes "{\"DocumentContent\":{}}")) end))

after_poll_started :
    contains (started_ids after_poll.calls) (command_id_from (str_at message (codes "MessageId")))
    ≡ true
unfolding poll_once attempt fresh_agent none_seen idle haiku_mgmt_agent.Agent.Handle.handle_response
    succeeded error_of parse haiku_mgmt_agent.Json.Parser.value haiku_mgmt_agent.Json.Parser.start
    haiku_mgmt_agent.Json.Parser.skip_ws haiku_mgmt_agent.Json.Parser.member_key
    haiku_mgmt_agent.Json.Strings.string_ haiku_mgmt_agent.Json.Strings.string_loop
    haiku_mgmt_agent.Json.Strings.string_round haiku_mgmt_agent.Json.Parser.scalar
    haiku_mgmt_agent.Json.Parser.separator haiku_mgmt_agent.Json.Strings.escape_round
    haiku_mgmt_agent.Json.Strings.plain_escape Value.find
    haiku_mgmt_agent.Agent.Handle.check_auth_failure haiku_mgmt_agent.Agent.Handle.checked
    command_id_from haiku_mgmt_agent.Agent.Handle.handle_message
    haiku_mgmt_agent.Agent.Handle.handle_messages haiku_mgmt_agent.Agent.Handle.handle_new_command
    handle_send_command haiku_mgmt_agent.Agent.Handle.last_but_one
    haiku_mgmt_agent.Agent.Handle.send_reply haiku_mgmt_agent.Agent.Handle.start_command add_command
    Seen.add Seen.evict seen value_of haiku_mgmt_agent.Json.Parser.at_byte Value.bytes_lt
    Value.insert Value.is_obj Value.lookup str_at Value.str_at_or Value.str_or bytes_eq contains
    find_byte haiku_mgmt_agent.Prelude.Text.starts_with haiku_mgmt_agent.Util.Text.split
    haiku_mgmt_agent.Util.Text.split_loop
after_poll_started = refl

redelivery_acknowledged_example :
    handle_send_command whole_numbers answering info message after_poll
    ≡ (attempt answering (acknowledged (str_at message (codes "MessageId"))) after_poll).0
redelivery_acknowledged_example =
    redelivery_acknowledged whole_numbers answering info after_poll message after_poll-Reached
      after_poll_room after_poll_started

answering_Answers : Answers answering
unfolding succeeded
answering_Answers n = (
  record { status = pos 200; headers = []; body = batch; sink_bytes = 0; error = [] },
  (refl, refl),
)

message_new : seen fresh_agent.seen (command_id_from (str_at message (codes "MessageId"))) ≡ false
unfolding fresh_agent seen contains none_seen
message_new = refl

handle_send_command_calls_example :
    Outcome whole_numbers answering info answering_Answers
      (str_at message (codes "MessageId"))
      (if is_empty (error_of (parse whole_numbers (str_at message (codes "Payload"))))
        then document_content (value_of (parse whole_numbers (str_at message (codes "Payload"))))
        else none)
      fresh_agent
      (handle_send_command whole_numbers answering info message fresh_agent)
handle_send_command_calls_example =
    handle_send_command_calls whole_numbers answering info answering_Answers message fresh_agent
      message_new

abbrev running : InFlight
running = (add_command (add_command idle (codes "a")).0 (codes "b")).0

abbrev one_left : InFlight
one_left = (add_command (InFlight.done (cancel running (codes "a")).0 (codes "a")) (codes "c")).0

while_b : Meanwhile (codes "b") running one_left
unfolding bytes_eq
while_b = cancelled (codes "a") (finished (codes "a") refl (added (codes "c") refl nothing))

token_b : 0 ≢ (add_command (add_command idle (codes "a")).0 (codes "b")).1
unfolding add_command idle
token_b e = omega (arith, e)

cancel_in_flight_example :
    ((cancel one_left (codes "b")).1 ≡ true)
    × ((is_cancelled
            (cancel one_left (codes "b")).0
            (add_command (add_command idle (codes "a")).0 (codes "b")).1
          ≡ true)
        × (is_cancelled (cancel one_left (codes "b")).0 0 ≡ is_cancelled one_left 0))
cancel_in_flight_example =
    cancel_in_flight (add_command idle (codes "a")).0 one_left (codes "b") 0 while_b token_b

add-IsValid_example : IsValid (Seen.add none_seen (codes "c1"))
unfolding none_seen
add-IsValid_example =
    add-IsValid none_seen (codes "c1")
      (record { same = λ id. refl; distinct = tt; bounded = omega arith })

-- A request for a session, twice.
abbrev shell_request : AgentMessage
shell_request = record {
  message_type = codes "interactive_shell";
  schema_version = 1;
  created_ms = 0;
  sequence = 0;
  flags = 0;
  message_id = codes "00000000-0000-0000-0000-000000000000";
  payload_type = 1;
  payload =
      codes
        "{\"content\":\"{\\\"DocumentContent\\\":{\\\"sessionType\\\":\\\"Standard_Stream\\\"},\\\"SessionId\\\":\\\"s1\\\"}\"}";
}

abbrev control_frames : List Bytes
control_frames =
    serialize (λ s. replicate 32 0) shell_request
    ∷ serialize (λ s. replicate 32 0) shell_request
    ∷ []

run_control_safe_example :
    AllMayStart whole_numbers [] (run_control whole_numbers [] control_frames)
run_control_safe_example = run_control_safe whole_numbers [] control_frames

-- The first frame starts the session, the second does not start it again.
one_session : ids (run_control whole_numbers [] control_frames) ≡ codes "s1" ∷ []
unfolding run_control haiku_mgmt_agent.Session.Control.on_frame
    haiku_mgmt_agent.Mgs.Message.deserialize serialize haiku_mgmt_agent.Prelude.BigEndian.be_bytes
    haiku_mgmt_agent.Mgs.Uuid.uuid_to_wire haiku_mgmt_agent.Mgs.Uuid.hex_nibble
    haiku_mgmt_agent.Mgs.Message.rejects_header haiku_mgmt_agent.Prelude.BigEndian.be_value
    haiku_mgmt_agent.Mgs.Message.read_message haiku_mgmt_agent.Session.Control.on_message bytes_eq
    haiku_mgmt_agent.Session.Start.parse_start_request parse haiku_mgmt_agent.Json.Parser.value
    haiku_mgmt_agent.Json.Parser.start haiku_mgmt_agent.Json.Parser.skip_ws
    haiku_mgmt_agent.Json.Parser.member_key haiku_mgmt_agent.Json.Parser.at_byte
    haiku_mgmt_agent.Json.Parser.number haiku_mgmt_agent.Json.Parser.scalar
    haiku_mgmt_agent.Json.Parser.separator haiku_mgmt_agent.Json.Parser.skip_digits
    haiku_mgmt_agent.Json.Parser.skip_exponent haiku_mgmt_agent.Json.Parser.skip_fraction
    haiku_mgmt_agent.Json.Parser.skip_sign haiku_mgmt_agent.Json.Strings.escape_round
    haiku_mgmt_agent.Json.Strings.hex4 haiku_mgmt_agent.Json.Strings.hex_loop
    haiku_mgmt_agent.Json.Strings.plain_escape haiku_mgmt_agent.Json.Strings.string_
    haiku_mgmt_agent.Json.Strings.string_loop haiku_mgmt_agent.Json.Strings.string_round
    haiku_mgmt_agent.Json.Strings.surrogate haiku_mgmt_agent.Json.Strings.unicode_escape
    haiku_mgmt_agent.Json.Strings.utf8 Value.bl Value.bytes_lt Value.find Value.insert Value.is_obj
    Value.lookup str_at Value.str_at_or Value.str_or haiku_mgmt_agent.Mgs.Message.pad_type
    haiku_mgmt_agent.Mgs.Message.strip_type haiku_mgmt_agent.Mgs.Uuid.uuid_digits
    haiku_mgmt_agent.Mgs.Uuid.uuid_from_wire haiku_mgmt_agent.Mgs.Uuid.uuid_loop contains
    haiku_mgmt_agent.Prelude.Text.starts_with haiku_mgmt_agent.Session.Control.accept_session
    haiku_mgmt_agent.Session.Control.is_supported haiku_mgmt_agent.Session.Control.start_session
    haiku_mgmt_agent.Session.Start.read_document haiku_mgmt_agent.Session.Start.read_inputs
    haiku_mgmt_agent.Session.Start.read_task
one_session = refl

abbrev stroke : ℕ → Bytes → AgentMessage
stroke n s = record {
  message_type = codes "input_stream_data";
  schema_version = 1;
  created_ms = 0;
  sequence = n;
  flags = 0;
  message_id = [];
  payload_type = 1;
  payload = s;
}

abbrev bridge : Bridge
bridge = record {
  next_expected = 0;
  outbox = [];
  typed = [];
  sizes = [];
  acked = [];
  running = true;
}

-- The second keystroke comes early and is dropped, the first is repeated, the second comes again.
abbrev delivered : List AgentMessage
delivered =
    stroke 1 (codes "s") ∷ stroke 0 (codes "l") ∷ stroke 0 (codes "l") ∷ stroke 1 (codes "s") ∷ []

abbrev letters : ℕ → Bytes
letters n = if n == 0 then codes "l" else codes "s"

delivered_strokes : All (IsKeystroke letters) delivered
delivered_strokes = (
  (refl, (refl, refl)),
  ((refl, (refl, refl)), ((refl, (refl, refl)), ((refl, (refl, refl)), tt))),
)

handle_all-Typed_example :
    Typed letters 2 delivered bridge (handle_all whole_numbers (λ n. n) delivered bridge)
handle_all-Typed_example =
    handle_all-Typed whole_numbers (λ n. n) letters delivered bridge 2 delivered_strokes
      (omega arith) (between (due refl (between (due refl nothing_due))))

typed_once : (handle_all whole_numbers (λ n. n) delivered bridge).typed ≡ codes "ls"
unfolding handle_all bytes_eq haiku_mgmt_agent.Session.Data.handle_message
    haiku_mgmt_agent.Session.Data.write_keys
typed_once = refl

abbrev role : Credentials
role = record { access_key = codes "k"; secret_key = codes "s"; token = []; expires_at = 900 }

abbrev metadata : Bytes → Bytes
metadata path =
    if bytes_eq path (codes "/latest/meta-data/iam/security-credentials/")
    then codes "role"
    else codes "{\"AccessKeyId\":\"k\",\"SecretAccessKey\":\"s\"}"

get-Usable_example :
    Usable 700 701
      (fetch whole_numbers metadata (λ s. 900))
      (get whole_numbers metadata (λ s. 900) 700 701 role)
get-Usable_example = get-Usable whole_numbers metadata (λ s. 900) 700 701 role

abbrev remote : Remote
remote = record {
  now = λ n. 500;
  later = λ n. 500;
  imds = λ n. metadata;
  expiration = λ s. 900;
  doubles = whole_numbers;
  perform = λ n c. record {
    status = pos 403;
    headers = [];
    body = codes "ExpiredToken";
    sink_bytes = 0;
    error = [];
  };
}

abbrev no_transfers : Transfers
no_transfers = record { cached = role; sent = 0 }

transfer_retries_example :
    ((transfer remote no_transfers).0.sent ≤ 0 + 2)
    × ((transfer remote no_transfers).1 ≡ (
        if expired_token (transfer_once remote 0 no_transfers).1
        then answer_to remote 1 (fetched remote 1)
        else (transfer_once remote 0 no_transfers).1))
transfer_retries_example = transfer_retries remote no_transfers

abbrev headers : List Header
headers = (codes "x-amz-date", []) ∷ (codes "host", []) ∷ []

abbrev outcome : DocumentOutcome
outcome = record { status = success; steps = []; trace = [] }
