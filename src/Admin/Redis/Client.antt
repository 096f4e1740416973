-- ===== src/Admin/Redis/Client.antt =====
-- `RedisCommandClient`: the text that has come in, the commands that wait for a reply, and what
-- each settled command came to. The promises are named by numbers. `chunk.toString("utf8")` is an
-- argument, `decode`.
use kafka_nest_playground.Prelude.{
  ℕ, suc, Bool, true, false, List, [], ◌∷◌, ◌++◌, map, length, if◌then◌else◌,
}
use kafka_nest_playground.Prelude.Text.{codes}
use kafka_nest_playground.Prelude.Decimal.{decimal}
use kafka_nest_playground.Prelude.Tx.{Result, ok, err, Error}
use kafka_nest_playground.Admin.Redis.{
  Units, Signed, RedisReply, number, ParseError, Parsed, incomplete, out_of_fuel, failed, parsed,
  parse_redis_reply,
}

abbrev pub Bytes : Type 0
Bytes = List ℕ

pub data Failure : Type 0 where
  parse_failed : ParseError → Failure
  socket_failed : Failure

pub data Settled : Type 0 where
  resolved : ℕ → RedisReply → Settled
  rejected : Failure → ℕ → Settled

-- `connected`: there is a socket, and it is not destroyed.
pub record Client : Type 0 where
  pub connected : Bool
  pub buffer : Units
  pub pending : List ℕ
  pub settled : List Settled

-- `rejectPending`.
abbrev pub reject_pending : Failure → Client → Client
reject_pending failure c = record c {
  pending = [];
  settled = c.settled ++ map (rejected failure) c.pending;
}

-- The words that `evalNumber` sends, and what it makes of the reply.
abbrev pub eval_words : (script : Units) (keys args : List Units) → List Units
eval_words script keys args = codes "EVAL" ∷ script ∷ decimal (length keys) ∷ (keys ++ args)

abbrev pub number_of_reply : RedisReply → Result Signed
number_of_reply (number n) = ok n
number_of_reply reply = err (Error.plain_error "Unexpected Redis EVAL reply")

-- One round of the loop of `onData`: the command that waits longest, and the rounds after it. The
-- exception rejects all, and the text stays in the buffer.
abbrev pub settle :
    ℕ → List ℕ → Units → List Settled → Parsed RedisReply → (Units → List Settled → Client) → Client
settle id ids buffer settled (parsed reply rest) next =
    next rest (settled ++ resolved id reply ∷ [])
settle id ids buffer settled (failed e) next =
    reject_pending (parse_failed e)
      (record { connected = false; buffer = buffer; pending = id ∷ ids; settled = settled })
settle id ids buffer settled incomplete next = record {
  connected = true;
  buffer = buffer;
  pending = id ∷ ids;
  settled = settled;
}
settle id ids buffer settled out_of_fuel next = record {
  connected = true;
  buffer = buffer;
  pending = id ∷ ids;
  settled = settled;
}

-- `while (this.pending.length > 0)`.
unfoldable pub drain : List ℕ → Units → List Settled → Client
drain [] buffer settled = record {
  connected = true;
  buffer = buffer;
  pending = [];
  settled = settled;
}
drain (id ∷ ids) buffer settled =
    settle id ids buffer settled (parse_redis_reply (suc (length buffer)) buffer) (drain ids)

-- `onData` from the decoded text on; a destroyed socket brings no data.
unfoldable pub on_text : Units → Client → Client
on_text text c = if c.connected then drain c.pending (c.buffer ++ text) c.settled else c

-- `onData`: each piece of data is decoded alone.
unfoldable pub on_data : (decode : Bytes → Units) → Bytes → Client → Client
on_data decode chunk c = on_text (decode chunk) c

-- What happens to a client: a new socket connects, a command is written, data comes in, the socket
-- fails, or it closes.
pub data Event : Type 0 where
  connect socket_error close : Event
  send_command : ℕ → Event
  receive : Bytes → Event

unfoldable pub step : (decode : Bytes → Units) → Event → Client → Client
step decode connect c = record c { connected = true }
step decode socket_error c = record (reject_pending socket_failed c) { connected = false }
step decode close c = record c { connected = false }
step decode (send_command id) c = record c { pending = c.pending ++ id ∷ [] }
step decode (receive chunk) c = on_data decode chunk c

unfoldable pub run : (decode : Bytes → Units) → List Event → Client → Client
run decode [] c = c
run decode (e ∷ es) c = run decode es (step decode e c)

abbrev pub new_client : Client
new_client = record { connected = false; buffer = []; pending = []; settled = [] }
