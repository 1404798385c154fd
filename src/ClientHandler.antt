-- ===== src/ClientHandler.antt =====
-- server/protocol.h, server/client_handler.h and client_handler.cpp: one connection. The bytes that
-- the client sends before it closes its side are the `input`; the responses are collected in
-- `sent`. A write to the socket has no effect but the bytes, since its outcome is never looked at.
pub mod Endings
pub mod Requests
mod Tests
use key_v_db.Common.{
  ℕ, zero, suc, ◌+◌, ◌-◌, ◌*◌, ◌/◌, ◌%◌, ◌^◌, Bool, true, false, not, Option, none, some, List, [],
  ◌∷◌, ◌++◌, length, take, drop, ltb, ◌==◌, nat_eq, if◌then◌else◌, ◌||◌,
}
use key_v_db.Common.Bytes.{Bytes, le_bytes}
use key_v_db.Common.Result.{Result, ok, err, Io, Error, deadlock}
use key_v_db.Btree.{Tree}
use key_v_db.Wal.Log.{begin_txn}
use key_v_db.Txn.{Session, Env, Outcome, returns, throws, pending}
use key_v_db.Txn

abbrev pub op_begin : ℕ
op_begin = 1

abbrev pub op_get : ℕ
op_get = 2

abbrev pub op_put : ℕ
op_put = 3

abbrev pub op_delete : ℕ
op_delete = 4

abbrev pub op_commit : ℕ
op_commit = 5

abbrev pub op_rollback : ℕ
op_rollback = 6

-- STATUS_OK and so on.
abbrev pub status_ok : ℕ
status_ok = 0

abbrev pub status_not_found : ℕ
status_not_found = 1

abbrev pub status_error : ℕ
status_error = 2

abbrev pub status_deadlock : ℕ
status_deadlock = 3

-- ntohs and ntohl, on the bytes as they were read.
unfoldable pub from_be : ℕ → Bytes → ℕ
from_be acc [] = acc
from_be acc (b ∷ bs) = from_be (acc * 256 + b) bs

unfoldable pub to_be : ℕ → ℕ → Bytes
to_be zero n = []
to_be (suc w) n = (n / 256 ^ w) % 256 ∷ to_be w n

-- The rest of the input is lost if it ends too early.
unfoldable pub read_exact : ℕ → Bytes → Option Bytes × Bytes
read_exact n input =
    if ltb (length input) n then (none, []) else (some (take n input), drop n input)

abbrev pub read_body : Option Bytes × Bytes → Option Bytes × Bytes
read_body (none, input) = (none, input)
read_body (some net_len, input) = read_exact (from_be 0 net_len) input

unfoldable pub read_string : Bytes → Option Bytes × Bytes
read_string input = read_body (read_exact 2 input)

-- The texts that `send_error` is called with.
pub data Reason : Type 0 where
  already_open no_transaction unknown_opcode : Reason
  thrown : Error → Reason

unfoldable pub response : ℕ → Bytes → Bytes
response status payload = status ∷ to_be 4 (length payload) ++ payload

-- What the environment does while one request is handled: the lock waits and the writes to the log
-- of the call itself, the syncs of a commit, and the write of the abort record in a clean-up.
pub record World : Type 0 where
  pub env : Env
  pub log_synced : Bool
  pub data_synced : Bool
  pub abort_io : Io

module _ (tree : Tree) (text : Reason → Bytes) where
  -- `session` is the database with the transaction of `txn_`, which is null if `is_open` is false.
  -- `is_stopped` marks a loop that does not go on: its thread waits for a lock, or an exception of
  -- `begin_txn` has left it.
  pub record Handler : Type 0 where
    pub session : Session tree
    pub is_open : Bool
    pub is_stopped : Bool
    pub input : Bytes
    pub sent : Bytes

  abbrev pub send_response : ℕ → Bytes → Handler → Handler
  send_response status payload h = record h { sent = h.sent ++ response status payload }

  abbrev pub send_ok : Handler → Handler
  send_ok h = send_response status_ok [] h

  abbrev pub send_ok_value : Bytes → Handler → Handler
  send_ok_value value h = send_response status_ok (to_be 2 (length value % 2 ^ 16) ++ value) h

  abbrev pub send_error : Reason → Handler → Handler
  send_error reason h = send_response status_error (text reason ++ 0 ∷ []) h

  abbrev pub send_deadlock : Handler → Handler
  send_deadlock h = send_response status_deadlock [] h

  -- The destructor of the transaction: a rollback unless it is finished.
  unfoldable pub destroy : Io → Session tree → Session tree
  destroy io s = if s.finished then s else (Txn.rollback tree io s).1

  -- txn_.reset()
  unfoldable pub reset : Io → Handler → Handler
  reset io h = record h { session = destroy io h.session; is_open = false }

  -- The clauses that end `handle_get`, `handle_put` and `handle_delete`.
  unfoldable pub settle :
      {A : Type 0} → World → Outcome A × Session tree → (A → Handler → Handler) → Handler → Handler
  settle w (returns a, s) reply h = reply a (record h { session = s })
  settle w (throws deadlock, s) reply h =
      send_deadlock (reset w.abort_io (record h { session = s }))
  settle w (throws e, s) reply h = send_error (thrown e) (record h { session = s })
  settle w (pending, s) reply h = record h { session = s; is_stopped = true }

  abbrev pub begun : Result ℕ → Session tree → Handler → Handler
  begun (err e) s h = record h { session = record h.session { log = s.log }; is_stopped = true }
  begun (ok _) s h = send_ok (record h { session = s; is_open = true })

  unfoldable pub handle_begin : World → Handler → Handler
  handle_begin w h =
      let (id, r, log) = begin_txn w.env.io h.session.log in
      let s = record h.session { log = log; txn_id = id; finished = false; write_set = [] } in
      if h.is_open then send_error already_open h else begun r s h

  abbrev pub with_key : Handler → Option Bytes × Bytes → (Bytes → Handler → Handler) → Handler
  with_key h (none, input) call = record h { input = input }
  with_key h (some key, input) call = call key (record h { input = input })

  abbrev pub send_found : Option Bytes → Handler → Handler
  send_found none h = send_response status_not_found [] h
  send_found (some value) h = send_ok_value value h

  unfoldable pub handle_get : World → Handler → Handler
  handle_get w h =
      if not h.is_open
      then send_error no_transaction h
      else with_key h (read_string h.input)
          λ key h'. settle w (Txn.get tree w.env key h'.session) send_found h'

  unfoldable pub handle_put : World → Handler → Handler
  handle_put w h =
      if not h.is_open
      then send_error no_transaction h
      else with_key h (read_string h.input) λ key h1.
        with_key h1 (read_string h1.input)
          λ value h2. settle w (Txn.put tree w.env key value h2.session) (λ _. send_ok) h2

  unfoldable pub handle_delete : World → Handler → Handler
  handle_delete w h =
      if not h.is_open
      then send_error no_transaction h
      else with_key h (read_string h.input)
          λ key h'. settle w (Txn.delete tree w.env key h'.session) (λ _. send_ok) h'

  abbrev pub committed : World → Outcome (Unit {0}) × Session tree → Handler → Handler
  committed w (returns _, s) h = send_ok (reset w.abort_io (record h { session = s }))
  committed w (throws e, s) h = send_error (thrown e) (reset w.abort_io (record h { session = s }))
  committed w (pending, s) h = record h { session = s; is_stopped = true }

  unfoldable pub handle_commit : World → Handler → Handler
  handle_commit w h =
      if not h.is_open
      then send_error no_transaction h
      else committed w (Txn.commit tree w.env.io w.log_synced w.data_synced h.session) h

  unfoldable pub handle_rollback : World → Handler → Handler
  handle_rollback w h =
      let s = (Txn.rollback tree w.env.io h.session).1 in
      if not h.is_open
      then send_error no_transaction h
      else send_ok (reset w.abort_io (record h { session = s }))

  -- The `switch` of the loop.
  unfoldable pub dispatch : ℕ → World → Handler → Handler
  dispatch opcode w h =
      if opcode == op_begin
      then handle_begin w h
      else if opcode == op_get
      then handle_get w h
      else if opcode == op_put
      then handle_put w h
      else if opcode == op_delete
      then handle_delete w h
      else if opcode == op_commit
      then handle_commit w h
      else if opcode == op_rollback
      then handle_rollback w h
      else send_error unknown_opcode h

  abbrev pub with_length : World → Handler → Bytes → Option Bytes × Bytes → Option Handler
  with_length w h opcode (none, input) = none
  with_length w h opcode (some net_payload_len, input) =
      some (dispatch (from_be 0 opcode) w (record h { input = input }))

  abbrev pub with_opcode : World → Handler → Option Bytes × Bytes → Option Handler
  with_opcode w h (none, input) = none
  with_opcode w h (some opcode, input) = with_length w h opcode (read_exact 4 input)

  -- One round of the loop: the payload's length is read and not used; `none` is the `break`.
  unfoldable pub round : World → Handler → Option Handler
  round w h = with_opcode w h (read_exact 1 h.input)

  -- The clean-up when the client has gone.
  unfoldable pub disconnect : World → Handler → Handler
  disconnect w h =
      if h.is_open
      then reset w.abort_io (record h { session = (Txn.rollback tree w.env.io h.session).1 })
      else h

  abbrev pub go_on : World → Handler → Option Handler → (Handler → Option Handler) → Option Handler
  go_on w h none loop = some (disconnect w h)
  go_on w h (some h') loop = if h'.is_stopped then some h' else loop h'

  -- The loop on fuel, one answer of the environment for each round; `none` is out of fuel.
  unfoldable pub run : ℕ → (ℕ → World) → Handler → Option Handler
  run zero world h = none
  run (suc fuel) world h =
      let loop = run fuel world in go_on (world fuel) h (round (world fuel) h) loop
