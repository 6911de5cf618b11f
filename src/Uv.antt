-- ===== src/Uv.antt =====
-- The libuv calls and the user's callbacks as a connection meets them. libuv is not part of the
-- repository: what its calls return is an argument of the model.
use libuv_server.Prelude.{ℕ, suc, ◌+◌, List, [], ◌∷◌, ◌++◌, ℤ, pos, ◌==ℤ◌, if◌then◌else◌, Bytes}

-- One call made for a connection, or one step of its history that the properties speak of.
pub data Call : Type 0 where
  -- `uv_write` of these bytes, with what it returned.
  write : Bytes → ℤ → Call
  -- `uv_write` of the response to a WebSocket handshake, with what it returned.
  write_handshake : Bytes → ℤ → Call
  -- `uv_close` of the handle with the callback that deletes the connection, and the one that the
  -- server makes with no callback where a read gives no data.
  close_handle close_bare : Call
  -- `uv_timer_start` of the heartbeat timer with its timeout and its repeat, `uv_timer_stop`.
  timer_start : ℕ → ℕ → Call
  timer_stop : Call
  -- The user's `on_open_`, `on_message_` and `on_close_`.
  opened : Call
  message : Bytes → Call
  closed : Call
  -- `Send` put these bytes into the send queue.
  queued : Bytes → Call

-- The calls made so far, the newest first.
abbrev pub Calls : Type 0
Calls = List Call

-- What libuv decides: the result of a write after the calls made so far, and the code of a write
-- that was cancelled by closing the handle.
pub record Uv : Type 0 where
  pub write_result : Calls → Bytes → ℤ
  pub ecanceled : ℤ

-- The bytes given to `uv_write`, in order.
abbrev pub sent : Calls → List Bytes
sent [] = []
sent (write bytes r ∷ cs) = sent cs ++ bytes ∷ []
sent (_ ∷ cs) = sent cs

-- The bytes that `Send` accepted, in order.
abbrev pub accepted : Calls → List Bytes
accepted [] = []
accepted (queued bytes ∷ cs) = accepted cs ++ bytes ∷ []
accepted (_ ∷ cs) = accepted cs

-- The bytes that the message callback was given, in order.
abbrev pub delivered : Calls → List Bytes
delivered [] = []
delivered (message bytes ∷ cs) = delivered cs ++ bytes ∷ []
delivered (_ ∷ cs) = delivered cs

-- How often the handle was closed with the callback that deletes the connection, and with none.
abbrev pub closes : Calls → ℕ
closes [] = 0
closes (close_handle ∷ cs) = suc (closes cs)
closes (_ ∷ cs) = closes cs

abbrev pub bare_closes : Calls → ℕ
bare_closes [] = 0
bare_closes (close_bare ∷ cs) = suc (bare_closes cs)
bare_closes (_ ∷ cs) = bare_closes cs

-- How often the user's `on_open_` and `on_close_` were called.
abbrev pub opens : Calls → ℕ
opens [] = 0
opens (opened ∷ cs) = suc (opens cs)
opens (_ ∷ cs) = opens cs

abbrev pub goodbyes : Calls → ℕ
goodbyes [] = 0
goodbyes (closed ∷ cs) = suc (goodbyes cs)
goodbyes (_ ∷ cs) = goodbyes cs

-- How many writes libuv took on, each of which it reports back once.
abbrev pub writes_begun : Calls → ℕ
writes_begun [] = 0
writes_begun (write bytes r ∷ cs) = (if r ==ℤ pos 0 then 1 else 0) + writes_begun cs
writes_begun (_ ∷ cs) = writes_begun cs
