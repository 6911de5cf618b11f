-- ===== src/Tcp/Channel.antt =====
-- What a TCP connection promises its user: a bounded channel of texts that can be closed. The
-- connection of src/uv_net/tcp_connection.cpp is held against it in Refines.
pub mod View
pub mod Refines
use libuv_server.Prelude.{ℕ, ◌<◌, ◌≡◌, ◌≢◌, List, [], ◌∷◌, ◌++◌, length, Bytes}

pub data Mode : Type 0 where
  -- Texts are accepted; those accepted are still passed on; the channel is closed.
  accepting draining finished : Mode

-- `waiting` was accepted and not passed on yet, the oldest first; `passed` was handed to the
-- network, in order.
pub record Channel : Type 0 where
  pub waiting : List Bytes
  pub passed : List Bytes
  pub mode : Mode

-- The moves of a channel that holds at most `limit` texts.
pub data Move (limit : ℕ) : Channel → Channel → Type 0 where
  accept :
      (waiting passed : List Bytes) (text : Bytes)
      → length waiting < limit
      → Move limit
          (record { waiting = waiting; passed = passed; mode = accepting })
          (record { waiting = waiting ++ text ∷ []; passed = passed; mode = accepting })
  pass :
      (text : Bytes) (waiting passed : List Bytes) (mode : Mode)
      → mode ≢ finished
      → Move limit
          (record { waiting = text ∷ waiting; passed = passed; mode = mode })
          (record { waiting = waiting; passed = passed ++ text ∷ []; mode = mode })
  drain :
      (waiting passed : List Bytes)
      → Move limit
          (record { waiting = waiting; passed = passed; mode = accepting })
          (record { waiting = waiting; passed = passed; mode = draining })
  -- A channel is closed only when nothing waits.
  finish :
      (passed : List Bytes) (mode : Mode)
      → Move limit
          (record { waiting = []; passed = passed; mode = mode })
          (record { waiting = []; passed = passed; mode = finished })

pub data Moves (limit : ℕ) (a : Channel) : Channel → Type 0 where
  none_made : Moves limit a a
  made : {b c : Channel} → Moves limit a b → Move limit b c → Moves limit a c

-- A new channel.
abbrev pub empty_channel : Channel
empty_channel = record { waiting = []; passed = []; mode = accepting }
