-- ===== src/Writer.antt =====
-- src/client/mod.rs: the writer task of a client. It takes messages from two queues in any order,
-- and puts them on the socket.
pub mod Sendq
use clandestine.Prelude.{
  ℕ, ◌+◌, ◌-◌, String, Bool, true, false, List, [], ◌∷◌, ◌++◌, if◌then◌else◌, leb, ◌≡◌,
}
use Prim.Native.String.{len}

abbrev pub max_sendq : ℕ
max_sendq = 40960

pub record Writer : Type 0 where
  -- the messages that wait in the queues, oldest first
  pub rx : List String
  pub sendq_rx : List String
  pub current_sendq_size : ℕ
  -- what has been written to the socket, oldest first
  pub written : List String
  pub dropped : List String
  -- whether the client object still exists, which has the senders of both queues
  pub has_senders : Bool
  -- whether the loop still runs
  pub running : Bool

-- `write_all` and `flush`, which can fail
abbrev write_out : Bool → String → Writer → Writer
write_out true msg s = record s { written = s.written ++ msg ∷ [] }
write_out false msg s = record s { running = false }

-- A message for immediate writing.
unfoldable pub write_immediate : Bool → String → Writer → Writer
write_immediate io_ok msg s = write_out io_ok msg s

-- A failed write leaves the loop before the size is taken back.
abbrev take_back : ℕ → Writer → Writer
take_back n s = if s.running then record s { current_sendq_size = s.current_sendq_size - n } else s

unfoldable pub write_queued : Bool → String → Writer → Writer
write_queued io_ok msg s =
    if leb (s.current_sendq_size + len msg) max_sendq
    then take_back (len msg)
        (write_out io_ok msg (record s { current_sendq_size = s.current_sendq_size + len msg }))
    else record s { dropped = s.dropped ++ msg ∷ [] }

-- One round of `select!`: either queue may be served. Without its sender, an empty queue is closed, which
-- leaves the loop, whatever the other queue still has.
pub data Round : Writer → Writer → Type 0 where
  immediate :
      (s : Writer) (io_ok : Bool) (msg : String) (more : List String)
      → s.running ≡ true
      → s.rx ≡ msg ∷ more
      → Round s (write_immediate io_ok msg (record s { rx = more }))
  queued :
      (s : Writer) (io_ok : Bool) (msg : String) (more : List String)
      → s.running ≡ true
      → s.sendq_rx ≡ msg ∷ more
      → Round s (write_queued io_ok msg (record s { sendq_rx = more }))
  immediate_closed :
      (s : Writer)
      → s.running ≡ true
      → s.has_senders ≡ false
      → s.rx ≡ []
      → Round s (record s { running = false })
  queued_closed :
      (s : Writer)
      → s.running ≡ true
      → s.has_senders ≡ false
      → s.sendq_rx ≡ []
      → Round s (record s { running = false })
