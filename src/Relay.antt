-- ===== src/Relay.antt =====
-- `relay_with_shutdown` of src/proxy.rs: the state of its loop, a function for each arm of its
-- `select!`, and the sequences of turns that it can take. What was read is written within the arm, and
-- until the write has ended, however long the peer takes, no other arm runs and the timer is not
-- looked at: `writing` is that write. A read or a write that fails ends the call with an error, and is
-- no turn.
pub mod Laws
use trans_proxy.Base.{
  ℕ, ◌+◌, ◌*◌, ◌≡◌, true, false, Bool, not, ◌&&◌, ◌||◌, List, [], ◌∷◌, ◌++◌, ◌%◌, Bytes, length,
  if◌then◌else◌, Option, none, some,
}
use trans_proxy.Base.{◌^◌}

-- To the upstream or to the client.
pub data Side : Type 0 where
  up down : Side

-- The two counters are 64-bit. `sent_up` and `sent_down` are what was written to the upstream
-- and to the client by writes that have ended; a half is shut once `shutdown` was called on it.
pub record Relay : Type 0 where
  pub sent_up : Bytes
  pub sent_down : Bytes
  pub client_bytes : ℕ
  pub server_bytes : ℕ
  pub client_eof : Bool
  pub server_eof : Bool
  pub grace_timer : Bool
  pub up_shut : Bool
  pub down_shut : Bool
  pub writing : Option (Side × Bytes)

abbrev pub relay_start : Relay
relay_start = record {
  sent_up = [];
  sent_down = [];
  client_bytes = 0;
  server_bytes = 0;
  client_eof = false;
  server_eof = false;
  grace_timer = false;
  up_shut = false;
  down_shut = false;
  writing = none;
}

-- What a turn waits for: a read of the client or of the upstream, with the bytes read, none at
-- the end of the stream, the end of a write, or the end of the grace period.
pub data Event : Type 0 where
  client_read : Bytes → Event
  server_read : Bytes → Event
  write_ended : Event
  grace_over : Event

unfoldable pub on_client_read : Bytes → Relay → Relay
on_client_read [] s = record s {
  client_eof = true;
  grace_timer = s.grace_timer || not s.server_eof;
  up_shut = true;
}
on_client_read (b ∷ bs) s = record s { writing = some (up, b ∷ bs) }

unfoldable pub on_server_read : Bytes → Relay → Relay
on_server_read [] s = record s {
  server_eof = true;
  grace_timer = s.grace_timer || not s.client_eof;
  down_shut = true;
}
on_server_read (b ∷ bs) s = record s { writing = some (down, b ∷ bs) }

-- `write_all` has returned: the rest of the arm.
unfoldable pub finish_write : Option (Side × Bytes) → Relay → Relay
finish_write none s = s
finish_write (some (up, bs)) s = record s {
  sent_up = s.sent_up ++ bs;
  client_bytes = (s.client_bytes + length bs) % 2 ^ 64;
  writing = none;
}
finish_write (some (down, bs)) s = record s {
  sent_down = s.sent_down ++ bs;
  server_bytes = (s.server_bytes + length bs) % 2 ^ 64;
  writing = none;
}

unfoldable pub on_grace_over : Relay → Relay
on_grace_over s = record s {
  up_shut = if not s.client_eof then true else s.up_shut;
  client_eof = true;
  down_shut = if not s.server_eof then true else s.down_shut;
  server_eof = true;
}

unfoldable pub turn : Event → Relay → Relay
turn (client_read bs) s = on_client_read bs s
turn (server_read bs) s = on_server_read bs s
turn write_ended s = finish_write s.writing s
turn grace_over s = on_grace_over s

-- The loop is left when both sides are at their end.
abbrev pub is_done : Relay → Bool
is_done s = s.client_eof && s.server_eof

abbrev pub is_idle : Option (Side × Bytes) → Bool
is_idle none = true
is_idle (some _) = false

-- The arms of `select!` that may run, or the end of the write within one.
unfoldable pub is_enabled : Event → Relay → Bool
is_enabled (client_read _) s = is_idle s.writing && not s.client_eof
is_enabled (server_read _) s = is_idle s.writing && not s.server_eof
is_enabled write_ended s = not (is_idle s.writing)
is_enabled grace_over s = is_idle s.writing && (s.grace_timer && not (is_done s))

-- The turns taken so far, the last one first, and the state that they lead to.
pub data Turns : List Event → Relay → Type 0 where
  start : Turns [] relay_start
  next :
      {events : List Event} {s : Relay} (e : Event)
      → Turns events s
      → is_done s ≡ false
      → is_enabled e s ≡ true
      → Turns (e ∷ events) (turn e s)
