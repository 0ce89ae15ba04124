-- ===== src/Relay/Laws.antt =====
-- What holds of the relay of src/proxy.rs after any turns.
use trans_proxy.Base.{
  ℕ, ◌+◌, ◌≡◌, refl, sym, ap, ◌∙◌, true, false, Bool, not, ◌&&◌, ◌||◌, List, [], ◌∷◌, ◌++◌, arith,
  append-nil, ◌%◌, Bytes, length, length-append, if◌then◌else◌, both_true, Option, none, some,
}
use trans_proxy.Base.{◌^◌}
use trans_proxy.Relay.{
  Side, up, down, Relay, Event, client_read, server_read, write_ended, grace_over, on_client_read,
  on_server_read, finish_write, on_grace_over, turn, is_done, is_idle, is_enabled, Turns, start,
  next,
}

-- What was read of the client, in order, and of the upstream.
abbrev pub client_data : List Event → Bytes
client_data [] = []
client_data (client_read bs ∷ es) = client_data es ++ bs
client_data (server_read _ ∷ es) = client_data es
client_data (write_ended ∷ es) = client_data es
client_data (grace_over ∷ es) = client_data es

abbrev pub server_data : List Event → Bytes
server_data [] = []
server_data (server_read bs ∷ es) = server_data es ++ bs
server_data (client_read _ ∷ es) = server_data es
server_data (write_ended ∷ es) = server_data es
server_data (grace_over ∷ es) = server_data es

-- Whether the client's stream was read to its end, or given up when the grace period was over; and
-- the upstream's.
abbrev pub client_over : List Event → Bool
client_over [] = false
client_over (client_read [] ∷ es) = true
client_over (client_read (_ ∷ _) ∷ es) = client_over es
client_over (server_read _ ∷ es) = client_over es
client_over (write_ended ∷ es) = client_over es
client_over (grace_over ∷ es) = true

abbrev pub server_over : List Event → Bool
server_over [] = false
server_over (server_read [] ∷ es) = true
server_over (server_read (_ ∷ _) ∷ es) = server_over es
server_over (client_read _ ∷ es) = server_over es
server_over (write_ended ∷ es) = server_over es
server_over (grace_over ∷ es) = true

-- What the write under way has of each side.
abbrev pub going_up : Option (Side × Bytes) → Bytes
going_up none = []
going_up (some (up, bs)) = bs
going_up (some (down, bs)) = []

abbrev pub going_down : Option (Side × Bytes) → Bytes
going_down none = []
going_down (some (up, bs)) = []
going_down (some (down, bs)) = bs

pub record IsRelay (events : List Event) (s : Relay) : Type 0 where
  pub up_is : s.sent_up ++ going_up s.writing ≡ client_data events
  pub down_is : s.sent_down ++ going_down s.writing ≡ server_data events
  pub client_count : s.client_bytes ≡ length s.sent_up % 2 ^ 64
  pub server_count : s.server_bytes ≡ length s.sent_down % 2 ^ 64
  pub client_end : s.client_eof ≡ client_over events
  pub server_end : s.server_eof ≡ server_over events
  pub up_half : s.up_shut ≡ client_over events
  pub down_half : s.down_shut ≡ server_over events
  pub timed : s.grace_timer ≡ (client_over events || server_over events)

-- Nothing is being written.
idle_is : (w : Option (Side × Bytes)) → is_idle w ≡ true → w ≡ none
idle_is none h = refl
idle_is (some _) h = cc

count_step :
    (sent bs : Bytes) (count : ℕ)
    → count ≡ length sent % 2 ^ 64
    → (count + length bs) % 2 ^ 64 ≡ length (sent ++ bs) % 2 ^ 64
count_step sent bs count h = omega (arith, length-append sent bs)

-- With one stream over, or with the other as well.
armed : (t c d : Bool) → t ≡ (c || d) → c ≡ false → (t || not d) ≡ true
armed t false true h e = rw h refl
armed t c false h e = ground arith
armed t true true h e = cc

armed_other : (t c d : Bool) → t ≡ (c || d) → d ≡ false → (t || not c) ≡ (c || true)
armed_other t true d h e = rw h refl
armed_other t false d h e = ground arith

client-IsRelay :
    (bs : Bytes) (events : List Event) (s : Relay)
    → s.writing ≡ none
    → s.client_eof ≡ false
    → IsRelay events s
    → IsRelay (client_read bs ∷ events) (on_client_read bs s)
unfolding on_client_read
client-IsRelay [] events s idle going h = record {
  up_is = h.up_is ∙ sym (append-nil (client_data events));
  down_is = h.down_is;
  client_count = h.client_count;
  server_count = h.server_count;
  client_end = refl;
  server_end = h.server_end;
  up_half = refl;
  down_half = h.down_half;
  timed = rw h.server_end (
      armed s.grace_timer (client_over events) (server_over events) h.timed
        (sym h.client_end ∙ going));
}
client-IsRelay (b ∷ bs) events s idle going h = record {
  up_is =
      ap (λ x. x ++ b ∷ bs)
        (sym (append-nil s.sent_up) ∙ ap (λ w. s.sent_up ++ going_up w) (sym idle) ∙ h.up_is);
  down_is = ap (λ w. s.sent_down ++ going_down w) (sym idle) ∙ h.down_is;
  client_count = h.client_count;
  server_count = h.server_count;
  client_end = h.client_end;
  server_end = h.server_end;
  up_half = h.up_half;
  down_half = h.down_half;
  timed = h.timed;
}

server-IsRelay :
    (bs : Bytes) (events : List Event) (s : Relay)
    → s.writing ≡ none
    → s.server_eof ≡ false
    → IsRelay events s
    → IsRelay (server_read bs ∷ events) (on_server_read bs s)
unfolding on_server_read
server-IsRelay [] events s idle going h = record {
  up_is = h.up_is;
  down_is = h.down_is ∙ sym (append-nil (server_data events));
  client_count = h.client_count;
  server_count = h.server_count;
  client_end = h.client_end;
  server_end = refl;
  up_half = h.up_half;
  down_half = refl;
  timed = rw h.client_end (
      armed_other s.grace_timer (client_over events) (server_over events) h.timed
        (sym h.server_end ∙ going));
}
server-IsRelay (b ∷ bs) events s idle going h = record {
  up_is = ap (λ w. s.sent_up ++ going_up w) (sym idle) ∙ h.up_is;
  down_is =
      ap (λ x. x ++ b ∷ bs)
        (sym (append-nil s.sent_down)
          ∙ ap (λ w. s.sent_down ++ going_down w) (sym idle)
          ∙ h.down_is);
  client_count = h.client_count;
  server_count = h.server_count;
  client_end = h.client_end;
  server_end = h.server_end;
  up_half = h.up_half;
  down_half = h.down_half;
  timed = h.timed;
}

written-IsRelay :
    (w : Option (Side × Bytes)) (events : List Event) (s : Relay)
    → s.writing ≡ w
    → IsRelay events s
    → IsRelay (write_ended ∷ events) (finish_write w s)
unfolding finish_write
written-IsRelay none events s e h = record {
  up_is = h.up_is;
  down_is = h.down_is;
  client_count = h.client_count;
  server_count = h.server_count;
  client_end = h.client_end;
  server_end = h.server_end;
  up_half = h.up_half;
  down_half = h.down_half;
  timed = h.timed;
}
written-IsRelay (some (up, bs)) events s e h = record {
  up_is = append-nil (s.sent_up ++ bs) ∙ ap (λ w. s.sent_up ++ going_up w) (sym e) ∙ h.up_is;
  down_is = ap (λ w. s.sent_down ++ going_down w) (sym e) ∙ h.down_is;
  client_count = count_step s.sent_up bs s.client_bytes h.client_count;
  server_count = h.server_count;
  client_end = h.client_end;
  server_end = h.server_end;
  up_half = h.up_half;
  down_half = h.down_half;
  timed = h.timed;
}
written-IsRelay (some (down, bs)) events s e h = record {
  up_is = ap (λ w. s.sent_up ++ going_up w) (sym e) ∙ h.up_is;
  down_is =
      append-nil (s.sent_down ++ bs) ∙ ap (λ w. s.sent_down ++ going_down w) (sym e) ∙ h.down_is;
  client_count = h.client_count;
  server_count = count_step s.sent_down bs s.server_bytes h.server_count;
  client_end = h.client_end;
  server_end = h.server_end;
  up_half = h.up_half;
  down_half = h.down_half;
  timed = h.timed;
}

-- A half that was not shut is shut now.
shut_now :
    (shut eof over : Bool) → shut ≡ over → eof ≡ over → (if not eof then true else shut) ≡ true
shut_now shut true over h e = h ∙ sym e
shut_now shut false over h e = refl

grace-IsRelay :
    (events : List Event) (s : Relay)
    → s.grace_timer ≡ true
    → IsRelay events s
    → IsRelay (grace_over ∷ events) (on_grace_over s)
unfolding on_grace_over
grace-IsRelay events s timer h = record {
  up_is = h.up_is;
  down_is = h.down_is;
  client_count = h.client_count;
  server_count = h.server_count;
  client_end = refl;
  server_end = refl;
  up_half = shut_now s.up_shut s.client_eof (client_over events) h.up_half h.client_end;
  down_half = shut_now s.down_shut s.server_eof (server_over events) h.down_half h.server_end;
  timed = timer;
}

negated : (b : Bool) → not b ≡ true → b ≡ false
negated true h = cc
negated false h = refl

turn-IsRelay :
    (e : Event) (events : List Event) (s : Relay)
    → is_enabled e s ≡ true
    → IsRelay events s
    → IsRelay (e ∷ events) (turn e s)
unfolding turn is_enabled
turn-IsRelay (client_read bs) events s enabled h =
    let (idle, unread) = both_true (is_idle s.writing) (not s.client_eof) enabled in
    client-IsRelay bs events s (idle_is s.writing idle) (negated s.client_eof unread) h
turn-IsRelay (server_read bs) events s enabled h =
    let (idle, unread) = both_true (is_idle s.writing) (not s.server_eof) enabled in
    server-IsRelay bs events s (idle_is s.writing idle) (negated s.server_eof unread) h
turn-IsRelay write_ended events s enabled h = written-IsRelay s.writing events s refl h
turn-IsRelay grace_over events s enabled h =
    let (idle, ready) = both_true (is_idle s.writing) (s.grace_timer && not (is_done s)) enabled in
    grace-IsRelay events s (both_true s.grace_timer (not (is_done s)) ready).0 h

-- After any turns: what was written to each side, and then what is being written, is what was read of
-- the other, in order; the counters are the bytes written, modulo 2^64; a half is shut just if the
-- other stream was at its end or the grace period over; the timer runs just if either was.
pub Turns-IsRelay : (events : List Event) (s : Relay) → Turns events s → IsRelay events s
Turns-IsRelay events s start = record {
  up_is = refl;
  down_is = refl;
  client_count = refl;
  server_count = refl;
  client_end = refl;
  server_end = refl;
  up_half = refl;
  down_half = refl;
  timed = refl;
}
Turns-IsRelay events s (next {events = before} {s = last} e turns going enabled) =
    turn-IsRelay e before last enabled (Turns-IsRelay before last turns)

-- Where one of the streams was read to its end, the loop still runs and no write is under way, the end
-- of the grace period is a turn that may be taken, and it ends the loop with both halves shut.
pub Turns-grace :
    (events : List Event) (s : Relay)
    → Turns events s
    → (client_over events || server_over events) ≡ true
    → is_done s ≡ false
    → s.writing ≡ none
    → (is_enabled grace_over s ≡ true)
      × (is_done (turn grace_over s) ≡ true)
      × ((turn grace_over s).up_shut ≡ true)
      × ((turn grace_over s).down_shut ≡ true)
unfolding is_enabled turn on_grace_over
Turns-grace events s turns ended going idle =
    let h = Turns-IsRelay events s turns in
    let timer : s.grace_timer ≡ true = h.timed ∙ ended in
    (
      rw (idle, timer, going),
      refl,
      shut_now s.up_shut s.client_eof (client_over events) h.up_half h.client_end,
      shut_now s.down_shut s.server_eof (server_over events) h.down_half h.server_end,
    )
