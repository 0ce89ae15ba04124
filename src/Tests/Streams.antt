-- ===== src/Tests/Streams.antt =====
-- The relay and the CONNECT response at concrete inputs.
use trans_proxy.Base.{◌≡◌, none, refl, true, false, List, [], ◌∷◌}
use trans_proxy.Relay.{
  Relay, relay_start, Event, client_read, write_ended, grace_over, finish_write, on_client_read,
  turn, is_done, is_enabled, Turns, start, next,
}
use trans_proxy.Relay.Laws.{IsRelay, Turns-IsRelay, Turns-grace}

-- The client sends two bytes and ends its stream.
abbrev events : List Event
events = client_read [] ∷ write_ended ∷ client_read (1 ∷ 2 ∷ []) ∷ []

abbrev half_closed : Relay
half_closed = turn (client_read []) (turn write_ended (turn (client_read (1 ∷ 2 ∷ [])) relay_start))

half_closed-Turns : Turns events half_closed
unfolding is_enabled turn on_client_read finish_write
half_closed-Turns =
    next (client_read [])
      (next write_ended (next (client_read (1 ∷ 2 ∷ [])) start refl refl) refl refl) refl refl

Turns-IsRelay_example : IsRelay events half_closed
Turns-IsRelay_example = Turns-IsRelay events half_closed half_closed-Turns

half_closed-idle : half_closed.writing ≡ none
unfolding turn on_client_read finish_write
half_closed-idle = refl

half_closed-going : is_done half_closed ≡ false
unfolding turn on_client_read finish_write
half_closed-going = refl

Turns-grace_example :
    (is_enabled grace_over half_closed ≡ true)
    × (is_done (turn grace_over half_closed) ≡ true)
    × ((turn grace_over half_closed).up_shut ≡ true)
    × ((turn grace_over half_closed).down_shut ≡ true)
Turns-grace_example =
    Turns-grace events half_closed half_closed-Turns refl half_closed-going half_closed-idle
