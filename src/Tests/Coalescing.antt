-- ===== src/Tests/Coalescing.antt =====
-- The DoH turns at concrete states.
use trans_proxy.Base.{◌≡◌, refl, true, List, [], ◌∷◌, map, arith, ret, Option, none, some}
use trans_proxy.Map
use trans_proxy.Map.Order.{KeyOrder, list_order}
use trans_proxy.Net.{IpAddr-discrete}
use trans_proxy.Dns.Format.{encode}
use trans_proxy.Dns.Records.Replies.{empty_reply}
use trans_proxy.Dns.Table.{TableEntry}
use trans_proxy.Dns.Cache.{Bytes-discrete, CacheEntry}
use trans_proxy.Dns.Cache.Laws.{IsCache}
use trans_proxy.Dns.Udp.{Send, to_client}
use trans_proxy.Dns.Doh.{Joined, subscribers, Doh, Request, on_doh_query, on_doh_answer}
use trans_proxy.Dns.Doh.Turns.{DohHandled, on_doh_query-DohHandled}
use trans_proxy.Dns.Doh.Answer.{on_doh_answer-response, on_doh_answer-failure}
use trans_proxy.Tests.Data.{client, reply, reply-IsMessage, aaaa_query, site_bytes}

abbrev hosts : KeyOrder TableEntry IpAddr-discrete
hosts = list_order IpAddr-discrete

abbrev keys : KeyOrder CacheEntry Bytes-discrete
keys = list_order Bytes-discrete

abbrev joined : Joined
joined = record { client_addr = client; tx_id = 12; name = site_bytes }

abbrev asking : Doh
asking = record { cache = []; table = []; in_flight = (1 ∷ [], joined ∷ []) ∷ [] }

abbrev request : Request
request = record { packet = encode reply []; client_addr = client; name = site_bytes; key = 1 ∷ [] }

on_doh_query-DohHandled_example :
    (s' : Doh) × (req : Option Request) × (sent : List Send) × (on_doh_query hosts true 5 6
        aaaa_query client asking
      ≡ ret (s', req, sent))
    × DohHandled true 5 6 aaaa_query client asking s' req sent
on_doh_query-DohHandled_example =
    on_doh_query-DohHandled hosts true 5 6 aaaa_query client asking (omega arith)

on_doh_answer-response_example :
    (s' : Doh) × (on_doh_answer hosts keys 5 6 request (some (encode reply [])) asking
      ≡ ret (
        s',
        to_client client (encode reply []) ∷ [],
        map (λ j. (j, encode reply [])) (subscribers (1 ∷ []) asking.in_flight),
      ))
    × (Map.get Bytes-discrete (1 ∷ []) s'.in_flight ≡ none)
    × IsCache s'.cache
on_doh_answer-response_example =
    on_doh_answer-response hosts keys 5 6 request (encode reply []) asking
      (record { distinct = tt; bounded = omega arith })

on_doh_answer-failure_example :
    (s' : Doh) × (on_doh_answer hosts keys 5 6 request none asking
      ≡ ret (
        s',
        to_client client (encode (empty_reply reply 2) []) ∷ [],
        map (λ j. (j, encode (empty_reply reply 2) [])) (subscribers (1 ∷ []) asking.in_flight),
      ))
    × (Map.get Bytes-discrete (1 ∷ []) s'.in_flight ≡ none)
on_doh_answer-failure_example =
    on_doh_answer-failure hosts keys 5 6 request reply [] asking reply-IsMessage refl
