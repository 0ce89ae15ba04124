-- ===== src/Tests/Forwarder.antt =====
-- The turns of the UDP forwarder at concrete packets.
use trans_proxy.Base.{◌≡◌, ◌⊎◌, refl, false, List, [], ◌∷◌, arith, ret, byte, be16}
use native.Mathlib.Decide.{ℕ_discrete}
use trans_proxy.Map
use trans_proxy.Map.Order.{KeyOrder, list_order}
use trans_proxy.Net.{IpAddr-discrete}
use trans_proxy.Dns.Name.{parse_query_type, qtype_loop, join}
use trans_proxy.Dns.Name.Question.{dotted}
use trans_proxy.Dns.Format.{encode}
use trans_proxy.Dns.Table.{Table, TableEntry}
use trans_proxy.Dns.Pending.{Pending}
use trans_proxy.Dns.Udp.{Send, to_client, query_type, on_query, on_response}
use trans_proxy.Dns.Udp.Query.{Handled, on_query-Handled}
use trans_proxy.Dns.Udp.Response.{Learnt, Delivered, on_response-Delivered}
use trans_proxy.Dns.Udp.Reply.{on_response-reply}
use trans_proxy.Tests.Data.{
  client, question, reply, reply-IsMessage, aaaa_query, site_bytes, site-utf8, site-Answers,
  waiting, pending, pending-Distinct, seven_waits,
}

abbrev hosts : KeyOrder TableEntry IpAddr-discrete
hosts = list_order IpAddr-discrete

aaaa_query-type : query_type aaaa_query ≡ ret 28
unfolding query_type parse_query_type qtype_loop byte be16
aaaa_query-type = refl

on_query-Handled_example :
    (pending' : Pending) × (sent : List Send) × (on_query false (8 ∷ []) 5 aaaa_query client pending
      ≡ ret (pending', sent))
    × Handled false (8 ∷ []) 5 aaaa_query client pending pending' sent
on_query-Handled_example =
    on_query-Handled false (8 ∷ []) 5 aaaa_query client pending (omega arith) pending-Distinct

on_response-Delivered_example :
    (r : Pending × Table × List Send) × (on_response hosts 5 (encode reply []) pending [] ≡ ret r)
    × ((r ≡ (pending, [], [])) ⊎ Delivered hosts 5 (encode reply []) pending r.0 [] r.1 r.2)
on_response-Delivered_example = on_response-Delivered hosts 5 (encode reply []) pending []

site-dotted : dotted question.name ≡ ret site_bytes
unfolding join
site-dotted = refl

on_response-reply_example :
    (table' : Table) × Learnt hosts 5 (encode reply []) site_bytes [] table'
    × (on_response hosts 5 (encode reply []) pending []
        ≡ ret (
          Map.remove ℕ_discrete 7 pending,
          table',
          to_client client (encode (record reply { tx_id = 99 }) []) ∷ [],
        ))
on_response-reply_example =
    on_response-reply hosts 5 reply question [] [] pending [] waiting site_bytes reply-IsMessage
      (omega arith) refl site-utf8 site-dotted refl seven_waits site-Answers
