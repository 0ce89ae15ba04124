-- ===== src/Tests/Packets.antt =====
-- The packet walks at concrete messages.
use trans_proxy.Base.{ℕ, ◌≡◌, refl, true, [], ◌∷◌, arith, ret}
use trans_proxy.Net.{v4}
use trans_proxy.Dns.Name.{parse_query_name, parse_query_type}
use trans_proxy.Dns.Name.Question.{dotted, parse_query-question}
use trans_proxy.Dns.Format.{encode}
use trans_proxy.Dns.Records.{rewrite_ttls, parse_ip_records, extract_min_ttl}
use trans_proxy.Dns.Records.Ageing.{age_message, rewrite_ttls-age_message}
use trans_proxy.Dns.Records.Answers.{parse_ip_records-addresses}
use trans_proxy.Dns.Records.Lowest.{IsLowestTtl, extract_min_ttl-IsLowestTtl}
use trans_proxy.Tests.Data.{site-utf8, question, reply, reply-IsMessage}

rewrite_ttls-age_message_example :
    rewrite_ttls (encode reply []) 100 ≡ ret (encode (age_message 100 reply) [], true)
rewrite_ttls-age_message_example = rewrite_ttls-age_message reply [] 100 reply-IsMessage

parse_ip_records-addresses_example : parse_ip_records (encode reply []) ≡ ret (v4 10 0 0 7 ∷ [])
parse_ip_records-addresses_example = parse_ip_records-addresses reply [] reply-IsMessage

extract_min_ttl-IsLowestTtl_example :
    (t : ℕ) × (extract_min_ttl (encode reply []) ≡ ret t) × IsLowestTtl t reply.answers
extract_min_ttl-IsLowestTtl_example =
    extract_min_ttl-IsLowestTtl reply [] reply-IsMessage (omega arith) (omega arith, tt)

parse_query-question_example :
    (parse_query_name (encode reply []) ≡ dotted question.name)
    × (parse_query_type (encode reply []) ≡ ret 1)
parse_query-question_example =
    parse_query-question reply question [] [] reply-IsMessage refl site-utf8
