-- ===== src/Tests/Data.antt =====
-- Concrete messages and states.
use trans_proxy.Base.{◌≡◌, refl, true, [], ◌∷◌, arith, Bytes, none, some}
use native.Mathlib.Decide.{ℕ_discrete}
use trans_proxy.Map
use trans_proxy.Net.{v4, SocketAddr}
use trans_proxy.Base.Utf8.{is_utf8}
use trans_proxy.Dns.Format.{
  All, root, WireName, Question, ResourceRecord, Message, IsName, IsMessage,
}
use trans_proxy.Dns.Pending.{Pending, PendingQuery, eq_ignore_ascii_case}
use trans_proxy.Dns.Pending.Match.{Answers}

-- `a.io`
abbrev pub site : WireName
site = record { labels = (97 ∷ []) ∷ (105 ∷ 111 ∷ []) ∷ []; ending = root }

abbrev pub site_bytes : Bytes
site_bytes = 97 ∷ 46 ∷ 105 ∷ 111 ∷ []

abbrev pub question : Question
question = record { name = site; qtype = 1; qclass = 1 }

abbrev pub answer : ResourceRecord
answer = record { name = site; rtype = 1; rclass = 1; ttl = 300; rdata = 10 ∷ 0 ∷ 0 ∷ 7 ∷ [] }

abbrev pub reply : Message
reply = record {
  tx_id = 7;
  flags_high = 0x81;
  flags_low = 0x80;
  questions = question ∷ [];
  answers = answer ∷ [];
  authority = [];
  additional = [];
}

pub site-IsName : IsName site
site-IsName = record {
  labels = (
    record { not_empty = omega arith; short = omega arith },
    (record { not_empty = omega arith; short = omega arith }, tt),
  );
  ending = tt;
}

pub reply-IsMessage : IsMessage reply
reply-IsMessage = record {
  questions = (record { name = site-IsName; qtype = omega arith; qclass = omega arith }, tt);
  answers = (
    record {
      name = site-IsName;
      rtype = omega arith;
      rclass = omega arith;
      ttl = omega arith;
      rdata = omega arith;
    },
    tt,
  );
  authority = tt;
  additional = tt;
  question_count = omega arith;
  answer_count = omega arith;
  authority_count = omega arith;
  additional_count = omega arith;
}

abbrev pub client : SocketAddr
client = record { ip = v4 192 168 1 20; port = 5000 }

-- The query that the reply answers: it came under the id 99.
abbrev pub waiting : PendingQuery
waiting = record {
  client_addr = client;
  client_tx_id = 99;
  name = site_bytes;
  qtype = 1;
  created = 0;
}

abbrev pub pending : Pending
pending = (7, waiting) ∷ []

-- The query, of type AAAA.
abbrev pub aaaa_query : Bytes
aaaa_query =
    0 ∷ 99 ∷ 1 ∷ 0 ∷ 0 ∷ 1 ∷ 0 ∷ 0 ∷ 0 ∷ 0 ∷ 0 ∷ 0 ∷ 1 ∷ 97 ∷ 2 ∷ 105 ∷ 111 ∷ 0 ∷ 0 ∷ 28 ∷ 0 ∷ 1
    ∷ []

pub site-utf8 : All (λ l. is_utf8 l ≡ true) site.labels
unfolding is_utf8
site-utf8 = (refl, (refl, tt))

-- What the map of the pending queries holds.
pub pending-Distinct : Map.Distinct ℕ_discrete pending
unfolding Map.get
pending-Distinct = (refl, tt)

pub seven_waits : Map.get ℕ_discrete 7 pending ≡ some waiting
unfolding Map.get ℕ_discrete
seven_waits = refl

pub eight_free : Map.get ℕ_discrete 8 pending ≡ none
unfolding Map.get ℕ_discrete
eight_free = refl

-- The reply answers the query, also where it spells the name in capitals.
abbrev pub capitals : Bytes
capitals = 65 ∷ 46 ∷ 73 ∷ 79 ∷ []

pub capitals-Answers : Answers waiting capitals 1
unfolding eq_ignore_ascii_case
capitals-Answers = record { same_name = refl; same_type = refl }

pub site-Answers : Answers waiting site_bytes 1
unfolding eq_ignore_ascii_case
site-Answers = record { same_name = refl; same_type = refl }
