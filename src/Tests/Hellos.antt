-- ===== src/Tests/Hellos.antt =====
-- The ClientHello parser at a concrete record.
use trans_proxy.Base.{
  ℕ, zero, suc, ◌<◌, ◌≡◌, refl, [], ◌∷◌, arith, Bytes, length, take, replicate, ret, Option, some,
}
use trans_proxy.Base.Utf8.{is_utf8}
use trans_proxy.Base.{true}
use trans_proxy.Net.{v4, SocketAddr}
use trans_proxy.Hostname.{NameFrom, connection_hostname, connection_hostname-NameFrom}
use trans_proxy.Sni.{parse_sni_from_client_hello, extract_sni}
use trans_proxy.Sni.Hello.{
  ClientHello, IsHello, encode_names, encode_server_name, encode_extensions, encode_session,
  encode_body, encode_hello,
}
use trans_proxy.Sni.Read.{parse_sni-hello}
use trans_proxy.Sni.Arrival.{hello_size, extract_sni-hello}

-- A record for `a.io`, with one extension in front of server_name.
abbrev hello : ClientHello
hello = record {
  version_high = 3;
  version_low = 1;
  size_high = 0;
  size_middle = 0;
  size_low = 60;
  version_and_random = replicate 34 3;
  session_id = 1 ∷ 2 ∷ [];
  cipher_suites = 19 ∷ 1 ∷ [];
  compression = 0 ∷ [];
  before = record { ext_type = 10; payload = 0 ∷ 29 ∷ [] } ∷ [];
  host = 97 ∷ 46 ∷ 105 ∷ 111 ∷ [];
  more_names = [];
  after = 0 ∷ 11 ∷ 0 ∷ 0 ∷ [];
}

body_size : length (encode_body hello) ≡ 72
unfolding encode_body encode_session encode_extensions encode_server_name encode_names
body_size = refl

hello-IsHello : IsHello hello
unfolding is_utf8
hello-IsHello = record {
  random = refl;
  session = omega arith;
  compression = omega arith;
  before = (omega arith, omega arith, omega arith, tt);
  host = refl;
  size = omega (arith, body_size);
}

parse_sni-hello_example : parse_sni_from_client_hello (encode_hello hello (1 ∷ [])) ≡ ret hello.host
parse_sni-hello_example = parse_sni-hello hello (1 ∷ []) hello-IsHello

-- The first peek returns ten bytes, every later one the whole record.
abbrev peek : ℕ → Option Bytes
peek zero = some (take 10 (encode_hello hello []))
peek (suc i) = some (encode_hello hello [])

first_part :
    (j : ℕ)
    → j < 1
    → (0 < 10) × (10 < hello_size hello) × (peek j ≡ some (take 10 (encode_hello hello [])))
first_part zero lt = (omega arith, omega (arith, body_size), refl)
first_part (suc j) lt = absurd (omega arith)

extract_sni-hello_example : extract_sni peek ≡ ret (some hello.host)
extract_sni-hello_example =
    extract_sni-hello peek (λ _. 10) 1 hello [] hello-IsHello (omega (arith, body_size))
      (omega arith) first_part refl

abbrev dest : SocketAddr
dest = record { ip = v4 10 0 0 7; port = 443 }

connection_hostname-NameFrom_example :
    (name : Option Bytes) × (connection_hostname true 5 dest (some (extract_sni peek)) []
      ≡ ret name)
    × NameFrom peek 5 dest [] name
connection_hostname-NameFrom_example = connection_hostname-NameFrom true 5 dest peek true []
