-- ===== src/Tests/Destinations.antt =====
-- The recovery of a connection's destination at concrete answers of the kernel.
use trans_proxy.Base.{
  refl, [], ◌∷◌, arith, inr, Option, none, some, replicate, ◌++◌, ◌==◌, if◌then◌else◌,
}
use trans_proxy.Net.{v4, v6, SocketAddr}
use trans_proxy.OrigDest.{Endpoint, plain, to_be, Outcome}
use trans_proxy.OrigDest.Linux.{
  SocketOptions, over_mapped, get_original_dest, get_original_dest-Recorded,
}
use trans_proxy.OrigDest.Macos.{PfiocNatlook, redirected, get_original_dest-known}
use trans_proxy.OrigDest.Macos
use trans_proxy.Tests.Data.{client}

abbrev website : SocketAddr
website = record { ip = v4 93 184 216 34; port = 443 }

abbrev mapped_local : SocketAddr
mapped_local = record { ip = v6 (replicate 10 0 ++ 255 ∷ 255 ∷ 10 ∷ 0 ∷ 0 ∷ 1 ∷ []); port = 8443 }

abbrev listener : Endpoint
listener = plain (record { ip = v4 10 0 0 1; port = 8443 })

abbrev kernel : SocketOptions
kernel = record {
  original_dst = some (record { sin_port = to_be 443; sin_addr = (93, (184, (216, 34))) });
  original_dst_v6 = none;
}

get_original_dest-Recorded_example :
    Outcome listener (plain website) (get_original_dest kernel mapped_local listener)
get_original_dest-Recorded_example =
    get_original_dest-Recorded kernel mapped_local (plain website) listener
      (over_mapped (10 ∷ 0 ∷ 0 ∷ 1 ∷ []) 93 184 216 34 443 (omega arith) refl)

-- The table has the connection as one that comes in.
abbrev incoming_only : PfiocNatlook → Option PfiocNatlook
incoming_only nl = if nl.direction == 1 then none else some (redirected website nl)

get_original_dest-known_example :
    Outcome listener
      (plain website)
      (Macos.get_original_dest 2 30 6 incoming_only client listener listener)
unfolding Macos.natlook
get_original_dest-known_example =
    get_original_dest-known 2 30 refl 6 incoming_only client website listener listener tt tt
      (omega arith) (inr (refl, refl))
