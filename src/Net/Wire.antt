-- ===== src/Net/Wire.antt =====
-- A TCP stream: what the other side will send, what was written so far, and how many more writes
-- succeed. A read that finds too few bytes fails, for the stream was closed or the timeout passed.
use trans_proxy.Base.{
  ℕ, zero, suc, ◌≡◌, ◌++◌, arith, leb, le→leb, Bytes, length, drop, take, length-append,
  take-append, drop-append, Run, ret, fail, ◌>>◌, guard,
}

pub record Stream : Type 0 where
  pub incoming : Bytes
  pub written : Bytes
  pub writes_left : ℕ

unfoldable pub write_all : Stream → Bytes → Run Stream
write_all s bytes = elim s.writes_left [
  | zero ↦ fail
  | suc n ↦ ret (record s { written = s.written ++ bytes; writes_left = n })
]

unfoldable pub read_exact : Stream → ℕ → Run (Stream × Bytes)
read_exact s n = do
  guard (leb n (length s.incoming))
  ret (record s { incoming = drop n s.incoming }, take n s.incoming)

-- A read of as many bytes as stand in front.
pub read_exact-append :
    (s : Stream) (n : ℕ) (xs ys : Bytes)
    → s.incoming ≡ xs ++ ys
    → n ≡ length xs
    → read_exact s n ≡ ret (record s { incoming = ys }, xs)
unfolding read_exact
read_exact-append s n xs ys e size = rw (
  e,
  le→leb n (length (xs ++ ys)) (omega (arith, length-append xs ys)),
  drop-append xs ys n size,
  take-append xs ys n size,
)

pub write_all-left :
    (s : Stream) (bytes : Bytes) (k : ℕ)
    → s.writes_left ≡ suc k
    → write_all s bytes ≡ ret (record s { written = s.written ++ bytes; writes_left = k })
unfolding write_all
write_all-left s bytes k e = rw (write_all, e)
