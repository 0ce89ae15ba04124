-- ===== src/Dns/Format/Read.antt =====
-- What the readers of src/dns.rs find in encoded names and numbers.
use trans_proxy.Base.{
  ℕ, zero, suc, ◌+◌, ◌≤◌, ◌<◌, ◌≡◌, refl, ap, ◌∙◌, true, false, Bool, not, ◌&&◌, Bool-cases, inl,
  inr, List, [], ◌∷◌, ◌++◌, arith, append_assoc, ◌==◌, lt→ltb, ne→==-false, Bytes, length, drop,
  length-append, length-drop, length_from_drop, drop_past, ret, byte-drop,
}
use trans_proxy.Dns.Name.{skip_loop, skip_dns_name, is_pointer}
use trans_proxy.Dns.Format.{
  All, NameEnd, root, pointer, WireName, encode_labels, encode_end, encode_name, IsLabel, IsEnd,
  IsName,
}

-- A length byte of a label is neither a terminator nor a pointer.
small_not_pointer : ℕ → Bool
small_not_pointer zero = true
small_not_pointer (suc n) = not (is_pointer n) && small_not_pointer n

small_not_pointer_table : small_not_pointer 64 ≡ true
unfolding small_not_pointer
small_not_pointer_table = refl

small_not_pointer_sound : (n b : ℕ) → small_not_pointer n ≡ true → b < n → is_pointer b ≡ false
unfolding small_not_pointer
small_not_pointer_sound zero b h lt = absurd (omega arith)
small_not_pointer_sound (suc n) b h lt = elim (Bool-cases (b == n)) [
  | inl e ↦ let same : b ≡ n = ground arith in rw same (ground arith)
  | inr ne ↦ small_not_pointer_sound n b (ground arith) (ground arith)
]

pub not_pointer_of_label : (l : Bytes) → IsLabel l → is_pointer (length l) ≡ false
not_pointer_of_label l h =
    small_not_pointer_sound 64 (length l) small_not_pointer_table (omega (arith, h.short))

pub length-encode_labels :
    (ls : List Bytes) (tail : Bytes) → length ls + length tail ≤ length (encode_labels ls tail)
length-encode_labels [] tail = omega arith
length-encode_labels (l ∷ ls) tail =
    omega (arith, length-append l (encode_labels ls tail), length-encode_labels ls tail)

encode_labels-append :
    (ls : List Bytes) (tail r : Bytes) → encode_labels ls tail ++ r ≡ encode_labels ls (tail ++ r)
encode_labels-append [] tail r = refl
encode_labels-append (l ∷ ls) tail r =
    ap (◌∷◌ (length l)) (append_assoc l _ r ∙ ap (λ s. l ++ s) (encode_labels-append ls tail r))

pub length-encode_end-pos : (e : NameEnd) → 0 < length (encode_end e)
length-encode_end-pos root = omega arith
length-encode_end-pos (pointer high low) = omega arith

skip-ending :
    (e : NameEnd) (f : ℕ) (p : Bytes) (pos : ℕ) (r : Bytes)
    → IsEnd e
    → drop pos p ≡ encode_end e ++ r
    → skip_loop (suc f) p pos ≡ ret (pos + length (encode_end e))
unfolding skip_loop
skip-ending root f p pos r h at =
    let within : pos < length p = omega (arith, length_from_drop p pos _ at (omega arith)) in
    rw (lt→ltb _ _ within, byte-drop p pos 0 r at) (ap ret (omega arith))
skip-ending (pointer high low) f p pos r h at =
    let within : pos < length p = omega (arith, length_from_drop p pos _ at (omega arith)) in
    rw (lt→ltb _ _ within, byte-drop p pos high (low ∷ r) at, ne→==-false high 0 (omega arith), h.0)
      (ap ret (omega arith))

skip-label :
    (l : Bytes) (f : ℕ) (p : Bytes) (pos : ℕ) (r : Bytes)
    → IsLabel l
    → drop pos p ≡ length l ∷ r
    → skip_loop (suc f) p pos ≡ skip_loop f p (pos + 1 + length l)
unfolding skip_loop
skip-label l f p pos r h at =
    let within : pos < length p = omega (arith, length_from_drop p pos _ at (omega arith)) in
    rw (
      lt→ltb _ _ within,
      byte-drop p pos (length l) r at,
      ne→==-false (length l) 0 (omega (arith, h.not_empty)),
      not_pointer_of_label l h,
    )

skip-labels :
    (ls : List Bytes) (e : NameEnd) (f : ℕ) (p : Bytes) (pos : ℕ) (r : Bytes)
    → All IsLabel ls
    → IsEnd e
    → length ls < f
    → drop pos p ≡ encode_labels ls (encode_end e) ++ r
    → skip_loop f p pos ≡ ret (pos + length (encode_labels ls (encode_end e)))
skip-labels ls e zero p pos r hs h lt at = absurd (omega arith)
skip-labels [] e (suc f) p pos r hs h lt at = skip-ending e f p pos r h at
skip-labels (l ∷ ls) e (suc f) p pos r hs h lt at =
    let more = encode_labels ls (encode_end e) in
    let behind : drop (pos + 1 + length l) p ≡ more ++ r =
      drop_past p pos (pos + 1 + length l) (length l ∷ l) (more ++ r)
        (at ∙ ap (◌∷◌ (length l)) (append_assoc l more r)) (omega arith) in
    skip-label l f p pos _ hs.0 at
    ∙ skip-labels ls e f p (pos + 1 + length l) r hs.1 h (omega arith) behind
    ∙ ap ret (omega (arith, length-append l more))

-- The loop lands just behind the name.
pub skip_loop-encode_name :
    (n : WireName) (p : Bytes) (pos : ℕ) (r : Bytes)
    → IsName n
    → drop pos p ≡ encode_name n ++ r
    → skip_loop (suc (length p)) p pos ≡ ret (pos + length (encode_name n))
unfolding encode_name
skip_loop-encode_name n p pos r h at =
    skip-labels n.labels n.ending (suc (length p)) p pos r h.labels h.ending
      (omega (
        arith,
        length-encode_labels n.labels (encode_end n.ending),
        length-encode_end-pos n.ending,
        length-append (encode_labels n.labels (encode_end n.ending)) r,
        ap length at,
        length-drop pos p,
      ))
      at

pub skip-encode_name :
    (n : WireName) (p : Bytes) (pos : ℕ) (r : Bytes)
    → IsName n
    → drop pos p ≡ encode_name n ++ r
    → skip_dns_name p pos ≡ ret (pos + length (encode_name n))
unfolding skip_dns_name
skip-encode_name = skip_loop-encode_name
