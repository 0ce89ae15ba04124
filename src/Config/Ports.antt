-- ===== src/Config/Ports.antt =====
-- The list of ports, src/config.rs: what `PortList::from_str` accepts, and that it reads back what
-- is displayed.
use trans_proxy.Base.{
  ℕ, zero, suc, ◌+◌, ◌-◌, ◌*◌, ◌/◌, ◌%◌, ◌^◌, ◌<◌, ◌≡◌, ◌⊎◌, inl, inr, refl, sym, ap, ◌∙◌, true,
  false, Bool, not, ◌&&◌, ◌||◌, List, [], ◌∷◌, ◌++◌, map, arith, append_assoc, append-nil, ltb, leb,
  ◌==◌, Bytes, length, ret, ◌>>=◌, if◌then◌else◌, Bool-cases, Returns, Returns-bind, Returns-guard,
  length-append, ltb→lt,
}
use trans_proxy.Base.Decimal.{decimal, decimal_fuel}
use trans_proxy.Tunnel.Connect.{digits, parse_u16}
use trans_proxy.Config.{
  prepend, split, is_space, trim_start, trim_end, trim, contains, parse_ports, port_list,
  join_words, show_port_list,
}

abbrev pub distinct : List ℕ → Bool
distinct [] = true
distinct (p ∷ ps) = not (contains p ps) && distinct ps

abbrev pub in_range : List ℕ → Bool
in_range [] = true
in_range (p ∷ ps) = (leb 1 p && ltb p (2 ^ 16)) && in_range ps

-- A list of ports that can be asked for: not empty, no port twice, each from 1 to 65535.
abbrev pub IsPorts : List ℕ → Type 0
IsPorts ps = (0 < length ps) × (distinct ps ≡ true) × (in_range ps ≡ true)

digits-snoc :
    (xs : Bytes) (acc d : ℕ)
    → digits acc (xs ++ d ∷ []) ≡ (digits acc xs >>= λ a. digits a (d ∷ []))
unfolding digits
digits-snoc [] acc d = refl
digits-snoc (b ∷ xs) acc d =
    elim (Bool-cases (leb 48 b && (leb b 57 && ltb (acc * 10 + (b - 48)) (2 ^ 16)))) [
      | inl e ↦ rw e (digits-snoc xs (acc * 10 + (b - 48)) d)
      | inr e ↦ rw e refl
    ]

abbrev Fits : ℕ → ℕ → Type 0
Fits zero n = ⊥
Fits (suc f) n = (n < 10) ⊎ Fits f (n / 10)

digits-one : (a d : ℕ) → d < 10 → a * 10 + d < 2 ^ 16 → digits a ((48 + d) ∷ []) ≡ ret (a * 10 + d)
unfolding digits
digits-one a d small lt = ground arith

digits-decimal : (f n : ℕ) → Fits f n → n < 2 ^ 16 → digits 0 (decimal_fuel f n) ≡ ret n
unfolding decimal_fuel
digits-decimal zero n h lt = absurd h
digits-decimal (suc f) n h lt = elim (Bool-cases (ltb n 10)) [
  | inl e ↦ rw e (digits-one 0 n (ltb→lt n 10 e) (omega arith) ∙ ap ret (omega arith))
  | inr e ↦
      let fits : Fits f (n / 10) = elim h [ inl s ↦ absurd (ground arith) | inr r ↦ r ] in
      rw
        (
          e,
          digits-snoc (decimal_fuel f (n / 10)) 0 (48 + n % 10),
          digits-decimal f (n / 10) fits (omega arith),
        )
        (digits-one (n / 10) (n % 10) (omega arith) (omega arith) ∙ ap ret (omega arith))
]

u16-Fits : (n : ℕ) → n < 2 ^ 16 → Fits 10 n
u16-Fits n lt = inr (inr (inr (inr (inl (omega arith)))))

-- The digits of a decimal are digits, and there is one.
abbrev digit : ℕ → Bool
digit b = leb 48 b && leb b 57

abbrev IsDigits : Bytes → Type 0
IsDigits [] = Unit
IsDigits (b ∷ bs) = (digit b ≡ true) × IsDigits bs

IsDigits-append : (xs ys : Bytes) → IsDigits xs → IsDigits ys → IsDigits (xs ++ ys)
IsDigits-append [] ys h k = k
IsDigits-append (x ∷ xs) ys (h, hs) k = (h, IsDigits-append xs ys hs k)

decimal_fuel-IsDigits : (f n : ℕ) → IsDigits (decimal_fuel f n)
unfolding decimal_fuel
decimal_fuel-IsDigits zero n = tt
decimal_fuel-IsDigits (suc f) n = elim (Bool-cases (ltb n 10)) [
  | inl e ↦ rw e (ground arith, tt)
  | inr e ↦ rw e (
      IsDigits-append (decimal_fuel f (n / 10)) ((48 + n % 10) ∷ [])
        (decimal_fuel-IsDigits f (n / 10)) (ground arith, tt))
]

-- A non-empty run of digits.
abbrev IsNumber : Bytes → Type 0
IsNumber w = IsDigits w × (0 < length w)

decimal_fuel-not_empty : (f n : ℕ) → 0 < length (decimal_fuel (suc f) n)
unfolding decimal_fuel
decimal_fuel-not_empty f n = elim (Bool-cases (ltb n 10)) [
  | inl e ↦ rw e (omega arith)
  | inr e ↦ rw e (omega (arith, length-append (decimal_fuel f (n / 10)) ((48 + n % 10) ∷ [])))
]

decimal-IsNumber : (n : ℕ) → IsNumber (decimal n)
unfolding decimal
decimal-IsNumber n = (decimal_fuel-IsDigits 10 n, decimal_fuel-not_empty 9 n)

parse-number : (w : Bytes) → IsNumber w → parse_u16 w ≡ digits 0 w
unfolding parse_u16
parse-number [] (h, lt) = absurd (omega arith)
parse-number (b ∷ bs) (h, lt) = ground arith

pub parse_u16-decimal : (n : ℕ) → n < 2 ^ 16 → parse_u16 (decimal n) ≡ ret n
unfolding decimal
parse_u16-decimal n lt =
    parse-number (decimal n) (decimal-IsNumber n) ∙ digits-decimal 10 n (u16-Fits n lt) lt

trim_end-digits : (w : Bytes) → IsDigits w → trim_end w ≡ w
unfolding trim_end is_space
trim_end-digits [] h = refl
trim_end-digits (b ∷ bs) (h, hs) = ground (arith, trim_end-digits bs hs)

trim_start-digits : (w : Bytes) → IsDigits w → trim_start w ≡ w
unfolding trim_start is_space
trim_start-digits [] h = refl
trim_start-digits (b ∷ bs) (h, hs) = ground arith

trim-digits : (w : Bytes) → IsDigits w → trim w ≡ w
unfolding trim
trim-digits w h = rw (trim_start-digits w h) (trim_end-digits w h)

split-word : (w rest : Bytes) → IsDigits w → split 44 (w ++ 44 ∷ rest) ≡ w ∷ split 44 rest
unfolding split prepend
split-word [] rest h = refl
split-word (b ∷ w) rest (h, hs) = ground (arith, split-word w rest hs)

split-last : (w : Bytes) → IsDigits w → split 44 w ≡ w ∷ []
unfolding split prepend
split-last [] h = refl
split-last (b ∷ w) (h, hs) = ground (arith, split-last w hs)

split-join_words :
    (p : ℕ) (ps : List ℕ) → split 44 (join_words 44 (map decimal (p ∷ ps))) ≡ map decimal (p ∷ ps)
unfolding join_words
split-join_words p [] = split-last (decimal p) (decimal-IsNumber p).0
split-join_words p (q ∷ ps) =
    split-word (decimal p) (join_words 44 (map decimal (q ∷ ps))) (decimal-IsNumber p).0
    ∙ ap (◌∷◌ (decimal p)) (split-join_words q ps)

contains-snoc : (p q : ℕ) (ps : List ℕ) → contains p (ps ++ q ∷ []) ≡ (contains p ps || p == q)
unfolding contains
contains-snoc p q [] = ground arith
contains-snoc p q (r ∷ ps) = ground (arith, contains-snoc p q ps)

distinct-snoc :
    (ps : List ℕ) (q : ℕ)
    → distinct ps ≡ true
    → contains q ps ≡ false
    → distinct (ps ++ q ∷ []) ≡ true
unfolding contains
distinct-snoc [] q h k = refl
distinct-snoc (p ∷ ps) q h k = ground (arith, distinct-snoc ps q, contains-snoc p q ps)

in_range-snoc :
    (ps : List ℕ) (q : ℕ) → in_range ps ≡ true → 0 < q → q < 2 ^ 16 → in_range (ps ++ q ∷ []) ≡ true
in_range-snoc [] q h lo hi = ground arith
in_range-snoc (p ∷ ps) q h lo hi = ground (arith, in_range-snoc ps q)

abbrev IsPort : ℕ → Type 0
IsPort n = n < 2 ^ 16

digits-IsPort : (acc : ℕ) (w : Bytes) → acc < 2 ^ 16 → Returns IsPort (digits acc w)
unfolding digits
digits-IsPort acc [] h = h
digits-IsPort acc (b ∷ w) h = ground (arith, digits-IsPort (acc * 10 + (b - 48)) w)

parse_u16-IsPort : (w : Bytes) → Returns IsPort (parse_u16 w)
unfolding parse_u16
parse_u16-IsPort [] = tt
parse_u16-IsPort (b ∷ w) =
    ground (arith, digits-IsPort 0 w (omega arith), digits-IsPort 0 (b ∷ w) (omega arith))

-- What the loop keeps true of the ports pushed so far.
abbrev AreGood : List ℕ → Type 0
AreGood ps = (distinct ps ≡ true) × (in_range ps ≡ true)

push-AreGood :
    (ps : List ℕ) (q : ℕ)
    → AreGood ps
    → IsPort q
    → not (q == 0) ≡ true
    → AreGood (if contains q ps then ps else ps ++ q ∷ [])
push-AreGood ps q (d, r) lt pos = elim (Bool-cases (contains q ps)) [
  | inl e ↦ rw e (d, r)
  | inr e ↦ rw e (distinct-snoc ps q d e, in_range-snoc ps q r (ground arith) lt)
]

parse_ports-AreGood :
    (parts : List Bytes) (ps : List ℕ) → AreGood ps → Returns AreGood (parse_ports ps parts)
unfolding parse_ports
parse_ports-AreGood [] ps g = g
parse_ports-AreGood (part ∷ parts) ps g =
    Returns-bind IsPort AreGood (parse_u16 (trim part)) _ (parse_u16-IsPort (trim part)) λ q lt.
      Returns-guard AreGood (not (q == 0)) _ λ pos.
        parse_ports-AreGood parts (if contains q ps then ps else ps ++ q ∷ [])
          (push-AreGood ps q g lt pos)

-- Parsing a port list ends, and what it accepts is a list of ports from 1 to 65535, not empty and
-- without repetition.
pub port_list-IsPorts : (s : Bytes) → Returns IsPorts (port_list s)
unfolding port_list
port_list-IsPorts s =
    Returns-bind AreGood IsPorts (parse_ports [] (split 44 s)) _
      (parse_ports-AreGood (split 44 s) [] (refl, refl))
      λ ps (d, r). Returns-guard IsPorts (not (length ps == 0)) _ λ some_port. (ground arith, d, r)

pub contains-append :
    (p : ℕ) (xs ys : List ℕ) → contains p (xs ++ ys) ≡ (contains p xs || contains p ys)
unfolding contains
contains-append p [] ys = refl
contains-append p (x ∷ xs) ys = ground (arith, contains-append p xs ys)

distinct-new :
    (done : List ℕ) (p : ℕ) (ps : List ℕ)
    → distinct (done ++ p ∷ ps) ≡ true
    → contains p done ≡ false
unfolding contains
distinct-new [] p ps h = refl
distinct-new (x ∷ done) p ps h =
    ground (arith, distinct-new done p ps, contains-append x done (p ∷ ps))

parse_ports-decimal :
    (ps done : List ℕ)
    → distinct (done ++ ps) ≡ true
    → in_range ps ≡ true
    → parse_ports done (map decimal ps) ≡ ret (done ++ ps)
unfolding parse_ports
parse_ports-decimal [] done d r = ap ret (sym (append-nil done))
parse_ports-decimal (p ∷ ps) done d r =
    let regroup : (done ++ p ∷ []) ++ ps ≡ done ++ p ∷ ps = append_assoc done (p ∷ []) ps in
    let lt : p < 2 ^ 16 = ground arith in
    let pos : not (p == 0) ≡ true = ground arith in
    let rest : in_range ps ≡ true = ground arith in
    rw
      (
        trim-digits (decimal p) (decimal-IsNumber p).0,
        parse_u16-decimal p lt,
        pos,
        distinct-new done p ps d,
      )
      (parse_ports-decimal ps (done ++ p ∷ []) (rw regroup d) rest ∙ ap ret regroup)

-- A list of ports from 1 to 65535, not empty and without repetition, is read back from its display.
pub port_list-show : (ps : List ℕ) → IsPorts ps → port_list (show_port_list ps) ≡ ret ps
unfolding port_list show_port_list
port_list-show [] (some_port, d, r) = absurd (omega arith)
port_list-show (p ∷ ps) (some_port, d, r) =
    let filled : not (suc (length ps) == 0) ≡ true = ground arith in
    rw (split-join_words p ps, parse_ports-decimal (p ∷ ps) [] d r) (rw filled refl)
