-- ===== src/Firewall/Done.antt =====
-- What is known of the commands that ran, for the actions of src/firewall/nftables.rs: `Done`, that
-- a command ran and succeeded, and how sequences and loops meet and keep it.
use trans_proxy.Base.{
  ℕ, ◌≡◌, refl, ◌⊎◌, true, false, Bool, List, [], ◌∷◌, ◌++◌, arith, ◌==◌, Bool-cases, inl, inr,
}
use trans_proxy.Config.{contains}
use trans_proxy.Firewall.Action.{Command, Action, Log, proceed, ◌>>◌, run_cmd, run_cmd_ignore}
use trans_proxy.Firewall.Nftables.{for_each}

-- The command ran and succeeded.
abbrev pub Done : Command → Log → Type 0
Done c [] = ⊥
Done c ((d, ok) ∷ log) = ((c ≡ d) × (ok ≡ true)) ⊎ Done c log

-- What holds of the log where the action has succeeded.
abbrev pub Ends : (Log → Type 0) → Bool × Log → Type 0
Ends P (true, log) = P log
Ends P (false, log) = Unit

-- What was done before stays done.
abbrev pub Keeps : Command → Action → Type 0
Keeps c a = (log : Log) → Done c log → Done c (a log).1

Done-append : (c : Command) (log more : Log) → Done c log → Done c (log ++ more)
Done-append c [] more h = absurd h
Done-append c ((d, ok) ∷ log) more h = elim h [
  | inl here ↦ inl here
  | inr later ↦ inr (Done-append c log more later)
]

Done-last : (c : Command) (log more : Log) → Done c more → Done c (log ++ more)
Done-last c [] more h = h
Done-last c ((d, ok) ∷ log) more h = inr (Done-last c log more h)

pub Ends-proceed :
    (P Q : Log → Type 0) (b : Action) (r : Bool × Log)
    → Ends P r
    → ((log : Log) → P log → Ends Q (b log))
    → Ends Q (proceed b r)
Ends-proceed P Q b (true, log) h k = k log h
Ends-proceed P Q b (false, log) h k = tt

pub Ends-any : (r : Bool × Log) → Ends (λ _. Unit) r
Ends-any (true, log) = tt
Ends-any (false, log) = tt

pub Ends-kept : (P : Log → Type 0) (r : Bool × Log) → P r.1 → Ends P r
Ends-kept P (true, log) h = h
Ends-kept P (false, log) h = tt

pub Ends-map :
    (P Q : Log → Type 0) (r : Bool × Log) → Ends P r → ((log : Log) → P log → Q log) → Ends Q r
Ends-map P Q (true, log) h k = k log h
Ends-map P Q (false, log) h k = tt

Keeps-proceed :
    (c : Command) (b : Action) (r : Bool × Log) → Keeps c b → Done c r.1 → Done c (proceed b r).1
Keeps-proceed c b (true, log) k h = k log h
Keeps-proceed c b (false, log) k h = h

pub Keeps-then : (c : Command) (a b : Action) → Keeps c a → Keeps c b → Keeps c (a >> b)
Keeps-then c a b ha hb log h = Keeps-proceed c b (a log) hb (ha log h)

-- A goal that the first of two actions meets, or the second.
pub Ends-then_first :
    (c : Command) (a b : Action)
    → ((log : Log) → Ends (Done c) (a log))
    → Keeps c b
    → (log : Log) → Ends (Done c) ((a >> b) log)
Ends-then_first c a b first keeps log =
    Ends-proceed (Done c) (Done c) b (a log) (first log)
      λ after h. Ends-kept (Done c) (b after) (keeps after h)

pub Ends-then_second :
    (P : Log → Type 0) (a b : Action)
    → ((log : Log) → Ends P (b log))
    → (log : Log) → Ends P ((a >> b) log)
Ends-then_second P a b second log =
    Ends-proceed (λ _. Unit) P b (a log) (Ends-any (a log)) λ after h. second after

module _ (exec : Log → Command → Bool) where
  pub run_cmd-Keeps : (c d : Command) → Keeps c (run_cmd exec d)
  unfolding run_cmd
  run_cmd-Keeps c d log h = Done-append c log _ h

  pub run_cmd_ignore-Keeps : (c d : Command) → Keeps c (run_cmd_ignore exec d)
  unfolding run_cmd_ignore
  run_cmd_ignore-Keeps c d log h = Done-append c log _ h

  pub run_cmd-Done : (c : Command) (log : Log) → Ends (Done c) (run_cmd exec c log)
  unfolding run_cmd
  run_cmd-Done c log = elim (Bool-cases (exec log c)) [
    | inl e ↦ rw e (Done-last c log ((c, true) ∷ []) (inl (refl, refl)))
    | inr e ↦ rw e tt
  ]

  module _ {A : Type 0} (f : A → Command) where
    pub each-Keeps : (c : Command) (xs : List A) → Keeps c (for_each (λ x. run_cmd exec (f x)) xs)
    each-Keeps c [] = λ log h. h
    each-Keeps c (x ∷ xs) =
        Keeps-then c (run_cmd exec (f x)) _ (run_cmd-Keeps c (f x)) (each-Keeps c xs)

  -- The rule of a port in the list was added.
  pub each-Done :
      (f : ℕ → Command) (p : ℕ) (ports : List ℕ)
      → contains p ports ≡ true
      → (log : Log) → Ends (Done (f p)) (for_each (λ x. run_cmd exec (f x)) ports log)
  unfolding contains
  each-Done f p [] h = cc
  each-Done f p (q ∷ ports) h = elim (Bool-cases (p == q)) [
    | inl e ↦
        let e' : p ≡ q = ground arith in
        Ends-then_first (f p) (run_cmd exec (f q)) _ (rw e' (run_cmd-Done (f q)))
          (each-Keeps f (f p) ports)
    | inr e ↦
        Ends-then_second (Done (f p)) (run_cmd exec (f q)) _ (each-Done f p ports (ground arith))
  ]
