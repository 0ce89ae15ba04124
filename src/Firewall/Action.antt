-- ===== src/Firewall/Action.antt =====
-- Running commands, `run_cmd` and `run_cmd_ignore` of src/firewall/mod.rs.
use trans_proxy.Base.{
  ◌≡◌, refl, true, false, Bool, List, [], ◌∷◌, ◌++◌, Bytes, Bool-cases, inl, inr,
}

abbrev pub Command : Type 0
Command = List Bytes

abbrev pub Log : Type 0
Log = List (Command × Bool)

-- Whether it succeeded, and the commands that have run.
abbrev pub Action : Type 0
Action = Log → Bool × Log

abbrev pub skip : Action
skip log = (true, log)

abbrev pub proceed : Action → Bool × Log → Bool × Log
proceed b (true, log) = b log
proceed b (false, log) = (false, log)

-- `a?; b`.
infixr 5 ◌>>◌
abbrev pub ◌>>◌ : Action → Action → Action
◌>>◌ a b log = proceed b (a log)

abbrev pub handle : Action → Bool × Log → Bool × Log
handle b (true, log) = (true, log)
handle b (false, log) = b log

-- `if let Err(_) = a { b }`.
abbrev pub or_else : Action → Action → Action
or_else a b log = handle b (a log)

module _ (exec : Log → Command → Bool) where
  unfoldable pub run_cmd : Command → Action
  run_cmd c log = (exec log c, log ++ (c, exec log c) ∷ [])

  unfoldable pub run_cmd_ignore : Command → Action
  run_cmd_ignore c log = (true, log ++ (c, exec log c) ∷ [])

  -- One command after the other, until one fails.
  unfoldable pub run_all : List Command → Action
  run_all [] = skip
  run_all (c ∷ cs) = run_cmd c >> run_all cs

  pub run_all-append :
      (cs ds : List Command) (log : Log) → run_all (cs ++ ds) log ≡ (run_all cs >> run_all ds) log
  unfolding run_all run_cmd
  run_all-append [] ds log = refl
  run_all-append (c ∷ cs) ds log = elim (Bool-cases (exec log c)) [
    | inl e ↦ rw e (run_all-append cs ds (log ++ (c, true) ∷ []))
    | inr e ↦ rw e refl
  ]
