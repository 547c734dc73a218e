-- ===== src/Common/Process.antt =====
-- `std::process::Command`: the programs that a process runs, in order, and what each of them does. What a
-- program answers may depend on all that were run before it, and is an argument of the definitions.
use run_alex_db.Common.Dict.{Str}
use mathlib.Core.List.{List, [], ◌∷◌}
use mathlib.Core.Bool.{Bool, false}

-- The name of the program and its arguments.
abbrev pub Cmd : Type 0
Cmd = List Str

abbrev pub name_of : Cmd → Str
name_of [] = []
name_of (name ∷ args) = name

-- The program cannot be started, or ends with an exit status, its output and its errors.
pub data Outcome : Type 0 where
  not_started : Str → Outcome
  exited : Bool → Str → Str → Outcome

-- What the next program does after those of the list.
abbrev pub Programs : Type 0
Programs = List Cmd → Cmd → Outcome

-- `Result<A, String>`.
pub data Result {ℓ} (A : Type ℓ) : Type ℓ where
  done : A → Result A
  failed : Str → Result A

-- `o.status.success()`, or false.
abbrev pub succeeded : Outcome → Bool
succeeded (not_started e) = false
succeeded (exited success out errors) = success

abbrev pub stdout : Outcome → Str
stdout (not_started e) = []
stdout (exited success out errors) = out
