-- ===== src/Container/Exit.antt =====
-- The status of the command on its way out: main and exitCode of root.go in the container and in the
-- outer process, with the waits of runContainer and runRun between them.
pub mod Laws
use wirez.Container.Launch.{main_status}
use wirez.Prelude.{
  ℕ, zero, suc, ◌%◌, Option, none, some, List, [], ◌∷◌, Bytes, bytes, equal, if◌then◌else◌,
}
use wirez.Throw.{Error, Outcome, ok, throw, panic}

-- How a process ended.
pub data Ended : Type 0 where
  exited signaled : ℕ → Ended

-- What main does with its arguments.
pub data Entry : Type 0 where
  prints_usage : Entry
  runs_container runs : List Bytes → Entry

-- main, for os.Args.
abbrev pub entry_of : List Bytes → Entry
entry_of (name ∷ arg ∷ args) =
    if equal arg (bytes "runc") then runs_container args else runs (arg ∷ args)
entry_of _ = prints_usage

-- `exit_error` makes the *exec.ExitError of a process, and `seen` takes one apart, for the signal
-- if there is one and the code.
module _ (exit_error : Ended → Error) (seen : Error → Option (Option ℕ × ℕ)) where
  -- Throw(proc.Run()) and Throw(proc.Wait()), when the process has ended.
  abbrev pub waited : Ended → Outcome (Unit {0})
  waited (exited zero) = ok tt
  waited (exited (suc n)) = throw (exit_error (exited (suc n)))
  waited (signaled s) = throw (exit_error (signaled s))

  -- A process of wirez that comes to a status: eight bits of it are seen from outside. A panic that
  -- is no exception ends a Go program with the status 2.
  abbrev pub ended_with : Outcome ℕ → Ended
  ended_with (ok n) = exited (n % 256)
  ended_with (throw e) = exited 2
  ended_with (panic p) = exited 2

  -- The container's process, for the end of the command, and the outer process behind it.
  unfoldable pub container_end : Ended → Ended
  container_end e = ended_with (main_status seen (waited e))

  unfoldable pub wirez_end : Ended → Ended
  unfolding container_end
  wirez_end e = ended_with (main_status seen (waited (container_end e)))
