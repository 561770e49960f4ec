-- ===== src/Container/Exit/Laws.antt =====
-- About the exit status of root.go.
use wirez.Container.Exit.{Ended, exited, signaled, waited, ended_with, container_end, wirez_end}
use wirez.Container.Launch.{main_status}
use wirez.Prelude.{ℕ, zero, suc, ◌+◌, ◌<◌, ◌≡◌, refl, ap, ◌∙◌, Option, none, some, arith}
use native.Mathlib.Nat.{mod-eq_of_lt}
use wirez.Throw.{Error}

-- The status that a shell gives for the end of a process.
abbrev pub shell_status : Ended → ℕ
shell_status (exited n) = n
shell_status (signaled s) = 128 + s

-- What the system reports: eight bits of a status, seven of a signal.
abbrev pub IsReported : Ended → Type 0
IsReported (exited n) = n < 256
IsReported (signaled s) = s < 128

module _ (exit_error : Ended → Error) (seen : Error → Option (Option ℕ × ℕ))
    (sees_code : (n : ℕ) → seen (exit_error (exited n)) ≡ some (none, n))
    (sees_signal : (s : ℕ)
      → (code : ℕ) × (seen (exit_error (signaled s)) ≡ some (some s, code))) where
  container_end-shell_status :
      (e : Ended) → IsReported e → container_end exit_error seen e ≡ exited (shell_status e)
  unfolding container_end
  container_end-shell_status (exited zero) b = refl
  container_end-shell_status (exited (suc n)) b =
      rw (sees_code (suc n)) (ap exited (mod-eq_of_lt b))
  container_end-shell_status (signaled s) b =
      let (code, e) = sees_signal s in rw e (ap exited (mod-eq_of_lt (omega arith)))

  -- wirez ends with the status that a shell gives for the end of the command, its code or 128 and
  -- the signal, where the system reports eight bits of a code and seven of a signal, and an
  -- ExitError tells the code or the signal of its process.
  pub wirez_end-shell_status :
      (e : Ended) → IsReported e → wirez_end exit_error seen e ≡ exited (shell_status e)
  unfolding wirez_end
  wirez_end-shell_status e b =
      ap (λ x. ended_with exit_error seen (main_status seen (waited exit_error seen x)))
        (container_end-shell_status e b)
      ∙ container_end-shell_status (exited (shell_status e)) (below e b)
    where
      below : (x : Ended) → IsReported x → shell_status x < 256
      below (exited n) h = h
      below (signaled s) h = omega arith
