-- ===== src/Socks/Dial.antt =====
-- DialContext and dial of socks5UDPConnector. `round` stands for what one round of the loop gives,
-- the association of the source and then its open: a flow, `none` from an association that closed in
-- between, or an exception of the association or of the context.
use wirez.Net.HostPort.{host_port}
use wirez.Prelude.{
  ℕ, zero, suc, ◌+◌, ◌<◌, ◌≡◌, refl, sym, ap, ◌∙◌, Option, none, some, Bytes, bytes, arith,
}
use wirez.Throw.{message, Result, value, failure, Outcome, ok, throw, panic}

module _ {A : Type 0} (round : Bytes → Bytes → ℕ → ℕ → Outcome (Option A)) where
  -- A round, with the rounds that follow.
  abbrev pub opened_flow : Outcome (Option A) → Option (Outcome A) → Option (Outcome A)
  opened_flow (ok (some flow)) rest = some (ok flow)
  opened_flow (ok none) rest = rest
  opened_flow (throw e) rest = some (throw e)
  opened_flow (panic p) rest = some (panic p)

  -- The loop from round k on; `none` if the fuel does not last.
  unfoldable pub open_loop : ℕ → Bytes → Bytes → ℕ → ℕ → Option (Outcome A)
  open_loop zero src host port k = none
  open_loop (suc fuel) src host port k =
      opened_flow (round src host port k) (open_loop fuel src host port (suc k))

  abbrev pub with_source : ℕ → Option Bytes → Outcome (Bytes × ℕ) → Option (Outcome A)
  with_source fuel none (ok a) =
      some (throw (message (bytes "socks5: udp dial without a source endpoint")))
  with_source fuel (some src) (ok (host, port)) = open_loop fuel src host port 0
  with_source fuel src (throw e) = some (throw e)
  with_source fuel src (panic p) = some (panic p)

  -- dial, for the source that the context names.
  unfoldable pub udp_dial : ℕ → Option Bytes → Bytes → Option (Outcome A)
  unfolding open_loop
  udp_dial fuel src address = with_source fuel src (host_port address)

  -- DialContext: what is thrown is returned.
  abbrev pub udp_dialed : Option (Outcome A) → Option (Outcome (Result A))
  udp_dialed none = none
  udp_dialed (some (ok flow)) = some (ok (value flow))
  udp_dialed (some (throw e)) = some (ok (failure e))
  udp_dialed (some (panic p)) = some (panic p)

  -- As soon as a round opens a flow, after rounds that met closed associations, the loop ends with
  -- that flow, with one round more than there were closed associations.
  pub open_loop-opens :
      (fuel n k : ℕ) (src host : Bytes) (port : ℕ) (flow : A)
      → ((i : ℕ) → i < n → round src host port (k + i) ≡ ok none)
      → round src host port (k + n) ≡ ok (some flow)
      → n < fuel
      → open_loop fuel src host port k ≡ some (ok flow)
  unfolding open_loop
  open_loop-opens zero n k src host port flow closed' opens l = absurd (omega (arith, l))
  open_loop-opens (suc fuel) zero k src host port flow closed' opens l =
      let here : k + 0 ≡ k = omega arith in
      let found : round src host port k ≡ ok (some flow) =
        ap (round src host port) (sym here) ∙ opens in
      rw found refl
  open_loop-opens (suc fuel) (suc n) k src host port flow closed' opens l =
      let here : k + 0 ≡ k = omega arith in
      let first : round src host port k ≡ ok none =
        ap (round src host port) (sym here) ∙ closed' 0 (omega arith) in
      let moved : (i : ℕ) → suc k + i ≡ k + suc i = λ i. omega arith in
      rw first (
        open_loop-opens fuel n (suc k) src host port flow
          (λ i j. ap (round src host port) (moved i) ∙ closed' (suc i) (omega (arith, j)))
          (ap (round src host port) (moved n) ∙ opens) (omega (arith, l)))
