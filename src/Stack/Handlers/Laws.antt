-- ===== src/Stack/Handlers/Laws.antt =====
-- About handleTCP and handleUDP.
use wirez.Prelude.{
  not, not, ℕ, suc, ◌≡◌, refl, ◌||◌, Bool, true, false, Option, some, List, [], ◌∷◌, ◌++◌, Bytes,
  bytes, if◌then◌else◌,
}
use wirez.Route.Dial.{dial}
use wirez.Stack.Handlers.{
  EndpointId, endpoint_address, source_address, Timeouts, Event, completes, relays, closes_local,
  closes_dst, cancels, deferred, wrapped, with_udp_dst, handle_udp,
}
use wirez.Throw.{Error, Result, value, failure, Outcome, ok}

-- The answers to the client's SYN in a trace, each with whether it is a reset.
abbrev pub completions : List Event → List Bool
completions [] = []
completions (completes b ∷ es) = b ∷ completions es
completions (e ∷ es) = completions es

-- How often a trace closes the destination, and the local side.
abbrev pub dst_closes : List Event → ℕ
dst_closes [] = 0
dst_closes (closes_dst ∷ es) = suc (dst_closes es)
dst_closes (e ∷ es) = dst_closes es

abbrev pub local_closes : List Event → ℕ
local_closes [] = 0
local_closes (closes_local ∷ es) = suc (local_closes es)
local_closes (e ∷ es) = local_closes es

-- The relays of a trace.
abbrev pub relayings : List Event → List (Option ℕ × Option ℕ)
relayings [] = []
relayings (relays a b ∷ es) = (a, b) ∷ relayings es
relayings (e ∷ es) = relayings es

abbrev pub is_failure : {A : Type 0} → Result A → Bool
is_failure (value a) = false
is_failure (failure e) = true

abbrev pub count : Bool → ℕ
count true = 1
count false = 0

-- What a handled TCP request leaves, where `gone` says that the dial failed and `broken` that the
-- endpoint could not be made: the client's SYN is answered once, before anything is relayed, with a
-- reset if there is nothing to relay to; the connections that there are are closed, each once; and
-- the relay ran, on both of them, exactly if there were two.
pub record IsHandled (gone broken : Bool) (idle : ℕ) (es : List Event) : Type 0 where
  pub front : List Event
  pub back : List Event
  pub order : es ≡ front ++ completes (gone || broken) ∷ back
  pub unrelayed : relayings front ≡ []
  pub once : completions es ≡ (gone || broken) ∷ []
  pub dst : dst_closes es ≡ count (not gone)
  pub local : local_closes es ≡ count (not (gone || broken))
  pub relaying : relayings es ≡ (if gone || broken then [] else (wrapped idle, wrapped idle) ∷ [])

module _ (transport : Option ℕ → Option ℕ → Option Error) where
  udp_deferred :
      {A : Type 0} (idle : ℕ) (r : Result A)
      → let es =
          (deferred closes_local (deferred cancels (with_udp_dst transport idle (ok r)))).1 in
        (local_closes es ≡ 1)
        × (dst_closes es ≡ count (not (is_failure r)))
        × (relayings es ≡ (if is_failure r then [] else (some idle, some idle) ∷ []))
  udp_deferred idle (failure e) = (refl, refl, refl)
  udp_deferred idle (value c) = (refl, refl, refl)

  -- If the dial returns, whatever it and the relay come to, a UDP flow of the container is closed
  -- exactly once, the connection to its destination as often as there is one, and the two are
  -- relayed, with the idle timeout on both, exactly if the dial succeeded.
  pub handle_udp-closes :
      {A : Type 0} (dial : Bytes → Bytes → Bytes → Outcome (Result A)) (k : Timeouts)
      (id : EndpointId) (r : Result A)
      → dial (source_address id) (bytes "udp") (endpoint_address id) ≡ ok r
      → (local_closes (handle_udp transport dial k id).1 ≡ 1)
        × (dst_closes (handle_udp transport dial k id).1 ≡ count (not (is_failure r)))
        × (relayings (handle_udp transport dial k id).1
            ≡ (if is_failure r then [] else (some k.udp_idle, some k.udp_idle) ∷ []))
  unfolding handle_udp
  handle_udp-closes dial k id r e = rw e (udp_deferred k.udp_idle r)
