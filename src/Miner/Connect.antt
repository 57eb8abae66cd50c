-- ===== src/Miner/Connect.antt =====
-- Connect and connectWithRetry of client/main.go. What the network and the clock do comes with the
-- attempts; the text of the last error wraps the one that is returned here.
use red_team_coin.Base.{
  ℕ, zero, suc, ◌+◌, ◌-◌, ◌*◌, ◌/◌, ◌^◌, ◌<◌, ◌≤◌, ◌≡◌, refl, inl, inr, not, Option, none, some,
  arith, if◌then◌else◌, ltb, lt64, Text, text, ◌++◌, I64, Bool-cases, Option-cases,
}
use red_team_coin.Config.{ClientConfig, NetworkConfig, ClientTlsConfig, second, validate_client}
use red_team_coin.Config.Client.{validate_client_iff}
use red_team_coin.Rpc.{RegistrationResponse}
use red_team_coin.Gpu.{Ran, returns, runs_out}

-- What an attempt meets: the errors of createClientTLSConfig, grpc.Dial and RegisterMiner, the
-- response, and the time at its end.
pub record Attempt : Type 0 where
  pub tls_error : Option Text
  pub dial_error : Option Text
  pub call_error : Option Text
  pub response : RegistrationResponse
  pub ended_at : ℕ

unfoldable pub register : Attempt → Option Text
register a = elim a.call_error [
  | some e ↦ some (text "failed to register: " ++ e)
  | none ↦
      if a.response.success then none else some (text "registration failed: " ++ a.response.message)
]

unfoldable pub dial : Attempt → Option Text
dial a = elim a.dial_error [ some e ↦ some (text "failed to connect: " ++ e) | none ↦ register a ]

-- Connect: its error, if it has one.
unfoldable pub connect : ClientTlsConfig → Attempt → Option Text
connect tls a =
    if tls.enabled
    then elim a.tls_error [
      | some e ↦ some (text "failed to create TLS config: " ++ e)
      | none ↦ dial a
    ]
    else dial a

-- time.Since, which stops at the largest duration.
unfoldable pub since : ℕ → ℕ → I64
since start now = if ltb (now - start) (2 ^ 63) then now - start else 2 ^ 63 - 1

-- The loop of connectWithRetry from an attempt on.
unfoldable pub connect_with_retry :
    ClientTlsConfig → NetworkConfig → ℕ → (ℕ → Attempt) → ℕ → ℕ → Ran (Option Text)
connect_with_retry tls network start attempts zero k = runs_out
connect_with_retry tls network start attempts (suc fuel) k =
    let rest = connect_with_retry tls network start attempts fuel (suc k) in
    elim (connect tls (attempts k)) [
      | none ↦ returns none
      | some e ↦
          if not (lt64 (since start (attempts k).ended_at) network.max_retry_time)
          then returns (some e)
          else rest
    ]

-- A sleep takes the interval at least, and no attempt ends before it starts.
pub record IsClock (network : NetworkConfig) (start : ℕ) (attempts : ℕ → Attempt) : Type 0 where
  pub not_before : start ≤ (attempts 0).ended_at
  pub sleeps :
      (k : ℕ) → (attempts k).ended_at + network.retry_interval ≤ (attempts (suc k)).ended_at

-- The loop ends at the first attempt that succeeds, if it comes in time, and else with the error of
-- the first attempt that ends when the time is over.
pub data Ended (tls : ClientTlsConfig) (network : NetworkConfig) (start : ℕ)
    (attempts : ℕ → Attempt) (result : Ran (Option Text)) : Type 0 where
  connected :
      (k : ℕ)
      → connect tls (attempts k) ≡ none
      → result ≡ returns none
      → Ended tls network start attempts result
  gave_up :
      (k : ℕ) (e : Text)
      → connect tls (attempts k) ≡ some e
      → network.max_retry_time ≤ since start (attempts k).ended_at
      → result ≡ returns (some e)
      → Ended tls network start attempts result

module _ (tls : ClientTlsConfig) (network : NetworkConfig) (start : ℕ) (attempts : ℕ → Attempt)
    (clock : IsClock network start attempts) (long : second ≤ network.retry_interval)
    (positive : network.max_retry_time < 2 ^ 63) where
  ended_at-later : (k : ℕ) → start + k * second ≤ (attempts k).ended_at
  ended_at-later zero = omega (arith, clock.not_before)
  ended_at-later (suc k) = omega (arith, ended_at-later k, clock.sleeps k, long)

  connect_with_retry-Ended :
      (fuel k : ℕ)
      → k ≤ network.max_retry_time / second + 1
      → network.max_retry_time / second + 2 ≤ k + fuel
      → Ended tls network start attempts (connect_with_retry tls network start attempts fuel k)
  unfolding connect_with_retry since
  connect_with_retry-Ended zero k a b = absurd (omega arith)
  connect_with_retry-Ended (suc fuel) k a b = elim (Option-cases (connect tls (attempts k))) [
    | inl e ↦ rw (e, connect_with_retry) (connected k e refl)
    | inr (why, e) ↦
        let later = ended_at-later k in
        elim (Bool-cases (lt64 (since start (attempts k).ended_at) network.max_retry_time)) [
          | inl more ↦
              let soon : k ≤ network.max_retry_time / second = ground (arith, later) in
              rw (e, more, connect_with_retry)
                (connect_with_retry-Ended fuel (suc k) (omega (arith, soon)) (omega arith))
          | inr over ↦ rw (e, over, connect_with_retry) (gave_up k why e (ground arith) refl)
        ]
  ]

-- With a valid configuration, and if a sleep takes the retry interval at least, connectWithRetry
-- returns within as many attempts as the longest time for retries has seconds, and two more: without
-- an error if an attempt has succeeded, and with the error of an attempt only when that time is over.
pub connect_with_retry-ends :
    (c : ClientConfig) (start : ℕ) (attempts : ℕ → Attempt)
    → validate_client c ≡ none
    → IsClock c.network start attempts
    → Ended c.server.tls c.network start attempts (
        connect_with_retry c.server.tls c.network start attempts
          (c.network.max_retry_time / second + 2)
          0)
connect_with_retry-ends c start attempts valid clock =
    let sound = (validate_client_iff c).0 valid in
    connect_with_retry-Ended c.server.tls c.network start attempts clock sound.retry_interval_long
      sound.durations_positive.1.1 _ 0 (omega arith) (omega arith)
