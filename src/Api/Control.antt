-- ===== src/Api/Control.antt =====
-- Which requests of the administrator act on the pool.
use red_team_coin.Base.{
  ℕ, ◌≤◌, ◌≡◌, ◌⊎◌, refl, subst, inl, inr, Bool, true, false, ◌||◌, Option, none, some, ◌++◌, arith,
  if◌then◌else◌, Text, text, text_eq, text_eq_iff, I32, lt32, format_int, Bool-cases, Option-cases,
}
use red_team_coin.Base.Dict.{lookup}
use red_team_coin.Outcome.{Outcome, ok, err, panic}
use red_team_coin.Pool.{
  MinerRecord, MiningPool, PoolError, miner_not_found, throttle_out_of_range, with_miner,
  error_text,
}
use red_team_coin.Pool.Registry.{pause_miner, resume_miner, delete_miner, set_cpu_throttle}
use red_team_coin.Api.{
  Route, pause, resume, remove, throttle, Request, Response, generic_error_page, plain_error,
  json_error, success, throttle_success, answer, handle_miner, handle_pause_miner,
  handle_resume_miner, handle_delete_miner, handle_throttle_miner, auth_middleware, handler_of,
  serve,
}

abbrev pub is_success : Response → Bool
is_success generic_error_page = false
is_success (plain_error status message) = false
is_success (json_error status message) = false
is_success (success message id) = true
is_success (throttle_success message id percent) = true

abbrev pub IsRegistered : Text → MiningPool → Type 0
IsRegistered id pool = (m : MinerRecord) × (lookup id pool.miners ≡ some m)

-- The body names a registered miner, and for a throttle a percentage of at most 100.
abbrev pub IsTargeted : Route → Request → MiningPool → Type 0
IsTargeted pause req pool = (id : Text) × (req.miner_body ≡ some id) × IsRegistered id pool
IsTargeted resume req pool = (id : Text) × (req.miner_body ≡ some id) × IsRegistered id pool
IsTargeted remove req pool = (id : Text) × (req.miner_body ≡ some id) × IsRegistered id pool
IsTargeted throttle req pool =
    (id : Text) × (percent : I32) × (req.throttle_body ≡ some (id, percent))
    × IsRegistered id pool
    × (percent ≤ 100)

unfoldable pub act_on :
    Option Text
    → (Text → MiningPool → MiningPool × Outcome PoolError (Unit {0}))
    → MiningPool
    → MiningPool
act_on none act pool = pool
act_on (some id) act pool = (act id pool).0

unfoldable pub throttle_on : Option (Text × I32) → ℕ → MiningPool → MiningPool
throttle_on none now pool = pool
throttle_on (some (id, percent)) now pool = (set_cpu_throttle id percent now pool).0

-- What the pool's operation for a route does to the miner that the body names.
unfoldable pub controlled : Route → Request → ℕ → MiningPool → MiningPool
unfolding act_on throttle_on
controlled pause req now pool = act_on req.miner_body (λ id. pause_miner id now) pool
controlled resume req now pool = act_on req.miner_body (λ id. resume_miner id now) pool
controlled remove req now pool = act_on req.miner_body (λ id. delete_miner id now) pool
controlled throttle req now pool = throttle_on req.throttle_body now pool

-- The pool and the reply after a request that acts, with the pool `after`, if the condition holds.
pub data Acted (Allowed : Type 0) (pool after : MiningPool)
    (result : MiningPool × Outcome PoolError Response) : Type 0 where
  acted :
      (r : Response)
      → Allowed
      → result ≡ (after, ok r)
      → is_success r ≡ true
      → Acted Allowed pool after result
  turned_away :
      (r : Response)
      → ¬ Allowed
      → result ≡ (pool, ok r)
      → is_success r ≡ false
      → Acted Allowed pool after result

abbrev IsAct : (Text → MiningPool → MiningPool × Outcome PoolError (Unit {0})) → MiningPool → Type 0
IsAct act pool =
    (id : Text)
    → ((lookup id pool.miners ≡ none) × (act id pool ≡ (pool, err miner_not_found)))
      ⊎ (IsRegistered id pool × ((act id pool).1 ≡ ok tt))

answer_done :
    (status : ℕ) (done : Response) (r : MiningPool × Outcome PoolError (Unit {0}))
    → r.1 ≡ ok tt
    → answer status done r ≡ (r.0, ok done)
unfolding answer
answer_done status done (pool, ok _) e = refl
answer_done status done (pool, err _) e = absurd cc
answer_done status done (pool, panic) e = absurd cc

handle_miner-Acted :
    (message : Text) (act : Text → MiningPool → MiningPool × Outcome PoolError (Unit {0}))
    (req : Request) (pool : MiningPool)
    → IsAct act pool
    → Acted
        ((req.method ≡ text "POST")
          × ((id : Text) × (req.miner_body ≡ some id) × IsRegistered id pool))
        pool
        (act_on req.miner_body act pool)
        (handle_miner message act req pool)
unfolding handle_miner answer act_on
handle_miner-Acted message act req pool known =
    let same = text_eq_iff req.method (text "POST") in
    elim (Bool-cases (text_eq req.method (text "POST"))) [
      | inr e ↦
          turned_away (plain_error 405 (text "Method not allowed")) (λ h. absurd (cc (same.1 h.0)))
            (rw (e, handle_miner) refl) refl
      | inl e ↦ elim (Option-cases req.miner_body) [
        | inl b ↦
            turned_away (plain_error 400 (text "Invalid request"))
              (λ h. let (_, (i, b', _)) = h in absurd (cc (b, b'))) (rw (e, b, handle_miner) refl)
              refl
        | inr (id, b) ↦ elim (known id) [
          | inl (missing, r) ↦
              turned_away (json_error 404 (error_text miner_not_found))
                (λ h.
                  let (_, (i, b', (m, f))) = h in
                  let same_id : i ≡ id = cc in absurd (cc (missing, same_id, f)))
                (rw (e, b, r, handle_miner) refl) refl
          | inr (here, r) ↦
              acted (success message id) (same.0 e, (id, b, here))
                (rw (e, b, handle_miner, act_on)
                  (answer_done 404 (success message id) (act id pool) r))
                refl
        ]
      ]
    ]

-- The three operations that only ask for a registered miner.
pause_miner-IsAct : (now : ℕ) (pool : MiningPool) → IsAct (λ id. pause_miner id now) pool
unfolding pause_miner with_miner
pause_miner-IsAct now pool id = elim (Option-cases (lookup id pool.miners)) [
  | inl e ↦ inl (e, rw (e, with_miner) refl)
  | inr (m, e) ↦ inr ((m, e), rw (e, with_miner) refl)
]

resume_miner-IsAct : (now : ℕ) (pool : MiningPool) → IsAct (λ id. resume_miner id now) pool
unfolding resume_miner with_miner
resume_miner-IsAct now pool id = elim (Option-cases (lookup id pool.miners)) [
  | inl e ↦ inl (e, rw (e, with_miner) refl)
  | inr (m, e) ↦ inr ((m, e), rw (e, with_miner) refl)
]

delete_miner-IsAct : (now : ℕ) (pool : MiningPool) → IsAct (λ id. delete_miner id now) pool
unfolding delete_miner with_miner
delete_miner-IsAct now pool id = elim (Option-cases (lookup id pool.miners)) [
  | inl e ↦ inl (e, rw (e, with_miner) refl)
  | inr (m, e) ↦ inr ((m, e), rw (e, with_miner) refl)
]

-- What SetCPUThrottle answers.
set_cpu_throttle_cases :
    (id : Text) (percent : I32) (now : ℕ) (pool : MiningPool)
    → ((IsRegistered id pool × (percent ≤ 100))
        × ((set_cpu_throttle id percent now pool).1 ≡ ok tt))
      ⊎ ((¬ (IsRegistered id pool × (percent ≤ 100)))
          × ((e : PoolError) × (set_cpu_throttle id percent now pool ≡ (pool, err e))))
unfolding set_cpu_throttle with_miner
set_cpu_throttle_cases id percent now pool = elim (Option-cases (lookup id pool.miners)) [
  | inl e ↦
      inr
        (λ h. let ((m, f), _) = h in absurd (cc (e, f)), (miner_not_found, rw (e, with_miner) refl))
  | inr (m, e) ↦ elim (Bool-cases (lt32 percent 0 || lt32 100 percent)) [
    | inl bad ↦ inr (
      λ h. let (_, le) = h in absurd (ground (arith, bad, le)),
      (throttle_out_of_range, rw (e, bad, with_miner, if◌then◌else◌) refl),
    )
    | inr good ↦ inl (((m, e), ground (arith, good)), rw (e, good, with_miner, if◌then◌else◌) refl)
  ]
]

abbrev throttled : Text → I32 → Response
throttled id percent =
    throttle_success (text "CPU throttle set to " ++ (format_int percent ++ text "%")) id percent

handle_throttle_miner-Acted :
    (req : Request) (now : ℕ) (pool : MiningPool)
    → Acted
        ((req.method ≡ text "POST") × IsTargeted throttle req pool)
        pool
        (throttle_on req.throttle_body now pool)
        (handle_throttle_miner req now pool)
unfolding handle_throttle_miner answer throttle_on
handle_throttle_miner-Acted req now pool =
    let same = text_eq_iff req.method (text "POST") in
    elim (Bool-cases (text_eq req.method (text "POST"))) [
      | inr e ↦
          turned_away (plain_error 405 (text "Method not allowed")) (λ h. absurd (cc (same.1 h.0)))
            (rw (e, handle_throttle_miner) refl) refl
      | inl e ↦ elim (Option-cases req.throttle_body) [
        | inl b ↦
            turned_away (plain_error 400 (text "Invalid request"))
              (λ h. let (_, (i, p, b', _, _)) = h in absurd (cc (b, b')))
              (rw (e, b, handle_throttle_miner) refl) refl
        | inr ((id, percent), b) ↦ elim (set_cpu_throttle_cases id percent now pool) [
          | inl ((here, le), r) ↦
              acted (throttled id percent) (same.0 e, (id, percent, b, here, le))
                (rw (e, b, handle_throttle_miner, throttle_on)
                  (answer_done 400 (throttled id percent) (set_cpu_throttle id percent now pool) r))
                refl
          | inr (refused, (why, r)) ↦
              turned_away (json_error 400 (error_text why))
                (λ h.
                  let (_, (i, p, b', here, le)) = h in
                  let same_body : (i, p) ≡ (id, percent) = cc in
                  refused (
                    subst (λ (q : Text × I32). IsRegistered q.0 pool × (q.1 ≤ 100)) same_body
                      (here, le)))
                (rw (e, b, r, handle_throttle_miner) refl) refl
        ]
      ]
    ]

handler_of-Acted :
    (route : Route) (req : Request) (now : ℕ) (pool : MiningPool)
    → Acted
        ((req.method ≡ text "POST") × IsTargeted route req pool)
        pool
        (controlled route req now pool)
        (handler_of route req now pool)
unfolding handler_of controlled handle_pause_miner handle_resume_miner handle_delete_miner
handler_of-Acted pause req now pool =
    handle_miner-Acted (text "Miner paused") (λ id. pause_miner id now) req pool
      (pause_miner-IsAct now pool)
handler_of-Acted resume req now pool =
    handle_miner-Acted (text "Miner resumed") (λ id. resume_miner id now) req pool
      (resume_miner-IsAct now pool)
handler_of-Acted remove req now pool =
    handle_miner-Acted (text "Miner deleted") (λ id. delete_miner id now) req pool
      (delete_miner-IsAct now pool)
handler_of-Acted throttle req now pool = handle_throttle_miner-Acted req now pool

-- A request for a miner acts exactly if it carries the token, is a POST, and its body decodes and
-- names a registered miner, for a throttle with a percentage of at most 100: then the reply is a
-- success, and the pool is what the route's operation makes of it. Any other request is answered with an error, and leaves the pool as it was. No request
-- panics.
pub serve_cases :
    (token : Text) (route : Route) (req : Request) (now : ℕ) (pool : MiningPool)
    → Acted
        ((req.authorization ≡ text "Bearer " ++ token)
          × ((req.method ≡ text "POST") × IsTargeted route req pool))
        pool
        (controlled route req now pool)
        (serve token route req now pool)
unfolding serve auth_middleware
serve_cases token route req now pool =
    let same = text_eq_iff req.authorization (text "Bearer " ++ token) in
    elim (Bool-cases (text_eq req.authorization (text "Bearer " ++ token))) [
      | inr e ↦
          turned_away generic_error_page (λ h. absurd (cc (same.1 h.0)))
            (rw (e, auth_middleware) refl) refl
      | inl e ↦ elim (handler_of-Acted route req now pool) [
        | acted r allowed reply good ↦
            acted r (same.0 e, allowed) (rw (e, auth_middleware) reply) good
        | turned_away r denied reply bad ↦
            turned_away r (λ h. denied h.1) (rw (e, auth_middleware) reply) bad
      ]
    ]
