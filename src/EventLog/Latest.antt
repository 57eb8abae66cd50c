-- ===== src/EventLog/Latest.antt =====
-- The buffer against the history of all events.
use native.Mathlib.Nat.{zero-add, suc-add}
use red_team_coin.Base.{
  map, ℕ, zero, suc, ◌+◌, ◌-◌, ◌≤◌, ◌≡◌, refl, sym, ap, ◌∙◌, List, [], ◌∷◌, ◌++◌, append_assoc,
  append-nil, arith, length, drop, length-append, length-drop, Text, I64,
}
use red_team_coin.EventLog.{
  LogEntry, PoolLogger, Detail, new_pool_logger, new_entry, keep_latest, log_event,
}

module _ {ℓ} {A : Type ℓ} where
  abbrev pub latest : ℕ → List A → List A
  latest n xs = drop (length xs - n) xs

  keep_latest-eq : (n : ℕ) (xs : List A) → keep_latest n xs ≡ latest n xs
  unfolding keep_latest
  keep_latest-eq n xs =
      let fits : length xs ≤ n → length xs - n ≡ 0 = λ h. omega arith in ground (arith, fits)

  drop-append : (k : ℕ) (xs ys : List A) → k ≤ length xs → drop k (xs ++ ys) ≡ drop k xs ++ ys
  drop-append zero xs ys h = refl
  drop-append (suc k) [] ys h = absurd (omega arith)
  drop-append (suc k) (x ∷ xs) ys h = drop-append k xs ys (omega arith)

  drop-nil : (k : ℕ) → drop {A = A} k [] ≡ []
  drop-nil zero = refl
  drop-nil (suc k) = refl

  drop-drop : (j k : ℕ) (xs : List A) → drop j (drop k xs) ≡ drop (k + j) xs
  drop-drop j zero xs = rw zero-add
  drop-drop j (suc k) [] = drop-nil j ∙ sym (drop-nil (suc k + j))
  drop-drop j (suc k) (x ∷ xs) = drop-drop j k xs ∙ rw suc-add

  latest-latest-append :
      (n : ℕ) (xs ys : List A) → latest n (latest n xs ++ ys) ≡ latest n (xs ++ ys)
  latest-latest-append n xs ys =
      let k = length xs - n in
      let regroup = sym (drop-append k xs ys (omega arith)) in
      let j = length (drop k xs ++ ys) - n in
      let total : k + j ≡ length (xs ++ ys) - n =
        omega (arith, length-append (drop k xs) ys, length-append xs ys, length-drop k xs) in
      ap (drop j) regroup ∙ drop-drop j k (xs ++ ys) ∙ ap (λ m. drop m (xs ++ ys)) total

-- The arguments of one call of LogEvent, with the time of the call.
abbrev pub Report : Type 0
Report = Text × Text × Text × List (Text × Detail) × ℕ

abbrev pub entry_of : Report → LogEntry
entry_of (event_type, message, miner_id, details, now) =
    new_entry event_type message miner_id details now

pub log_all : List Report → PoolLogger → PoolLogger
log_all [] logger = logger
log_all ((event_type, message, miner_id, details, now) ∷ rest) logger =
    log_all rest (log_event event_type message miner_id details now logger)

log_all-from :
    (reports : List Report) (past : List LogEntry) (logger : PoolLogger)
    → logger.events ≡ latest logger.max_events past
    → (log_all reports logger).events ≡ latest logger.max_events (past ++ map entry_of reports)
unfolding log_all log_event
log_all-from [] past logger e = rw append-nil e
log_all-from ((event_type, message, miner_id, details, now) ∷ rest) past logger e =
    let entry = new_entry event_type message miner_id details now in
    let n = logger.max_events in
    let kept : keep_latest n (logger.events ++ entry ∷ []) ≡ latest n (past ++ entry ∷ []) =
      rw e (
        keep_latest-eq n (latest n past ++ entry ∷ [])
        ∙ latest-latest-append n past (entry ∷ [])) in
    log_all-from rest (past ++ entry ∷ [])
      (log_event event_type message miner_id details now logger) kept
    ∙ rw (append_assoc past (entry ∷ []) (map entry_of rest))

-- After any calls of LogEvent on a new logger, the buffer holds the latest 1000 of all events, in
-- their order.
pub log_all-latest :
    (log_file : Text) (update_interval : I64) (start : ℕ) (reports : List Report)
    → (log_all reports (new_pool_logger log_file update_interval start)).events
      ≡ latest 1000 (map entry_of reports)
unfolding new_pool_logger
log_all-latest log_file update_interval start reports =
    log_all-from reports [] (new_pool_logger log_file update_interval start) refl
