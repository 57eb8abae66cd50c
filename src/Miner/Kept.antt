-- ===== src/Miner/Kept.antt =====
-- When the executable is removed, and when it is not.
use red_team_coin.Base.{
  ℕ, ◌+◌, ◌≤◌, ◌<◌, ◌≡◌, ◌≢◌, ◌⊎◌, refl, sym, ap, ◌∙◌, Bool, true, false, not, ◌&&◌, Option, none,
  some, List, [], ◌∷◌, arith, ltb, if◌then◌else◌, if_intro, subst,
}
use red_team_coin.Miner.Removal.{
  FileStat, Deletion, absent, called, over, asleep, Process, delete_delay, self_delete, check_again,
  sleep_after, first_look, turn, go_on, go_on_all, end_process, handle_shutdown,
}

-- A process that has ended does nothing.
go_on-ended : (now : ℕ) (removes : Bool) (p : Process) → p.ended ≡ true → go_on now removes p ≡ p
unfolding go_on
go_on-ended now removes p e = ap (λ b. if b then p else turn now removes p.deletion p) e

go_on_all-ended : (later : List (ℕ × Bool)) (p : Process) → p.ended ≡ true → go_on_all later p ≡ p
unfolding go_on_all
go_on_all-ended [] p e = refl
go_on_all-ended ((now, removes) ∷ later) p e =
    ap (go_on_all later) (go_on-ended now removes p e) ∙ go_on_all-ended later p e

-- The goroutine sleeps, if at all, until a time or longer.
abbrev WaitsFor : ℕ → Deletion → Type 0
WaitsFor time absent = Unit
WaitsFor time called = Unit
WaitsFor time over = Unit
WaitsFor time (asleep before until) = time ≤ until

-- The times lie between two others, the second one excluded.
abbrev pub all_between : ℕ → ℕ → List (ℕ × Bool) → Bool
all_between from to [] = true
all_between from to ((now, removes) ∷ later) =
    not (ltb now from) && (ltb now to && all_between from to later)

module _ (start : ℕ) where
  -- The executable is as it was, and the goroutine does not look at it again before the delay is over.
  record IsEarly (p q : Process) : Type 0 where
    same : q.executable ≡ p.executable
    waits : WaitsFor (start + delete_delay) q.deletion

  sleep_after-IsEarly :
      (now : ℕ) (found : Option FileStat) (p : Process)
      → start ≤ now
      → IsEarly p (sleep_after now found p)
  unfolding sleep_after
  sleep_after-IsEarly now none p from = record { same = refl; waits = tt }
  sleep_after-IsEarly now (some found) p from = record { same = refl; waits = omega arith }

  turn-IsEarly :
      (now : ℕ) (removes : Bool) (d : Deletion) (p : Process)
      → start ≤ now
      → now < start + delete_delay
      → p.deletion ≡ d
      → WaitsFor (start + delete_delay) d
      → IsEarly p (turn now removes d p)
  unfolding turn first_look
  turn-IsEarly now removes absent p from to e w = record { same = refl; waits = rw e tt }
  turn-IsEarly now removes over p from to e w = record { same = refl; waits = rw e tt }
  turn-IsEarly now removes called p from to e w = sleep_after-IsEarly now p.executable p from
  turn-IsEarly now removes (asleep before until) p from to e w =
      let early : ltb now until ≡ true = ground arith in
      subst (IsEarly p) (sym (ap (λ b. if b then p else check_again removes before p) early))
        (record { same = refl; waits = subst (WaitsFor (start + delete_delay)) (sym e) w })

  go_on-IsEarly :
      (now : ℕ) (removes : Bool) (p : Process)
      → start ≤ now
      → now < start + delete_delay
      → WaitsFor (start + delete_delay) p.deletion
      → IsEarly p (go_on now removes p)
  unfolding go_on
  go_on-IsEarly now removes p from to w =
      if_intro (IsEarly p) p.ended (λ e. record { same = refl; waits = w })
        (λ e. turn-IsEarly now removes p.deletion p from to refl w)

  go_on_all-IsEarly :
      (steps : List (ℕ × Bool)) (p : Process)
      → all_between start (start + delete_delay) steps ≡ true
      → WaitsFor (start + delete_delay) p.deletion
      → (go_on_all steps p).executable ≡ p.executable
  unfolding go_on_all
  go_on_all-IsEarly [] p h w = refl
  go_on_all-IsEarly ((now, removes) ∷ steps) p h w =
      let from : start ≤ now = ground arith in
      let to : now < start + delete_delay = ground arith in
      let rest : all_between start (start + delete_delay) steps ≡ true = ground arith in
      let here = go_on-IsEarly now removes p from to w in
      go_on_all-IsEarly steps (go_on now removes p) rest here.waits ∙ here.same

-- What handleShutdown leaves behind.
abbrev pub is_absent : Deletion → Bool
is_absent absent = true
is_absent called = false
is_absent over = false
is_absent (asleep before until) = false

is_absent-WaitsFor : (time : ℕ) (d : Deletion) → is_absent d ≡ true → WaitsFor time d
is_absent-WaitsFor time absent e = tt
is_absent-WaitsFor time called e = tt
is_absent-WaitsFor time over e = tt
is_absent-WaitsFor time (asleep before until) e = absurd (cc)

-- Where no goroutine of selfDelete is under way yet, the executable is as it was after a process that
-- calls selfDelete and ends once the goroutines have had turns within half a second of the start, and
-- after handleShutdown, which ends the process at once, with auto-delete or without, whatever turns
-- would come after the end.
pub self_delete-end_process :
    (start : ℕ) (has_path resolves is_absolute auto_delete : Bool) (before later : List (ℕ × Bool))
    (p : Process)
    → is_absent p.deletion ≡ true
    → all_between start (start + 500_000_000) before ≡ true
    → ((go_on_all later
          (end_process (go_on_all before (self_delete has_path resolves is_absolute p)))).executable
        ≡ p.executable)
      × ((go_on_all later (handle_shutdown auto_delete p)).executable ≡ p.executable)
unfolding handle_shutdown end_process self_delete
self_delete-end_process start has_path resolves is_absolute auto_delete before later p idle h =
    let p' = self_delete has_path resolves is_absolute p in
    let called_or_not =
      if_intro (IsEarly start p) (has_path && (resolves && is_absolute))
        {x = record p { deletion = called }} {y = p} (λ e. record { same = refl; waits = tt })
        (λ e. record {
          same = refl;
          waits = is_absent-WaitsFor (start + delete_delay) p.deletion idle;
        }) in
    let early = go_on_all-IsEarly start before p' h called_or_not.waits in
    (
      ap (λ q. q.executable) (go_on_all-ended later (end_process (go_on_all before p')) refl)
          ∙ early
          ∙ called_or_not.same,
      ap (λ q. q.executable) (go_on_all-ended later (handle_shutdown auto_delete p) refl)
          ∙ if_intro (λ (q : Process). q.executable ≡ p.executable) auto_delete (λ e. refl)
              (λ e. refl),
    )

-- A process that runs on removes the executable at its first turn after the half second, if it finds
-- the same time of modification and the same size as before the sleep, and os.Remove succeeds.
pub self_delete-removes :
    (found changed : FileStat) (shutdown_file : Bool) (first second : ℕ) (removes : Bool)
    → first + delete_delay ≤ second
    → let p : Process = record {
      executable = some found;
      shutdown_file = shutdown_file;
      deletion = absent;
      ended = false;
    } in
      let slept = go_on first removes (self_delete true true true p) in
      ((go_on second true slept).executable ≡ none)
      × ((changed.mod_time ≢ found.mod_time) ⊎ (changed.size ≢ found.size)
          → (go_on second true (record slept { executable = some changed })).executable
            ≡ some changed)
unfolding self_delete go_on turn first_look sleep_after check_again
self_delete-removes found changed shutdown_file first second removes late =
    let awake : ltb second (first + delete_delay) ≡ false = ground arith in
    (rw awake (ground arith), λ other. rw awake (ground (arith, other)))
