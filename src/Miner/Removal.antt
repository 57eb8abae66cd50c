-- ===== src/Miner/Removal.antt =====
-- client/main.go: selfDelete and handleShutdown, and what becomes of the executable.
-- The process is modelled with its executable, and with the goroutine that selfDelete starts; what
-- package os returns is an argument. The script of Windows is left out: it runs on from the process.
use red_team_coin.Base.{
  ℕ, ◌+◌, ◌*◌, ◌^◌, Bool, true, false, not, ◌&&◌, ◌||◌, Option, none, some, List, [], ◌∷◌, ltb,
  ◌==◌, if◌then◌else◌,
}

-- What os.Stat says of the executable that selfDelete compares.
pub record FileStat : Type 0 where
  pub mod_time : ℕ
  pub size : ℕ

-- The goroutine of selfDelete: before its first os.Stat, asleep until a time, and ended.
pub data Deletion : Type 0 where
  absent called over : Deletion
  asleep : FileStat → ℕ → Deletion

-- `shutdown_file` says whether the file is there that asks for a shutdown.
pub record Process : Type 0 where
  pub executable : Option FileStat
  pub shutdown_file : Bool
  pub deletion : Deletion
  pub ended : Bool

-- 500 * time.Millisecond.
abbrev pub delete_delay : ℕ
delete_delay = 500 * 10 ^ 6

-- selfDelete up to its goroutine: os.Executable and EvalSymlinks return no error, and the path is
-- absolute.
unfoldable pub self_delete : Bool → Bool → Bool → Process → Process
self_delete has_path resolves is_absolute p =
    if has_path && (resolves && is_absolute) then record p { deletion = called } else p

-- The last part of the goroutine, at its second os.Stat; `removes` says whether os.Remove succeeds.
unfoldable pub check_again : Bool → FileStat → Process → Process
check_again removes before p = elim p.executable [
  | none ↦ record p { deletion = over }
  | some found ↦
      if not (found.mod_time == before.mod_time) || not (found.size == before.size)
      then record p { deletion = over }
      else record p { deletion = over; executable = if removes then none else some found }
]

-- The first part of the goroutine: os.Stat, and the sleep.
unfoldable pub sleep_after : ℕ → Option FileStat → Process → Process
sleep_after now none p = record p { deletion = over }
sleep_after now (some found) p = record p { deletion = asleep found (now + delete_delay) }

unfoldable pub first_look : ℕ → Process → Process
first_look now p = sleep_after now p.executable p

unfoldable pub turn : ℕ → Bool → Deletion → Process → Process
turn now removes absent p = p
turn now removes called p = first_look now p
turn now removes (asleep before until) p = if ltb now until then p else check_again removes before p
turn now removes over p = p

-- The goroutine gets the processor at a time, while the process runs.
unfoldable pub go_on : ℕ → Bool → Process → Process
go_on now removes p = if p.ended then p else turn now removes p.deletion p

unfoldable pub go_on_all : List (ℕ × Bool) → Process → Process
go_on_all [] p = p
go_on_all ((now, removes) ∷ later) p = go_on_all later (go_on now removes p)

-- os.Exit, or the return of main.
unfoldable pub end_process : Process → Process
end_process p = record p { ended = true }

-- The goroutine of handleShutdown after miner.Stop: `auto_delete` is selfDeleteOnExit.
unfoldable pub handle_shutdown : Bool → Process → Process
handle_shutdown auto_delete p =
    end_process
      (if auto_delete then self_delete true true true (record p { shutdown_file = false }) else p)
