-- ===== src/Miner/Stopped.antt =====
-- A client that has been stopped or deleted stays so: what it still sends to the server.
use red_team_coin.Base.{◌≡◌, Bool, true, false, [], ◌∷◌, ◌++◌, Text, I64}
use red_team_coin.Rpc.{WorkResponse}
use red_team_coin.Miner.{Doing, reporting, Miner}
use red_team_coin.Miner.Handled.{Handled}

-- Past the second test of m.running, and before the call of SubmitWork.
unfoldable pub is_reporting : Doing → Bool
is_reporting (reporting work nonce hash) = true
is_reporting _ = false

-- The submissions of a client that does not run: none more, or the one that was under way.
pub data Sends (before after : Miner) : Type 0 where
  no_more :
      after.sent ≡ before.sent
      → (is_reporting after.doing ≡ true → after.doing ≡ before.doing)
      → Sends before after
  one_more :
      (work : WorkResponse) (nonce : I64) (hash : Text)
      → before.doing ≡ reporting work nonce hash
      → after.sent
        ≡ before.sent
          ++ record {
            miner_id = before.id;
            block_index = work.block_index;
            nonce = nonce;
            hash = hash;
            work = work;
          }
            ∷ []
      → is_reporting after.doing ≡ false
      → Sends before after

-- What cannot be undone: not running, no new submission, and no notice to the server.
pub record Silent (before after : Miner) : Type 0 where
  pub stays_stopped : after.running ≡ false
  pub same_id : after.id ≡ before.id
  pub last_sent : Sends before after
  pub no_notice : after.notices ≡ before.notices
