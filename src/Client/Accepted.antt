-- ===== src/Client/Accepted.antt =====
-- The client's search against the server's handlers: work is fetched, mined and submitted.
use red_team_coin.Base.{
  ℕ, ◌<◌, ◌^◌, ◌≡◌, ◌≢◌, refl, sym, ap, ◌∙◌, subst₂, true, some, List, [], ◌++◌, arith, Text, text,
  I64, format_int,
}
use red_team_coin.Outcome.{Outcome, ok, err, panic, ok-injective}
use red_team_coin.Chain.{Block, calculate_hash, hash_record, get_block_count}
use red_team_coin.Chain.Links.{MeetsDifficulty, HexDigest}
use red_team_coin.Pool.{MiningPool, PoolError}
use red_team_coin.Pool.Work.{get_work, submit_work, solve}
use red_team_coin.Pool.Invariant.{IsSound}
use red_team_coin.Pool.Anchors.{IsAnchored}
use red_team_coin.Pool.Payment.{get_work-HasWork, get_work-submit_work}
use red_team_coin.Rpc.{
  WorkResponse, work_reply, submission_reply, handle_get_work, handle_submit_work,
}
use red_team_coin.Client as Client
use red_team_coin.Client.{work_hash, mine_block}
use red_team_coin.Client.Worker.{Solves}
use red_team_coin.Client.Search.{mine_block_sound}

-- The server's and the client's hash of the same block are the same.
work_hash-calculate_hash :
    (sha : Text → Text) (work : WorkResponse) (id : Text) (nonce : I64) (b : Block)
    → work.block_index ≡ b.index
    → work.timestamp ≡ b.timestamp
    → work.data_text ≡ b.data_text
    → work.previous_hash ≡ b.previous_hash
    → work_hash sha work nonce ≡ calculate_hash sha (solve id nonce [] b)
unfolding Client.calculate_hash calculate_hash hash_record solve
work_hash-calculate_hash sha work id nonce b index time content previous =
    rw (index, time, content, previous) refl

record Replied (pool : MiningPool) (result : Outcome PoolError Block) (work : WorkResponse)
    : Type 0 where
  block : Block
  given : result ≡ ok block
  index_same : work.block_index ≡ block.index
  time_same : work.timestamp ≡ block.timestamp
  data_same : work.data_text ≡ block.data_text
  previous_same : work.previous_hash ≡ block.previous_hash
  difficulty_same : work.difficulty ≡ pool.blockchain.difficulty

work_reply_ok :
    (pool : MiningPool) (result : Outcome PoolError Block) (work : WorkResponse)
    → work_reply pool.blockchain.difficulty result ≡ ok work
    → Replied pool result work
unfolding work_reply
work_reply_ok pool (ok b) work h =
    let same = ok-injective h in
    record {
      block = b;
      given = refl;
      index_same = cc;
      time_same = cc;
      data_same = cc;
      previous_same = cc;
      difficulty_same = cc;
    }
work_reply_ok pool (err e) work h = absurd cc
work_reply_ok pool panic work h = absurd cc

module _ {sha : Text → Text} (hex : HexDigest sha) (pool : MiningPool) (v : IsSound sha pool) where
  submit_mined :
      IsAnchored pool
      → get_block_count pool.blockchain < 2 ^ 63
      → pool.work_queue ≡ []
      → (id : Text) (now later : ℕ) (work : WorkResponse)
      → Replied (get_work id now pool).0 (get_work id now pool).1 work
      → (nonce : I64) (hash : Text) → (hash ≡ work_hash sha work nonce) × Solves sha work nonce
      → (submit_work sha id work.block_index nonce hash later (get_work id now pool).0).1 ≡ ok 50
  submit_mined a small empty id now later work reply nonce hash (hashed, solves) =
      let same =
        work_hash-calculate_hash sha work id nonce reply.block reply.index_same reply.time_same
          reply.data_same reply.previous_same in
      let got = get_work-HasWork pool v id now reply.block reply.given in
      let kept = reply.difficulty_same ∙ ap (λ c. c.difficulty) got.same_chain in
      let met = subst₂ MeetsDifficulty kept same solves in
      rw (reply.index_same, hashed, same)
        (get_work-submit_work hex pool v a small empty id nonce now later reply.block reply.given
          met)

  -- The client's block is accepted by the server. In a sound pool whose work is anchored, with an
  -- empty queue and fewer than 2 ^ 63 blocks: if GetWork replies to a miner, and mineBlock, with
  -- any schedule of its workers, turns the reply into a hash that is not empty, then SubmitWork of
  -- that nonce and hash replies that the block is accepted, with a reward of 50.
  pub mine_block-accepted :
      IsAnchored pool
      → get_block_count pool.blockchain < 2 ^ 63
      → pool.work_queue ≡ []
      → (id : Text) (now later : ℕ) (work : WorkResponse)
      → (handle_get_work id now pool).1 ≡ ok work
      → (schedule : List (ℕ × ℕ)) (nonce : I64) (hash : Text) (total : I64)
      → mine_block sha work schedule ≡ some (nonce, (hash, total))
      → hash ≢ []
      → (handle_submit_work sha id work.block_index nonce hash later
          (handle_get_work id now pool).0).1
        ≡ ok (record {
          accepted = true;
          message = text "Block " ++ (format_int work.block_index ++ text " accepted");
          reward = 50;
        })
  unfolding handle_get_work handle_submit_work submission_reply
  mine_block-accepted a small empty id now later work h schedule nonce hash total mined ne =
      let reply = work_reply_ok (get_work id now pool).0 (get_work id now pool).1 work h in
      let got = get_work-HasWork pool v id now reply.block reply.given in
      let kept = reply.difficulty_same ∙ ap (λ c. c.difficulty) got.same_chain in
      let bounded = v.chain_valid.bounded in
      let natural : work.difficulty < 2 ^ 31 = omega (arith, kept, bounded) in
      let (nonce', hash', total', mined', solution) = mine_block_sound sha work natural schedule in
      let same_nonce : nonce' ≡ nonce = cc in
      let same_hash : hash' ≡ hash = cc in
      let answer = submit_mined a small empty id now later work reply nonce hash (
        subst₂ (λ n t. (t ≡ work_hash sha work n) × Solves sha work n) same_nonce same_hash
          (solution (λ nil. ne (sym same_hash ∙ nil)))) in
      ap (submission_reply work.block_index) answer
