-- ===== src/Pool/Payment.antt =====
-- Work that was handed out is paid for, if it is solved and follows the latest block, and refused
-- if the chain has passed it.
use red_team_coin.Base.{
  ℕ, ◌^◌, ◌<◌, ◌≡◌, ◌≢◌, refl, sym, ap, ◌∙◌, subst₂, none, some, List, [], ◌∷◌, add64, Text,
  text_eq_refl, I64,
}
use red_team_coin.Base.Dict.{lookup, lookup-insert}
use red_team_coin.Outcome.{ok, err}
use red_team_coin.Chain.{Block, calculate_hash, get_latest_block, get_block_count}
use red_team_coin.Chain.Links.{Link, HexDigest, MeetsDifficulty}
use red_team_coin.Chain.Append.{get_latest_block-some}
use red_team_coin.Pool.{MinerRecord, PendingWork, MiningPool, block_is_stale}
use red_team_coin.Pool.Registry.{set_miner}
use red_team_coin.Pool.Work.{new_work_block, set_pending, get_work, submit_work, solve}
use red_team_coin.Pool.Invariant.{IsSound}
use red_team_coin.Pool.Returns.{get_work-Returns}
use red_team_coin.Pool.Submission.{
  Submission, idle, mismatched, stale, refused, accepted, submit_work_cases,
}
use red_team_coin.Pool.Assignment.{unregistered, reused, queued, generated, get_work_cases}
use red_team_coin.Pool.Anchors.{IsAnchored}
use red_team_coin.Pool.Freshness.{Follows, get_work-Follows}

-- What GetWork leaves for the miner that got `b`.
pub record HasWork (id : Text) (b : Block) (p q : MiningPool) : Type 0 where
  miner : MinerRecord
  registered : lookup id q.miners ≡ some miner
  work : PendingWork
  pending : lookup id q.pending_work ≡ some work
  assigned : work.block ≡ b
  pub same_chain : q.blockchain ≡ p.blockchain

pub get_work-HasWork :
    {sha : Text → Text} (pool : MiningPool)
    → IsSound sha pool
    → (id : Text) (now : ℕ) (b : Block) → (get_work id now pool).1 ≡ ok b
    → HasWork id b pool (get_work id now pool).0
unfolding set_pending set_miner
get_work-HasWork pool v id now b h = elim (get_work_cases pool v id now) [
  | unregistered _ r ↦ absurd (cc (rw r at h))
  | reused m w _ _ busy _ _ _ r ↦ rw r (record {
    miner = record m { last_heartbeat = now };
    registered = simp (lookup-insert, text_eq_refl);
    work = w;
    pending = busy;
    assigned = cc (rw r at h);
    same_chain = refl;
  })
  | queued m c rest pending _ _ _ r ↦ rw r (record {
    miner = record m { last_heartbeat = now };
    registered = simp (lookup-insert, text_eq_refl);
    work = record { miner_id = id; block = c; assigned_at = now };
    pending = simp (lookup-insert, text_eq_refl);
    assigned = cc (rw r at h);
    same_chain = refl;
  })
  | generated m latest pending _ _ _ _ r ↦ rw r (record {
    miner = record m { last_heartbeat = now };
    registered = simp (lookup-insert, text_eq_refl);
    work = record { miner_id = id; block = new_work_block latest now; assigned_at = now };
    pending = simp (lookup-insert, text_eq_refl);
    assigned = cc (rw r at h);
    same_chain = refl;
  })
]

-- The hash of a block with a solution does not depend on the hash that is submitted.
solve-Link :
    (sha : Text → Text) (d : ℕ) (id : Text) (nonce : I64) (b latest : Block)
    → Follows latest b
    → MeetsDifficulty d (calculate_hash sha (solve id nonce [] b))
    → Link sha d latest (solve id nonce (calculate_hash sha (solve id nonce [] b)) b)
unfolding solve calculate_hash
solve-Link sha d id nonce b latest f m = record {
  index_next = f.next_index;
  linked = f.names_latest;
  hashed = refl;
  worked = m;
}

module _ {sha : Text → Text} (hex : HexDigest sha) (pool : MiningPool) (v : IsSound sha pool)
    (id : Text) (nonce : I64) (now : ℕ) (b latest : Block)
    (top : get_latest_block pool.blockchain ≡ some latest) (m : MinerRecord)
    (found : lookup id pool.miners ≡ some m) (w : PendingWork)
    (busy : lookup id pool.pending_work ≡ some w) (assigned : w.block ≡ b) where
  submit_work-honest :
      Follows latest b
      → MeetsDifficulty pool.blockchain.difficulty (calculate_hash sha (solve id nonce [] b))
      → (submit_work sha id b.index nonce (calculate_hash sha (solve id nonce [] b)) now pool).1
        ≡ ok 50
  submit_work-honest f met =
      let hash = calculate_hash sha (solve id nonce [] b) in
      let link = solve-Link sha pool.blockchain.difficulty id nonce b latest f met in
      elim (submit_work_cases hex pool v id b.index nonce hash now) [
        | Submission.unregistered e r ↦ absurd (cc (e, found))
        | idle _ _ e r ↦ absurd (cc (e, busy))
        | mismatched _ w' _ e other r ↦
            let same : w' ≡ w = cc in
            absurd (
              other (
                ap (λ (u : PendingWork). u.block.index) same
                ∙ ap (λ (c : Block). c.index) assigned))
        | stale _ _ latest' _ _ _ top' other r ↦
            let same : latest' ≡ latest = cc in
            absurd (other (f.next_index ∙ ap (λ (c : Block). add64 c.index 1) (sym same)))
        | refused _ w' latest' _ busy' _ top' _ bad r ↦
            let same_b : b ≡ w'.block =
              sym assigned ∙ ap (λ (u : PendingWork). u.block) (let e : w ≡ w' = cc in e) in
            let same_top : latest ≡ latest' = cc in
            absurd (
              bad (
                subst₂ (λ c d. Link sha pool.blockchain.difficulty c (solve id nonce hash d))
                  same_top same_b link))
        | accepted _ _ _ _ _ _ _ _ r ↦ ap (λ q. q.1) r ∙ ap ok v.reward_fixed
      ]

  submit_work-stale :
      (hash : Text)
      → b.index ≢ add64 latest.index 1
      → (submit_work sha id b.index nonce hash now pool).1 ≡ err block_is_stale
  submit_work-stale hash old = elim (submit_work_cases hex pool v id b.index nonce hash now) [
    | Submission.unregistered e r ↦ absurd (cc (e, found))
    | idle _ _ e r ↦ absurd (cc (e, busy))
    | mismatched _ w' _ e other r ↦
        let same : w' ≡ w = cc in
        absurd (
          other
            (ap (λ (u : PendingWork). u.block.index) same ∙ ap (λ (c : Block). c.index) assigned))
    | stale _ _ _ _ _ _ _ _ r ↦ ap (λ q. q.1) r
    | refused _ _ latest' _ _ _ top' next _ r ↦
        let same : latest' ≡ latest = cc in
        absurd (old (next ∙ ap (λ (c : Block). add64 c.index 1) same))
    | accepted _ w' latest' _ _ same_index top' link r ↦
        let same : latest' ≡ latest = cc in
        absurd (
          old (
            sym same_index
            ∙ unfold solve in link.index_next ∙ ap (λ (c : Block). add64 c.index 1) same))
  ]

module _ {sha : Text → Text} (hex : HexDigest sha) (pool : MiningPool) (v : IsSound sha pool) where
  -- The round trip of an honest miner. In a sound pool whose work is anchored, with an empty queue
  -- and fewer than 2 ^ 63 blocks: if a miner gets a block, and finds a nonce for which the hash of
  -- the solved block meets the difficulty, then submitting that nonce and hash pays 50.
  pub get_work-submit_work :
      IsAnchored pool
      → get_block_count pool.blockchain < 2 ^ 63
      → pool.work_queue ≡ []
      → (id : Text) (nonce : I64) (now later : ℕ) (b : Block) → (get_work id now pool).1 ≡ ok b
      → MeetsDifficulty pool.blockchain.difficulty (calculate_hash sha (solve id nonce [] b))
      → (submit_work sha id b.index nonce
          (calculate_hash sha (solve id nonce [] b))
          later
          (get_work id now pool).0).1
        ≡ ok 50
  get_work-submit_work a small empty id nonce now later b h met =
      let (latest, top) = get_latest_block-some sha pool.blockchain v.chain_valid in
      let got = get_work-HasWork pool v id now b h in
      let follows = get_work-Follows pool v a small empty id now b latest top h in
      submit_work-honest hex (get_work id now pool).0 (get_work-Returns pool v id now).0 id nonce
        later b latest (rw (got.same_chain) top) got.miner got.registered got.work got.pending
        got.assigned follows (rw (got.same_chain) met)

  -- The queue can hand out a block that is no longer the next one: if a registered miner without
  -- pending work asks while such a block heads the queue, it gets that block, and whatever it then
  -- submits for it is refused as stale.
  pub get_work_stale :
      (id : Text) (nonce : I64) (hash : Text) (now later : ℕ) (b latest : Block) (rest : List Block)
      (m : MinerRecord)
      → lookup id pool.miners ≡ some m
      → lookup id pool.pending_work ≡ none
      → pool.work_queue ≡ b ∷ rest
      → get_latest_block pool.blockchain ≡ some latest
      → b.index ≢ add64 latest.index 1
      → ((get_work id now pool).1 ≡ ok b)
        × ((submit_work sha id b.index nonce hash later (get_work id now pool).0).1
            ≡ err block_is_stale)
  get_work_stale id nonce hash now later b latest rest m found idle' queue top old =
      let h : (get_work id now pool).1 ≡ ok b = elim (get_work_cases pool v id now) [
        | unregistered e r ↦ absurd (cc (e, found))
        | reused _ _ _ _ busy _ _ _ r ↦ absurd (cc (busy, idle'))
        | queued _ c _ _ _ q _ r ↦ let same : c ≡ b = cc (q, queue) in ap (λ s. s.1) r ∙ ap ok same
        | generated _ _ _ _ _ q _ r ↦ absurd (cc (q, queue))
      ] in
      let got = get_work-HasWork pool v id now b h in
      (
        h,
        submit_work-stale hex (get_work id now pool).0 (get_work-Returns pool v id now).0 id nonce
            later b latest (rw (got.same_chain) top) got.miner got.registered got.work got.pending
            got.assigned hash old,
      )
