-- ===== src/Pool/Anchors.antt =====
-- Every block handed out as work was made on top of a block of the chain.
use red_team_coin.Base.{
  ℕ, ◌≡◌, refl, subst, inl, inr, some, List, [], ◌∷◌, ◌++◌, length, get_elem?, ltb, add64, Text,
  I64, Option-cases, Bool-cases,
}
use red_team_coin.Base.Dict.{
  Dict, lookup, AllValues, AllValues-insert, AllValues-delete, AllValues-delete_where,
  AllValues-lookup, AllValues-map,
}
use red_team_coin.Chain.{Block, Blockchain, get_latest_block}
use red_team_coin.Chain.Links.{HexDigest}
use red_team_coin.Chain.Indices.{get_elem?-append, latest-position}
use red_team_coin.Pool.{PendingWork, MiningPool, report}
use red_team_coin.Pool.Registry.{set_miner, register_miner}
use red_team_coin.Pool.Work.{
  queue_capacity, new_work_block, set_pending, get_work, submit_work, solve, offer_work,
  credit_miner,
}
use red_team_coin.Pool.Invariant.{IsSound}
use red_team_coin.Pool.Submission.{
  Submission, idle, mismatched, stale, refused, accepted, submit_work_cases, without_work,
}
use red_team_coin.Pool.Assignment.{
  unregistered, reused, queued, generated, get_work_cases, Cleared, idle, discarded,
}
use red_team_coin.Pool.Growth.{Grows, Grows-extend}

-- Some block of the chain has the hash that `b` names, and the index before that of `b`.
pub record Anchored (bc : Blockchain) (b : Block) : Type 0 where
  pub position : ℕ
  pub base : Block
  pub stands : get_elem? bc.blocks position ≡ some base
  pub on_top : b.index ≡ add64 base.index 1
  pub names_base : b.previous_hash ≡ base.hash

abbrev pub AllBlocks : Blockchain → List Block → Type 0
AllBlocks bc [] = Unit
AllBlocks bc (b ∷ rest) = Anchored bc b × AllBlocks bc rest

pub record IsAnchored (pool : MiningPool) : Type 0 where
  pub queue_anchored : AllBlocks pool.blockchain pool.work_queue
  pub pending_anchored :
      AllValues (λ (w : PendingWork). Anchored pool.blockchain w.block) pool.pending_work

pub Anchored-Grows : {c d : Blockchain} {b : Block} → Grows c d → Anchored c b → Anchored d b
Anchored-Grows {c} {d} {b} g a = record {
  position = a.position;
  base = a.base;
  stands = rw g.appended (get_elem?-append c.blocks g.added a.position a.stands);
  on_top = a.on_top;
  names_base = a.names_base;
}

AllBlocks-Grows : {c d : Blockchain} (xs : List Block) → Grows c d → AllBlocks c xs → AllBlocks d xs
AllBlocks-Grows [] g h = tt
AllBlocks-Grows (x ∷ xs) g h = (Anchored-Grows g h.0, AllBlocks-Grows xs g h.1)

AllBlocks-append :
    (c : Blockchain) (xs : List Block) (b : Block)
    → AllBlocks c xs
    → Anchored c b
    → AllBlocks c (xs ++ b ∷ [])
AllBlocks-append c [] b h a = (a, tt)
AllBlocks-append c (x ∷ xs) b h a = (h.0, AllBlocks-append c xs b h.1 a)

pub new_work_block-Anchored :
    (bc : Blockchain) (latest : Block) (now : ℕ)
    → get_latest_block bc ≡ some latest
    → Anchored bc (new_work_block latest now)
unfolding new_work_block
new_work_block-Anchored bc latest now top =
    let (i, _, at_i) = latest-position bc top in
    record { position = i; base = latest; stands = at_i; on_top = refl; names_base = refl }

module _ (p : MiningPool) (a : IsAnchored p) where
  abbrev InPool : PendingWork → Type 0
  InPool w = Anchored p.blockchain w.block

  pub with_pending-IsAnchored :
      (pending : Dict PendingWork)
      → AllValues (λ (w : PendingWork). Anchored p.blockchain w.block) pending
      → IsAnchored (record p { pending_work = pending })
  with_pending-IsAnchored pending h = record {
    queue_anchored = a.queue_anchored;
    pending_anchored = h;
  }

  Cleared-AllValues :
      (id : Text) (now : ℕ) (pending : Dict PendingWork)
      → Cleared id now p pending
      → AllValues InPool pending
  Cleared-AllValues id now pending (idle _ e) = rw e a.pending_anchored
  Cleared-AllValues id now pending (discarded _ _ _ _ _ e) =
      rw e (AllValues-delete InPool id p.pending_work a.pending_anchored)

  pub register_miner-IsAnchored :
      (id ip hostname actual : Text) (now : ℕ)
      → IsAnchored (register_miner id ip hostname actual now p).0
  unfolding register_miner report set_miner
  register_miner-IsAnchored id ip hostname actual now = elim (Option-cases (lookup id p.miners)) [
    | inl e ↦
        rw (e, register_miner)
          (record { queue_anchored = a.queue_anchored; pending_anchored = a.pending_anchored })
    | inr (m, e) ↦
        rw (e, register_miner)
          (record { queue_anchored = a.queue_anchored; pending_anchored = a.pending_anchored })
  ]

  pub offer_work-IsAnchored : (b : Block) → Anchored p.blockchain b → IsAnchored (offer_work b p)
  unfolding offer_work
  offer_work-IsAnchored b h = elim (Bool-cases (ltb (length p.work_queue) queue_capacity)) [
    | inl room ↦ rw room (record {
      queue_anchored = AllBlocks-append p.blockchain p.work_queue b a.queue_anchored h;
      pending_anchored = a.pending_anchored;
    })
    | inr full ↦ rw full a
  ]

  solve-Anchored :
      (id : Text) (nonce : I64) (hash : Text) (b : Block)
      → Anchored p.blockchain b
      → Anchored p.blockchain (solve id nonce hash b)
  unfolding solve
  solve-Anchored id nonce hash b h = record {
    position = h.position;
    base = h.base;
    stands = h.stands;
    on_top = h.on_top;
    names_base = h.names_base;
  }

  without :
      (id : Text) (nonce : I64) (hash : Text) (w : PendingWork)
      → lookup id p.pending_work ≡ some w
      → IsAnchored (without_work id w (solve id nonce hash w.block) p)
  without id nonce hash w busy =
      let here = AllValues-lookup InPool id p.pending_work a.pending_anchored busy in
      with_pending-IsAnchored _ (
        AllValues-delete InPool id _ (
          AllValues-insert InPool id _ p.pending_work (solve-Anchored id nonce hash w.block here)
            a.pending_anchored))

  pub get_work-IsAnchored :
      {sha : Text → Text} → IsSound sha p → (id : Text) (now : ℕ) → IsAnchored (get_work id now p).0
  unfolding set_pending set_miner
  get_work-IsAnchored v id now = elim (get_work_cases p v id now) [
    | unregistered _ r ↦ rw r a
    | reused _ _ _ _ _ _ _ _ r ↦
        rw r (record { queue_anchored = a.queue_anchored; pending_anchored = a.pending_anchored })
    | queued m b rest pending _ q c r ↦
        let taken : AllBlocks p.blockchain (b ∷ rest) =
          subst (AllBlocks p.blockchain) q a.queue_anchored in
        rw r (record {
          queue_anchored = taken.1;
          pending_anchored =
              AllValues-insert InPool id _ pending taken.0 (Cleared-AllValues id now pending c);
        })
    | generated m latest pending _ top q c r ↦ rw r (record {
      queue_anchored = a.queue_anchored;
      pending_anchored =
          AllValues-insert InPool id _ pending (new_work_block-Anchored p.blockchain latest now top)
            (Cleared-AllValues id now pending c);
    })
  ]

  pub submit_work-IsAnchored :
      {sha : Text → Text}
      → HexDigest sha
      → IsSound sha p
      → (id : Text) (index nonce : I64) (hash : Text) (now : ℕ)
      → IsAnchored (submit_work sha id index nonce hash now p).0
  unfolding credit_miner set_miner report
  submit_work-IsAnchored hex v id index nonce hash now =
      elim (submit_work_cases hex p v id index nonce hash now) [
        | Submission.unregistered _ r ↦ rw r a
        | idle _ _ _ r ↦ rw r a
        | mismatched _ _ _ _ _ r ↦ rw r a
        | stale _ w _ _ busy _ _ _ r ↦ rw r (without id nonce hash w busy)
        | refused _ w _ _ busy _ _ _ _ r ↦ rw r (without id nonce hash w busy)
        | accepted _ w _ _ busy _ _ _ r ↦
            let grown = Grows-extend p.blockchain (solve id nonce hash w.block) in
            rw r (record {
              queue_anchored = AllBlocks-Grows p.work_queue grown a.queue_anchored;
              pending_anchored = AllValues-delete_where _ _ _ (
                  AllValues-map InPool _ (λ u h. Anchored-Grows grown h) _
                    (without id nonce hash w busy).pending_anchored);
            })
      ]
