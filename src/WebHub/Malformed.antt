-- ===== src/WebHub/Malformed.antt =====
-- The messages of web miners that the handlers panic on, and what the handlers leave otherwise.
use red_team_coin.Base.{
  ℕ, ◌≡◌, ◌≢◌, refl, inl, inr, ◌⊎◌, Bool, true, false, not, ◌&&◌, Option, none, some, arith, Text,
  text, text_eq, text_eq_iff, I64, Option-cases, Bool-cases,
}
use red_team_coin.Outcome.{Outcome, ok, err, panic}
use red_team_coin.Chain.{Block}
use red_team_coin.Chain.Links.{HexDigest}
use red_team_coin.Pool.{Float64, MiningPool, PoolError}
use red_team_coin.Pool.Invariant.{IsSound}
use red_team_coin.Pool.Returns.{submit_work-Returns}
use red_team_coin.WebHub.{
  Message, number_at, WebMiner, text_at, submit_fields, settle_submit, handle_submit, offer_block,
}
use red_team_coin.WebHub.Steps.{WebServer, put, fail, put_result, handle_register, dispatch}

-- The server goes on, with a sound pool.
abbrev pub GoesOn : (Text → Text) → Option WebServer → Type 0
GoesOn sha next = (s : WebServer) × (next ≡ some s) × IsSound sha s.system.pool

settle_submit-ok :
    (result : Outcome PoolError I64) (miner : WebMiner)
    → result ≢ panic
    → (m : WebMiner) × (settle_submit result miner ≡ ok m)
unfolding settle_submit
settle_submit-ok (ok reward) miner h = (_, refl)
settle_submit-ok (err e) miner h = (_, refl)
settle_submit-ok panic miner h = absurd (h refl)

pub offer_block-ok :
    (result : Outcome PoolError Block) (miner : WebMiner)
    → result ≢ panic
    → (m : WebMiner) × (offer_block result miner ≡ ok m)
unfolding offer_block
offer_block-ok (ok block) miner h = (_, refl)
offer_block-ok (err e) miner h = (_, refl)
offer_block-ok panic miner h = absurd (h refl)

pub put_result-GoesOn :
    {sha : Text → Text} (i : ℕ) (before : WebMiner) (s : WebServer) (pool : MiningPool)
    (result : Outcome PoolError WebMiner)
    → IsSound sha pool
    → (m : WebMiner) × (result ≡ ok m)
    → GoesOn sha (put_result i before s (pool, result))
unfolding put_result put
put_result-GoesOn i before s pool result v (m, e) = rw e (_, refl, v)

unfoldable pub holds : {A : Type 0} → Option A → Bool
holds none = false
holds (some _) = true

unfoldable pub has_fields : Message → Bool
has_fields msg =
    holds (number_at (text "blockIndex") msg)
    && (holds (number_at (text "nonce") msg) && holds (text_at (text "hash") msg))

-- The messages of type submit that lack a field, or hold it with another type.
unfoldable pub is_malformed : Message → Bool
is_malformed msg = elim (text_at (text "type") msg) [
  | none ↦ false
  | some kind ↦ text_eq kind (text "submit") && not (has_fields msg)
]

-- A result that is a crash exactly when the test says so.
abbrev pub Settled : (Text → Text) → Bool → Option WebServer → Type 0
Settled sha true next = next ≡ none
Settled sha false next = GoesOn sha next

pub Settled-cases :
    {sha : Text → Text} (crash : Bool) (next : Option WebServer)
    → Settled sha crash next
    → ((crash ≡ true) × (next ≡ none)) ⊎ ((crash ≡ false) × GoesOn sha next)
Settled-cases true next h = inl (refl, h)
Settled-cases false next h = inr (refl, h)

text_eq-other :
    (kind a b : Text) → text_eq kind a ≡ true → text_eq a b ≡ false → text_eq kind b ≡ false
text_eq-other kind a b h d = ground (arith, text_eq_iff kind a, text_eq_iff kind b, text_eq_iff a b)

submit_fields_cases :
    (to_int : Float64 → I64) (msg : Message)
    → ((submit_fields to_int msg ≡ none) × (has_fields msg ≡ false))
      ⊎ ((index nonce : I64) × (hash : Text) × (submit_fields to_int msg
            ≡ some (index, nonce, hash))
          × (has_fields msg ≡ true))
unfolding submit_fields has_fields holds
submit_fields_cases to_int msg = elim (Option-cases (number_at (text "blockIndex") msg)) [
  | inl e ↦ rw (e, submit_fields) (inl (refl, refl))
  | inr (index, e) ↦ elim (Option-cases (number_at (text "nonce") msg)) [
    | inl f ↦ rw (e, f, submit_fields) (inl (refl, refl))
    | inr (nonce, f) ↦ elim (Option-cases (text_at (text "hash") msg)) [
      | inl g ↦ rw (e, f, g, submit_fields) (inl (refl, refl))
      | inr (hash, g) ↦ rw (e, f, g, submit_fields) (inr (_, _, _, refl, refl))
    ]
  ]
]

module _ {sha : Text → Text} (hex : HexDigest sha) (to_int : Float64 → I64) (i now : ℕ)
    (msg : Message) (miner : WebMiner) (s : WebServer) (v : IsSound sha s.system.pool) where
  handle_submit-Settled :
      Settled sha
        (not (has_fields msg) && s.hub.running)
        (put_result i miner s (handle_submit sha to_int msg now miner s.system.pool))
  unfolding handle_submit put_result has_fields fail put
  handle_submit-Settled = elim (submit_fields_cases to_int msg) [
    | inl (e, bad) ↦ elim (Bool-cases s.hub.running) [
      | inl runs ↦ rw (e, handle_submit, bad, runs) refl
      | inr ended ↦ rw (e, handle_submit, bad, ended) (_, refl, v)
    ]
    | inr (index, nonce, hash, e, good) ↦
        let r = submit_work-Returns hex s.system.pool v miner.id index nonce hash now in
        rw (e, handle_submit, good)
          (put_result-GoesOn i miner s _ _ r.0 (settle_submit-ok _ miner r.1))
  ]

  handle_register-GoesOn : GoesOn sha (some (handle_register to_int i msg miner s))
  unfolding handle_register put
  handle_register-GoesOn = elim (Bool-cases s.hub.running) [
    | inl e ↦ rw e (_, refl, v)
    | inr e ↦ rw e (_, refl, v)
  ]

  pub dispatch-Settled :
      (kind : Text)
      → Settled sha
          ((text_eq kind (text "submit") && not (has_fields msg)) && s.hub.running)
          (dispatch to_int sha kind i now msg miner s)
  unfolding dispatch put text_eq
  dispatch-Settled kind = elim (Bool-cases (text_eq kind (text "register"))) [
    | inl h ↦ rw (h, text_eq-other kind _ (text "submit") h refl) handle_register-GoesOn
    | inr r ↦ elim (Bool-cases (text_eq kind (text "getwork"))) [
      | inl h ↦ rw (r, h, text_eq-other kind _ (text "submit") h refl) (_, refl, v)
      | inr g ↦ elim (Bool-cases (text_eq kind (text "submit"))) [
        | inl h ↦ rw (r, g, h) handle_submit-Settled
        | inr d ↦ elim (Bool-cases (text_eq kind (text "stats"))) [
          | inl h ↦ rw (r, g, d, h) (_, refl, v)
          | inr h ↦ rw (r, g, d, h) (_, refl, v)
        ]
      ]
    ]
  ]
