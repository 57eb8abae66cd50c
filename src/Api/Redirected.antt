-- ===== src/Api/Redirected.antt =====
-- Where the redirect leads.
use red_team_coin.Base.{
  ◌≡◌, refl, false, none, some, [], ◌∷◌, ◌++◌, arith, ◌==◌, Bool-cases, inl, inr, Text, I64,
}
use red_team_coin.Api.Redirect.{before_last_colon, has_byte, redirect_to, redirect}

before_last_colon-none : (host : Text) → has_byte b':' host ≡ false → before_last_colon host ≡ none
unfolding before_last_colon has_byte
before_last_colon-none [] h = refl
before_last_colon-none (c ∷ host) h = elim (Bool-cases (c == b':')) [
  | inl hit ↦ absurd (ground arith)
  | inr miss ↦
      let rest : has_byte b':' host ≡ false = ground arith in
      rw (before_last_colon-none host rest, miss) refl
]

before_last_colon-port :
    (host port : Text)
    → has_byte b':' port ≡ false
    → before_last_colon (host ++ b':' ∷ port) ≡ some host
unfolding before_last_colon
before_last_colon-port [] port h = rw (before_last_colon-none port h) refl
before_last_colon-port (c ∷ host) port h = rw (before_last_colon-port host port h) refl

-- A host without a colon is kept, and so is any host before a last colon and a port: the port does
-- not change where the redirect leads.
pub redirect-port :
    (https_port : I64) (host port request_uri : Text)
    → has_byte b':' port ≡ false
    → (redirect https_port (host ++ b':' ∷ port) request_uri
        ≡ redirect_to https_port host request_uri)
      × (has_byte b':' host ≡ false
          → redirect https_port host request_uri ≡ redirect_to https_port host request_uri)
unfolding redirect
redirect-port https_port host port request_uri h = (
  rw (before_last_colon-port host port h, redirect) refl,
  λ k. rw (before_last_colon-none host k, redirect) refl,
)
