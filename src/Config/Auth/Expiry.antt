-- ===== src/Config/Auth/Expiry.antt =====
-- internal/config/auth.go: when a refreshed token is refreshed again.
use pi_go_coding_agent.Base.{ℕ, ◌+◌, ◌-◌, ◌*◌, ◌<◌, ◌^◌, String, false, ◌≡◌, arith, leb, ◌==◌, ◌&&◌}
use pi_go_coding_agent.Base.Text.{trim_space}
use pi_go_coding_agent.Base.Int64.{Int64, int64_leb, is_positive}
use pi_go_coding_agent.Session.World.{ok}
use pi_go_coding_agent.Config.Auth.{AuthCredential, System, TokenReply}
use pi_go_coding_agent.Config.Auth.Refresh.{expiry, needs_refresh, with_tokens}

expiry_exact :
    (now : ℕ) (e : Int64)
    → 300000 < now
    → now < 2 ^ 62
    → e < 2 ^ 52
    → expiry now e ≡ now + e * 1000 - 300000
unfolding expiry
expiry_exact now e late now_small e_small = omega arith

int64_leb-leb : (a b : ℕ) → a < 2 ^ 63 → b < 2 ^ 63 → int64_leb a b ≡ leb a b
int64_leb-leb a b p q = ground arith

expires_from :
    (now : ℕ) (e : Int64) (t : ℕ)
    → 300000 < now
    → now < 2 ^ 62
    → e < 2 ^ 52
    → t < 2 ^ 63
    → (is_positive (expiry now e) && int64_leb (expiry now e) t) ≡ leb (now + e * 1000 - 300000) t
expires_from now e t late now_small e_small t_small =
    let exact = expiry_exact now e late now_small e_small in
    let order = int64_leb-leb (now + e * 1000 - 300000) t (omega arith) t_small in
    rw exact (ground (arith, order))

-- A token that was refreshed is refreshed again from 300,000 milliseconds before its end on, and
-- not before: the end of its life is not lost to an overflow, if its length is less than 2^52
-- seconds, the clock less than 2^62 and the token has a character other than a space.
pub with_tokens-needs_refresh :
    (name : String) (sys : System) (cred r : AuthCredential) (out : TokenReply) (t : ℕ)
    → 300000 < sys.received
    → sys.received < 2 ^ 62
    → out.expires_in < 2 ^ 52
    → t < 2 ^ 63
    → (trim_space out.access_token == "") ≡ false
    → with_tokens name sys cred out ≡ ok r
    → needs_refresh t r ≡ leb (sys.received + out.expires_in * 1000 - 300000) t
unfolding with_tokens needs_refresh
with_tokens-needs_refresh name sys cred r out t late now_small e_small t_small set h =
    ground (arith, expires_from sys.received out.expires_in t late now_small e_small t_small)
