-- ===== src/Providers/Http.antt =====
-- internal/providers: what a client reads of a reply.
use pi_go_coding_agent.Base.{ℕ, String, List, ltb, if◌then◌else◌}
use pi_go_coding_agent.Base.Text.{◌^^◌}
use pi_go_coding_agent.Session.World.{Result, ok, err}

-- How the reading ends: with what stands after the last end of a line, or with an error.
pub data Ending : Type 0 where
  end_of_file : String → Ending
  broken : String → Ending

-- The body of a reply: its text, and the same as the lines that a reader gives, with its end
pub record Body : Type 0 where
  pub whole : String
  pub lines : List String
  pub ending : Ending

-- What the service answers: nothing, or a status with a body.
pub data HttpReply : Type 0 where
  unreachable : String → HttpReply
  replied : ℕ → Body → HttpReply

unfoldable pub bind : {A B : Type 0} → Result A → (A → Result B) → Result B
bind (ok a) f = f a
bind (err why) f = err why

-- The body of a reply, unless the transport fails or the status is 300 or more; `number` is
-- strconv.Itoa.
unfoldable pub ok_body : (ℕ → String) → HttpReply → Result Body
ok_body number (unreachable why) = err why
ok_body number (replied status body) =
    if ltb status 300
    then ok body
    else err ("provider error " ^^ number status ^^ ": " ^^ body.whole)
