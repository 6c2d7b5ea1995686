-- ===== src/Session/World.antt =====
-- What the session manager meets outside: the files, the random source and the clock. Each call
-- of the operating system has a number, and `Outside` says what the call of that number gives. A
-- write that is refused leaves the file as it was.
use pi_go_coding_agent.Base.{
  ℕ, suc, String, Bool, List, [], ◌∷◌, ◌++◌, Option, none, some, ltb, all, if◌then◌else◌,
}
use pi_go_coding_agent.Base.Dict.{Dict, lookup, insert}
use pi_go_coding_agent.Session.Data.{Header, Entry, Line, Manager}

pub record Outside : Type 0 where
  -- the four bytes that the random source gives, if it does
  pub random : ℕ → Option (List ℕ)
  -- time.Now().UnixNano(), and the time in the format RFC3339Nano
  pub nanos : ℕ → ℕ
  pub timestamp : ℕ → String
  -- the error of a file operation, if it fails
  pub refuses : ℕ → Option String
  -- the bytes that json.Marshal makes
  pub header_size : Header → ℕ
  pub entry_size : Entry → ℕ

pub record World : Type 0 where
  pub files : Dict (List Line)
  pub calls : ℕ

pub record Session : Type 0 where
  pub manager : Manager
  pub open manager use *
  pub world : World
  pub open world use *

pub data Result {ℓ} (A : Type ℓ) : Type ℓ where
  ok : A → Result A
  err : String → Result A

-- A method may have changed its object before it returns an error.
abbrev pub Action : Type 0 → Type 0
Action A = Session → Result A × Session

abbrev pub continue : {A B : Type 0} → Result A → (A → Action B) → Action B
continue (ok a) f s = f a s
continue (err e) f s = (err e, s)

infixl 10 ◌>>=◌ ◌>>◌
abbrev pub ◌>>=◌ : {A B : Type 0} → Action A → (A → Action B) → Action B
◌>>=◌ m f s = let (r, s') = m s in continue r f s'

abbrev pub ◌>>◌ : {A B : Type 0} → Action A → Action B → Action B
m >> k = m >>= λ _. k

abbrev pub return : {A : Type 0} → A → Action A
return a s = (ok a, s)

abbrev pub fail : {A : Type 0} → String → Action A
fail e s = (err e, s)

-- bufio.MaxScanTokenSize: a Scanner's buffer, which has to hold a line and its end.
abbrev pub max_scan_token_size : ℕ
max_scan_token_size = 65536

abbrev pub fits : Line → Bool
fits l = ltb l.size max_scan_token_size

module _ (o : Outside) where
  abbrev tick : World → World
  tick w = record w { calls = suc w.calls }

  -- os.OpenFile(path, O_APPEND|O_WRONLY): the file must be there.
  abbrev pub open_append : String → World → Result (Unit {0}) × World
  open_append path w = elim (o.refuses w.calls) [
    | some e ↦ (err e, tick w)
    | none ↦ elim (lookup path w.files) [
      | none ↦ (err "no such file or directory", tick w)
      | some lines ↦ (ok tt, tick w)
    ]
  ]

  abbrev lines_of : Option (List Line) → List Line
  lines_of none = []
  lines_of (some ls) = ls

  -- f.Write of one line at the end of an open file
  abbrev pub write_line : String → Line → World → Result (Unit {0}) × World
  write_line path line w = elim (o.refuses w.calls) [
    | some e ↦ (err e, tick w)
    | none ↦ (
      ok tt,
      record w {
        files = insert path (lines_of (lookup path w.files) ++ line ∷ []) w.files;
        calls = suc w.calls;
      },
    )
  ]

  -- os.Create empties the file, or makes it.
  abbrev pub create_file : String → World → Result (Unit {0}) × World
  create_file path w = elim (o.refuses w.calls) [
    | some e ↦ (err e, tick w)
    | none ↦ (ok tt, record w { files = insert path [] w.files; calls = suc w.calls })
  ]

  -- os.MkdirAll
  abbrev pub make_dir : String → World → Result (Unit {0}) × World
  make_dir path w = elim (o.refuses w.calls) [ some e ↦ (err e, tick w) | none ↦ (ok tt, tick w) ]

  -- os.Open, and the lines that the Scanner gives: a line that is too long ends it with an error.
  abbrev pub read_lines : String → World → Result (List Line) × World
  read_lines path w = elim (o.refuses w.calls) [
    | some e ↦ (err e, tick w)
    | none ↦ elim (lookup path w.files) [
      | none ↦ (err "no such file or directory", tick w)
      | some lines ↦
          if all fits lines
          then (ok lines, tick w)
          else (err "bufio.Scanner: token too long", tick w)
    ]
  ]

-- A step on the world alone.
abbrev pub on_world : {A : Type 0} → (World → Result A × World) → Action A
on_world f s = let (r, w) = f s.world in (r, record s { world = w })

-- What holds of the manager before a step and after the rest holds after both.
pub continue_keeps :
    {A B : Type 0} (P : Manager → Type 0) (r : Result A) (f : A → Action B) (s : Session)
    → P s.manager
    → ((a : A) → P (f a s).1.manager)
    → P (continue r f s).1.manager
continue_keeps P (ok a) f s before rest = rest a
continue_keeps P (err e) f s before rest = before
