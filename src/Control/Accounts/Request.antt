-- ===== src/Control/Accounts/Request.antt =====
-- What a handler of an account is given (apps/api/breakroom_api/password_auth.py).
use breakroom.Base.{ℕ, String, Bool, true, ◌&&◌, ◌||◌, Option, leb, ◌==◌, ◌=ℕ=◌, if◌then◌else◌}
use Prim.Native.Char.{Char, code}
use Prim.Native.String.{count}
use breakroom.Control.Rows.{Settings, Purpose}
use breakroom.Control.Monad.{Answer}

-- The request: its Origin header, its session cookie, its CSRF header and its peer.
pub record HttpRequest : Type 0 where
  pub origin : Option String
  pub cookie : String
  pub csrf_token : String
  pub peer : String

-- One call of a handler: the clock, the random texts that it draws, SHA-256, Argon2id behind its two
-- slots (a busy one answers 429), and the mailer, where there is one.
pub record AuthCall : Type 0 where
  pub settings : Settings
  pub now : ℕ
  pub user_id : String
  pub subject_id : String
  pub session_token : String
  pub new_csrf_token : String
  pub mail_token : String
  pub hash : String → String
  pub hash_password : String → Answer String
  pub verify_password : Option String → String → Answer Bool
  pub needs_rehash : String → Bool
  pub has_mailer : Bool
  pub send : (recipient : String) → Purpose → (token : String) → Bool

abbrev opaque_char : Char → Bool
opaque_char c =
    (leb 65 (code c) && leb (code c) 90)
    || (leb 97 (code c) && leb (code c) 122)
    || (leb 48 (code c) && leb (code c) 57)
    || code c =ℕ= 95
    || code c =ℕ= 45

abbrev all_opaque : String → Bool
all_opaque String.[] = true
all_opaque (String.◌∷◌ c s) = opaque_char c && all_opaque s

-- `_OPAQUE`: "[A-Za-z0-9_-]{32,128}"
unfoldable pub is_opaque : String → Bool
is_opaque t = all_opaque t && leb 32 (count t) && leb (count t) 128

-- `rstrip("/")`
unfoldable pub without_slash : String → String
without_slash String.[] = ""
without_slash (String.◌∷◌ c s) =
    let rest = without_slash s in if code c =ℕ= 47 && rest == "" then "" else String.◌∷◌ c rest
