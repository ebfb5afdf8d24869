-- ===== src/SessionStore.antt =====
-- server/src/infrastructure/prismaSession.store.ts, where express-session keeps the sessions. The
-- text of a session's data, in JSON, and the reading of it are parameters; the reading is none where
-- the data has no cookie.
pub mod UserAgents
pub mod Refinement
use home_gate.SessionStore.UserAgents.{device_of, browser_of}
use home_gate.AuthService.{or_null}
use home_gate.Repositories.Sessions.{WriteSession}
use home_gate.Environment.{Environment}
use home_gate.Effects.{M, ◌>>◌, pure}
use home_gate.Model.{Session, World}
use home_gate.Common.{
  ℕ, ◌+◌, String, Bool, not, ◌&&◌, Option, none, some, leb, ◌==◌, if◌then◌else◌, or_else, holds,
  nat_eq, string_eq,
}
use home_gate.Repositories.Sessions

-- SessionData: the fields that the store reads, and the text of the others.
pub record SessionData : Type 0 where
  pub cookie_expires : Option ℕ
  pub original_max_age : Option ℕ
  pub max_age : Option ℕ
  pub user_id : Option String
  pub username : Option String
  pub ip_address : Option String
  pub user_agent : Option String
  pub rest : String

-- A value that is neither null nor the empty text.
abbrev pub is_truthy : Option String → Bool
is_truthy = holds (λ text. not (text == ""))

abbrev pub is_authenticated : SessionData → Bool
is_authenticated d = is_truthy d.user_id && is_truthy d.username

-- The time that the cookie gives.
abbrev pub cookie_expiration : ℕ → SessionData → ℕ
cookie_expiration now d =
    or_else d.cookie_expires (now + or_else (or_null d.original_max_age d.max_age) 0)

-- An anonymous session is kept for a quarter of an hour at most.
abbrev pub session_expiration : ℕ → SessionData → ℕ
session_expiration now d =
    if is_authenticated d
    then cookie_expiration now d
    else if leb (cookie_expiration now d) (now + 900000)
    then cookie_expiration now d
    else now + 900000

-- `sessionData.userId || undefined`
abbrev pub some_user : SessionData → Option String
some_user d = if is_truthy d.user_id then d.user_id else none

module _ (env : Environment) (to_json : SessionData → String)
    (from_json : String → Option SessionData) where
  -- An entry whose time has come is none.
  abbrev pub read : ℕ → Option Session → Option SessionData
  read now none = none
  read now (some s) = if leb s.expires_at now then none else from_json s.payload

  unfoldable pub get : String → World → Option SessionData
  get sid w = read w.now (Sessions.find_by_id env (env.hash_sha256 sid) w)

  abbrev pub row_of : String → ℕ → SessionData → WriteSession
  row_of sid now d =
      let user_agent = if is_authenticated d then d.user_agent else none in
      record {
        sid = env.hash_sha256 sid;
        payload = to_json d;
        expires_at = session_expiration now d;
        ip_address = if is_authenticated d then d.ip_address else none;
        user_agent = user_agent;
        device = device_of env user_agent;
        browser = browser_of env user_agent;
      }

  unfoldable pub set : String → SessionData → M (Unit {0})
  set sid d w = elim (Sessions.find_by_id env (env.hash_sha256 sid) w) [
    | some existing ↦ (Sessions.update env (row_of sid w.now d) >> pure tt) w
    | none ↦ (Sessions.create env (some_user d) (row_of sid w.now d) >> pure tt) w
  ]

  unfoldable pub destroy : String → M (Unit {0})
  destroy sid = Sessions.delete env (env.hash_sha256 sid)

  unfoldable pub touch : String → SessionData → M (Unit {0})
  touch sid d w =
      (Sessions.touch env (env.hash_sha256 sid) (session_expiration w.now d) >> pure tt) w
