-- ===== src/SessionStore/Refinement.antt =====
-- The store is a map from session ids to data, of which each entry ends at its time.
use home_gate.Database.Keys.{find-remove_self, find-remove_apart, find-update_apart}
use home_gate.SessionStore.{
  SessionData, session_expiration, some_user, read, get, row_of, set, destroy,
}
use home_gate.Environment.{Environment}
use home_gate.Effects.{final}
use home_gate.Model.{Session, World}
use home_gate.Common.{
  String, ◌≡◌, refl, ap, ◌∙◌, inl, inr, Bool, true, false, Option, none, some, arith, leb, ◌==◌,
  string_eq, ==_refl, if◌then◌else◌, Bool-cases, Option-cases, nat_eq,
}
use mathlib.Core.Path.{fun_ext}
use home_gate.Repositories.Sessions

-- The map, changed at one session id.
abbrev pub changed_at :
    String → Option SessionData → (String → Option SessionData) → String → Option SessionData
changed_at sid entry view other_sid = if other_sid == sid then entry else view other_sid

module _ (env : Environment) (to_json : SessionData → String)
    (from_json : String → Option SessionData) (w : World) where
  -- What a browser with this session id gets.
  abbrev pub view : World → String → Option SessionData
  view v sid = get env to_json from_json sid v

  -- No other session id has the hash of this one.
  abbrev pub IsUnshared : String → Type 0
  IsUnshared sid =
      (other_sid : String) → env.hash_sha256 other_sid ≡ env.hash_sha256 sid → other_sid ≡ sid

  apart :
      (sid other_sid : String)
      → IsUnshared sid
      → (other_sid == sid) ≡ false
      → (env.hash_sha256 other_sid == env.hash_sha256 sid) ≡ false
  apart sid other_sid h e = elim (Bool-cases (env.hash_sha256 other_sid == env.hash_sha256 sid)) [
    | inr f ↦ f
    | inl f ↦ absurd (
        ground (
          arith,
          (string_eq.beq_iff other_sid sid).1 (
              h other_sid
                ((string_eq.beq_iff (env.hash_sha256 other_sid) (env.hash_sha256 sid)).0 f)),
        ))
  ]

  abbrev has_sid : String → Session → Bool
  has_sid sid s = s.sid == env.hash_sha256 sid

  -- What is found after a set, under its own id and another one.
  abbrev stored_after : String → SessionData → String → Option Session
  stored_after sid d other_sid =
      Sessions.find_by_id env (env.hash_sha256 other_sid)
        (final (set env to_json from_json sid d w))

  found_self :
      (sid : String) (d : SessionData)
      → (s : Session) × (stored_after sid d sid ≡ some s)
        × (s.payload ≡ to_json d)
        × (s.expires_at ≡ session_expiration w.now d)
  unfolding set Sessions.find_by_id Sessions.create Sessions.update
  found_self sid d = elim (Option-cases (env.sessions.find (has_sid sid) w.sessions)) [
    | inl e ↦
        let row =
          Sessions.new_row (env.uuid w.created) w.now (some_user d)
            (row_of env to_json from_json sid w.now d) in
        (
          row,
          ground (
            arith,
            ==_refl (env.hash_sha256 sid),
            env.sessions.find-insert_new (has_sid sid) row w.sessions e,
          ),
          refl,
          refl,
        )
    | inr (s, e) ↦ (
      Sessions.updated (row_of env to_json from_json sid w.now d) s,
      ground (
        arith,
        env.sessions.find-sound (has_sid sid) w.sessions s e,
        env.sessions.find-update (has_sid sid) (has_sid sid)
            (Sessions.updated (row_of env to_json from_json sid w.now d)) w.sessions (λ r. refl),
      ),
      refl,
      refl,
    )
  ]

  sid_apart :
      (sid other_sid : String)
      → (env.hash_sha256 other_sid == env.hash_sha256 sid) ≡ false
      → (s : Session) → has_sid other_sid s ≡ true
      → has_sid sid s ≡ false
  sid_apart sid other_sid f s g =
      let same = (string_eq.beq_iff s.sid (env.hash_sha256 other_sid)).0 g in
      ap (λ x. x == env.hash_sha256 sid) same ∙ f

  found_other :
      (sid other_sid : String) (d : SessionData)
      → (env.hash_sha256 other_sid == env.hash_sha256 sid) ≡ false
      → stored_after sid d other_sid ≡ Sessions.find_by_id env (env.hash_sha256 other_sid) w
  unfolding set Sessions.find_by_id Sessions.create Sessions.update
  found_other sid other_sid d f = elim (Option-cases (env.sessions.find (has_sid sid) w.sessions)) [
    | inl e ↦
        let row =
          Sessions.new_row (env.uuid w.created) w.now (some_user d)
            (row_of env to_json from_json sid w.now d) in
        ground (
          arith,
          string_eq.beq_iff (env.hash_sha256 other_sid) (env.hash_sha256 sid),
          string_eq.beq_iff (env.hash_sha256 sid) (env.hash_sha256 other_sid),
          env.sessions.find-insert_other (has_sid other_sid) row w.sessions,
        )
    | inr (s, e) ↦ ground (
      arith,
      find-update_apart env.sessions (has_sid other_sid) (has_sid sid)
          (Sessions.updated (row_of env to_json from_json sid w.now d)) w.sessions (λ r. refl)
          (sid_apart sid other_sid f),
    )
  ]

  set_now :
      (sid : String) (d : SessionData) → (final (set env to_json from_json sid d w)).now ≡ w.now
  unfolding set Sessions.create Sessions.update
  set_now sid d = ground arith

  -- Where a session's data is read as it was written and no other id has the hash of this one,
  -- setting the session is putting the data at its id in the map that the store stands for: other ids
  -- keep what they had. Data whose time has already come when it is set reads as none.
  pub get-set :
      (sid : String) (d : SessionData)
      → IsUnshared sid
      → from_json (to_json d) ≡ some d
      → view (final (set env to_json from_json sid d w))
        ≡ changed_at sid (if leb (session_expiration w.now d) w.now then none else some d) (view w)
  unfolding get
  get-set sid d unshared kept = fun_ext λ other_sid. elim (Bool-cases (other_sid == sid)) [
    | inl e ↦
        let same = (string_eq.beq_iff other_sid sid).0 e in
        let (s, found, payload, expiry) = found_self sid d in
        ap (λ x. view (final (set env to_json from_json sid d w)) x) same
        ∙ (ap (λ t. read env to_json from_json t (stored_after sid d sid)) (set_now sid d)
            ∙ (ap (λ o. read env to_json from_json w.now o) found ∙ ground arith))
    | inr e ↦
        ap (λ t. read env to_json from_json t (stored_after sid d other_sid)) (set_now sid d)
        ∙ (ap (λ o. read env to_json from_json w.now o)
              (found_other sid other_sid d (apart sid other_sid unshared e))
            ∙ rw e refl)
  ]

  -- Destroying a session is dropping it from the map.
  pub get-destroy :
      (sid : String)
      → IsUnshared sid
      → view (final (destroy env to_json from_json sid w)) ≡ changed_at sid none (view w)
  unfolding get destroy Sessions.delete Sessions.find_by_id
  get-destroy sid unshared = fun_ext λ other_sid. elim (Bool-cases (other_sid == sid)) [
    | inl e ↦
        ap (λ x. view (final (destroy env to_json from_json sid w)) x)
          ((string_eq.beq_iff other_sid sid).0 e)
        ∙ (ap (λ o. read env to_json from_json w.now o)
              (find-remove_self env.sessions (has_sid sid) w.sessions)
            ∙ rw e refl)
    | inr e ↦
        ap (λ o. read env to_json from_json w.now o)
          (find-remove_apart env.sessions (has_sid other_sid) (has_sid sid) w.sessions
            (sid_apart sid other_sid (apart sid other_sid unshared e)))
        ∙ rw e refl
  ]
