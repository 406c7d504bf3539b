-- ===== src/Admin/Sessions.antt =====
-- How long a session of zongo/apps/admin/src/admin.service.ts opens the door.
use zongo_v.Prelude.{
  ℕ, ◌≡◌, refl, true, Option, none, some, List, [], ◌∷◌, String, find_where, update_where, is_some,
  arith,
}
use zongo_v.Db.Rows.{AdminSession, Db}
use zongo_v.Db.Env.{Env}
use zongo_v.Db.Monad.{unauthorized, err, ◌>>=◌}
use zongo_v.Admin.Logins.{
  Credentials, has_token, is_live, is_unusable, revoked, revoke_session, actor_from_session,
}

-- The session of a token after a revocation is revoked.
revoked-row :
    (now : ℕ) (reason hash : String) (rows : List AdminSession) {s : AdminSession}
    → find_where (has_token hash) (update_where (is_live hash) (revoked now reason) rows) ≡ some s
    → is_some s.revoked_at ≡ true
revoked-row now reason hash [] h = absurd (ground arith)
revoked-row now reason hash (r ∷ rows) {s} h =
    ground (arith, revoked-row now reason hash rows {s = s})

refuse-go :
    (env : Env) (c : Credentials) (token : String) (db : Db) (o : Option AdminSession)
    → find_where (has_token (c.hash token)) db.admin_sessions ≡ o
    → ((s : AdminSession) → o ≡ some s → is_unusable env.now s ≡ true)
    → actor_from_session env c token db ≡ (err unauthorized, db)
unfolding actor_from_session ◌>>=◌
refuse-go env c token db none e h = rw e refl
refuse-go env c token db (some s) e h = rw (e, h s refl) refl

-- Once a session was revoked, its token is refused at any later time, and using it writes nothing.
pub revoke_session-final :
    (env later : Env) (c : Credentials) (token reason : String) (db : Db)
    → let db' = (revoke_session env c token reason db).1 in
      actor_from_session later c token db' ≡ (err unauthorized, db')
unfolding revoke_session ◌>>=◌
revoke_session-final env later c token reason db =
    refuse-go later c token (revoke_session env c token reason db).1 _ refl (λ s e.
      let gone = revoked-row env.now reason (c.hash token) db.admin_sessions e in rw gone refl)
