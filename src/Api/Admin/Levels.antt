-- ===== src/Api/Admin/Levels.antt =====
-- What an administrator can change about users.
use web3_blitz.Base.{
  ℕ, ◌≤◌, ◌≡◌, ◌∙◌, ap, sym, ==-true, ◌⊎◌, inl, inr, refl, false, some, List, [], ◌∷◌, ◌==◌,
  update_where, Each, arith, Bool-cases, Option-cases,
}
use web3_blitz.Base.Int.{ℤ, pos, negsuc, ltb_ℤ}
use web3_blitz.Code.{ErrorCode}
use web3_blitz.Db.Models.{User, Tables}
use web3_blitz.Db.Users.{update_user_level}
use web3_blitz.Effects.{World, ok, fail, try_write}
use web3_blitz.Effects.Laws.{Reply-cases}
use web3_blitz.Api.Request.{Request}
use web3_blitz.Api.Admin.{UpgradeBody, to_level, upgrade_user}

-- A level given by an administrator.
record Releveled (id level : ℕ) (x y : User) : Type 0 where
  pub kept : y ≡ record x { level = y.level }
  pub changed : ((x.id ≡ id) × (y.level ≡ level)) ⊎ (y ≡ x)

releveled :
    (id level : ℕ) (l : List User)
    → Each
        (Releveled id level)
        l
        (update_where (λ u. u.id == id) (λ u. record u { level = level }) l)
unfolding update_where
releveled id level [] = tt
releveled id level (x ∷ l) = elim (Bool-cases (x.id == id)) [
  | inl e ↦
      rw e (record { kept = refl; changed = inl (==-true x.id id e, refl) }, releveled id level l)
  | inr e ↦ rw e (record { kept = refl; changed = inr refl }, releveled id level l)
]

to_level_lem :
    (z : ℤ)
    → ltb_ℤ z (pos 0) ≡ false
    → ltb_ℤ (pos 3) z ≡ false
    → (z ≡ pos (to_level z)) × (to_level z ≤ 3)
to_level_lem (pos n) a b = (refl, ground arith)
to_level_lem (negsuc n) a b = absurd (ground arith)

-- A request that is answered has passed the tests and written.
upgrade_user-ok :
    (r : Request UpgradeBody) (w : World) {b : UpgradeBody}
    → (upgrade_user r w).0 ≡ ok b
    → (r.body ≡ some b)
      × (ltb_ℤ b.level (pos 0) ≡ false)
      × (ltb_ℤ (pos 3) b.level ≡ false)
      × ((upgrade_user r w).1.tables ≡ (update_user_level (to_level b.level) b.user_id w.tables).1)
unfolding upgrade_user try_write
upgrade_user-ok r w {b} h = elim (Option-cases r.body) [
  | inl e ↦ absurd (ground arith)
  | inr (c, e) ↦ (ground arith, ground arith, ground arith, ground arith)
]

upgrade_user-fail :
    (r : Request UpgradeBody) (w : World) {c : ErrorCode}
    → (upgrade_user r w).0 ≡ fail c
    → (upgrade_user r w).1.tables ≡ w.tables
unfolding upgrade_user try_write update_user_level
upgrade_user-fail r w h = ground arith

-- A change of level that is answered is one to a level from 0 to 3; the users are those from before,
-- but for the level of the user with that id, and no other table has changed. A change that is
-- refused has changed nothing.
upgrade_user_outcome :
    (r : Request UpgradeBody) (w : World)
    → ((b : UpgradeBody) × (level : ℕ) × ((upgrade_user r w).0 ≡ ok b)
        × (r.body ≡ some b)
        × (b.level ≡ pos level)
        × (level ≤ 3)
        × Each (Releveled b.user_id level) w.tables.users (upgrade_user r w).1.tables.users
        × ((upgrade_user r w).1.tables
            ≡ record w.tables { users = (upgrade_user r w).1.tables.users }))
      ⊎ ((c : ErrorCode) × ((upgrade_user r w).0 ≡ fail c)
          × ((upgrade_user r w).1.tables ≡ w.tables))
unfolding update_user_level
upgrade_user_outcome r w = elim (Reply-cases (upgrade_user r w).0) [
  | inr (c, e) ↦ inr (c, e, upgrade_user-fail r w {c = c} e)
  | inl (b, e) ↦
      let (body, low, high, t) = upgrade_user-ok r w {b = b} e in
      let (level, le) = to_level_lem b.level low high in
      let users = ap (λ (t : Tables). t.users) t in
      inl (
        b,
        to_level b.level,
        e,
        body,
        level,
        le,
        rw users (releveled b.user_id (to_level b.level) w.tables.users),
        t ∙ ap (λ (l : List User). record w.tables { users = l }) (sym users),
      )
]
