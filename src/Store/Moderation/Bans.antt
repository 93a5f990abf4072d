-- ===== src/Store/Moderation/Bans.antt =====
-- Who is banned after the writes of Store/Moderation.
use accord_rfc.Base.{
  ℕ, ◌≡◌, refl, sym, ◌∙◌, not, ◌&&◌, ◌||◌, List, [], ◌∷◌, Text, Uuid, any, filter, any-append,
  or_absorbs, or_last, ==_iff, any-update, ◌==◌, arith, Bool-cases, inl, inr,
}
use accord_rfc.Store.{Ban, Db}
use accord_rfc.Store.Moderation.{is_banned, ban_user, unban_user}

pub is_banned-ban_user :
    (user by : Uuid) (reason : Text) (now : ℕ) (db : Db) (u : Uuid)
    → is_banned (ban_user user by reason now db) u ≡ (is_banned db u || user == u)
unfolding is_banned ban_user
is_banned-ban_user user by reason now db u = elim (Bool-cases (is_banned db user)) [
  | inl e ↦ rw e (
      any-update (λ (b : Ban). b.user_id == u) _ _ db.bans (λ b _. refl)
      ∙ or_absorbs (is_banned db u) (user == u) λ h. rw (sym ((==_iff user u).0 h)) e)
  | inr e ↦ rw e (any-append (λ (b : Ban). b.user_id == u) db.bans _ ∙ or_last (is_banned db u) _)
]

pub is_banned-unban_user :
    (user : Uuid) (db : Db) (u : Uuid)
    → is_banned (unban_user user db) u ≡ (is_banned db u && not (user == u))
unfolding is_banned unban_user
is_banned-unban_user user db u = kept db.bans
  where
    kept :
        (rows : List Ban)
        → any (λ (b : Ban). b.user_id == u) (filter (λ (b : Ban). not (b.user_id == user)) rows)
          ≡ (any (λ (b : Ban). b.user_id == u) rows && not (user == u))
    kept [] = refl
    kept (b ∷ rows) = ground (arith, kept rows)
