-- ===== src/Authz/Hierarchy.antt =====
-- The hierarchy: who may act on whom is a strict order on different members, below the owner.
use accord_rfc.Base.{◌<◌, ◌≡◌, ◌≢◌, Uuid, true, false, arith}
use accord_rfc.Store.{Db}
use accord_rfc.Store.Users.{is_owner}
use accord_rfc.Authz.{rank, can_act_on}

-- Of two different members, one may act on the other exactly when the other is not the owner and
-- has a smaller rank.
pub can_act_on_lem :
    (db : Db) (a b : Uuid)
    → a ≢ b
    → can_act_on db a b ≡ true
    → (is_owner db b ≡ false) × (rank db b < rank db a)
unfolding can_act_on
can_act_on_lem db a b ne h = ground arith

pub can_act_on-of :
    (db : Db) (a b : Uuid)
    → is_owner db b ≡ false
    → rank db b < rank db a
    → can_act_on db a b ≡ true
unfolding can_act_on
can_act_on-of db a b h k = ground arith

-- Of two different members at most one may act on the other; whoever may act on a second member
-- may act on each third member that the second may act on, and is not that third member.
pub can_act_on_order :
    (db : Db) (a b c : Uuid)
    → a ≢ b
    → b ≢ c
    → can_act_on db a b ≡ true
    → can_act_on db b c ≡ true
    → (can_act_on db b a ≡ false) × (a ≢ c) × (can_act_on db a c ≡ true)
unfolding can_act_on
can_act_on_order db a b c ab bc p q =
    ground (arith, can_act_on_lem db a b ab p, can_act_on_lem db b c bc q)
