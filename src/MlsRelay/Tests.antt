-- ===== src/MlsRelay/Tests.antt =====
-- Instances of the theorems on key packages: two devices of one account, one with a package that
-- was handed out.
use accord_rfc.Base.{
  ◌+◌, ◌≡◌, refl, arith, Bool, true, false, List, [], ◌∷◌, any, map, Uuid, ◌==◌, if◌then◌else◌,
}
use accord_rfc.Store.{KeyPackage, Db, empty_db}
use accord_rfc.Store.Mailbox.{
  claim_key_packages_for_user, claim_each, claim_one, distinct_devices, store_key_packages,
  cap_packages, insert_packages,
}
use accord_rfc.MlsRelay.Packages.{Once}
use accord_rfc.MlsRelay.Events.{Event, upload, claim, all_handed, AllUnused}
use accord_rfc.MlsRelay.Once.{handed_once, claim-serves}

abbrev offered : Uuid → Uuid → Bool → KeyPackage
offered id device consumed = record {
  id = id;
  user_id = 2;
  device_id = device;
  key_package = 1 ∷ [];
  consumed = consumed;
  created_at = id;
}

abbrev stocked : Db
stocked = record empty_db {
  key_packages = offered 40 7 true ∷ offered 41 7 false ∷ offered 42 8 false ∷ [];
}

abbrev events : List Event
events =
    claim 2
    ∷ upload (λ n. 100 + n) (λ n. n) 0 2 7 ((2 ∷ []) ∷ (3 ∷ []) ∷ [])
    ∷ claim 2
    ∷ claim 2
    ∷ upload (λ n. 100 + n) (λ n. n) 2 2 8 ((4 ∷ []) ∷ [])
    ∷ claim 2
    ∷ []

-- The ids of the packages that are handed out.
handed_ids :
    map (λ (p : KeyPackage). p.id) (all_handed events stocked) ≡ 41 ∷ 42 ∷ 100 ∷ 101 ∷ 102 ∷ []
unfolding all_handed claim_key_packages_for_user claim_each distinct_devices store_key_packages
    cap_packages insert_packages claim_one
handed_ids = refl

unused : AllUnused events stocked
unfolding claim_key_packages_for_user claim_each distinct_devices store_key_packages cap_packages
    insert_packages claim_one
unused = (tt, ((λ n h. ground arith), (tt, (tt, ((λ n h. ground arith), (tt, tt))))))

handed_once_example : Once (all_handed events stocked)
handed_once_example = handed_once events stocked unused

abbrev owner : Uuid → Uuid
owner id = if id == 42 then 8 else 7

claim-serves_example :
    any (λ (q : KeyPackage). q.device_id == 8) (claim_key_packages_for_user 2 stocked).0 ≡ true
claim-serves_example = claim-serves owner 2 8 stocked (refl, (refl, (refl, tt))) refl
