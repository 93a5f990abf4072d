-- ===== src/Auth/Limits.antt =====
-- crates/accord-server/src/auth/service.rs: who connects from this machine, and the limit on
-- registrations from elsewhere.
use accord_rfc.Base.{
  ℕ, ◌-◌, ◌*◌, ◌/◌, ◌%◌, ◌^◌, Bool, false, ◌&&◌, ◌||◌, List, [], ◌∷◌, ◌++◌, length, filter, leb,
  ltb, ◌==◌, if◌then◌else◌,
}
use accord_rfc.Guardrails.Bucket.{second}
use accord_rfc.Api.Error.{Result, ok, err, ServerError, to_status}
use accord_rfc.Api.Server.{Address, v4, v6}

-- `Ipv4Addr::is_loopback`: 127.0.0.0/8.
abbrev pub is_loopback_v4 : ℕ → Bool
is_loopback_v4 n = n / 2 ^ 24 == 127

-- `is_loopback`. `to_ipv4_mapped` is for the addresses ::ffff:0:0/96.
unfoldable pub is_loopback : Address → Bool
is_loopback (v4 n) = is_loopback_v4 n
is_loopback (v6 n) = n == 1 || (n / 2 ^ 32 == 0xffff && is_loopback_v4 (n % 2 ^ 32))

-- `==` of addresses.
abbrev pub same_address : Address → Address → Bool
same_address (v4 a) (v4 b) = a == b
same_address (v6 a) (v6 b) = a == b
same_address _ _ = false

-- `MAX_REMOTE_REGISTRATIONS_PER_WINDOW`
abbrev pub max_registrations : ℕ
max_registrations = 5

-- `REGISTRATION_WINDOW`, in nanoseconds.
abbrev pub window : ℕ
window = 3600 * second

abbrev pub Log : Type 0
Log = Address → List ℕ

abbrev pub put_entries : Address → List ℕ → Log → Log
put_entries ip entries log = λ a. if same_address a ip then entries else log a

-- What `retain` leaves.
abbrev pub recent : ℕ → List ℕ → List ℕ
recent now = filter (λ t. ltb (now - t) window)

-- `check_registration_rate`
unfoldable pub check_registration_rate : Address → ℕ → Log → Result (Unit {0}) × Log
check_registration_rate ip now log =
    let entries = recent now (log ip) in
    if leb max_registrations (length entries)
    then (
      err (
          to_status
            (ServerError.rate_limited "too many registrations from this address; try again later")),
      put_entries ip entries log,
    )
    else (ok tt, put_entries ip (entries ++ now ∷ []) log)
