-- ===== src/GoogleAuth/Perms.antt =====
-- `checkSecretPerms` of internal/googleauth/perms.go.
use calendar_bridge.Base.{ℕ, ◌%◌, Bool, Option, none, some, eqb, if◌then◌else◌}

-- The bits for the group and for others: `mode & 0o077`.
unfoldable pub others_bits : ℕ → ℕ
others_bits mode = mode % 0o100

-- The permission bits, where they let others in.
unfoldable pub insecure_mode : ℕ → Option ℕ
insecure_mode perm = if eqb (others_bits perm) 0 then none else some perm

-- Whether the system is Windows, and the mode that `os.Stat` answers, if it does.
unfoldable pub check_secret_perms : Bool → Option ℕ → Option ℕ
check_secret_perms windows none = none
check_secret_perms windows (some mode) = if windows then none else insecure_mode (mode % 0o1000)
