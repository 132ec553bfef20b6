-- ===== src/Platform/Zombie.antt =====
-- The test for a zombie in src/platform/unix.rs, on the layout of `/proc/<pid>/stat`.
use replstoke.Common.{ℕ, ◌≢◌}

-- What stands behind the last `)` of a text that ends in one without any.
abbrev pub IsOther : ℕ → Type 0
IsOther c = c ≢ b')'
