-- ===== src/Policy/Tests.antt =====
-- internal/policy/policy.go at a concrete set.
use coderoom.Prelude.{string_eq}
