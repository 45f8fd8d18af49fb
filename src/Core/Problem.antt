-- ===== src/Core/Problem.antt =====
-- core/errors.py: the error helpers that every handler raises through, and the status and detail
-- of the problem body that each becomes.
use gutencode_test.Prelude.{ℕ, ◌++◌, Text, codes}

pub data Problem : Type 0 where
  not_found invalid conflict forbidden unauthorized bad_request too_many gone : Text → Problem
  -- An exception that no handler catches.
  unhandled : Problem

unfoldable pub status_code : Problem → ℕ
status_code (not_found _) = 404
status_code (invalid _) = 422
status_code (conflict _) = 409
status_code (forbidden _) = 403
status_code (unauthorized _) = 401
status_code (bad_request _) = 400
status_code (too_many _) = 429
status_code (gone _) = 410
status_code unhandled = 500

unfoldable pub problem_detail : Problem → Text
problem_detail (not_found resource) = resource ++ codes " not found"
problem_detail (invalid d) = d
problem_detail (conflict d) = d
problem_detail (forbidden d) = d
problem_detail (unauthorized d) = d
problem_detail (bad_request d) = d
problem_detail (too_many d) = d
problem_detail (gone d) = d
problem_detail unhandled = codes "internal error"
